-- ===== src/Config/Templates.antt =====
-- A template and a backend that are loaded have what is written in their nodes.
use gar_virt.Prelude.{Bytes, codes, ok, err, Result, bind-eq-ok, ℕ, ◌≡◌, subst, ◌⊎◌, some}
use gar_virt.Arch.{amd64, Arch, amd64_names, arm64_names, from_name, Among, from_name_iff}
use gar_virt.Config.{System, MachineTemplateConfig, arch_of}
use gar_virt.Config.Accesses.{
  ok_injective, or_bad-eq-ok, load_all-Each, HasString, HasNumber, HasText, HasEach,
  string_at-HasString, emit_at-HasText, number_at-HasNumber, labels_at-HasEach,
}
use gar_virt.Config.Loading.{
  YamlLibrary, BackendConfig, or_bad, load_all, string_at, number_at, emit_at, labels_at,
  load_template, load_backend,
}

arch_of-eq-ok :
    (toupper : ℕ → ℕ) (name : Bytes) (arch : Arch)
    → arch_of (from_name toupper name) ≡ ok arch
    → from_name toupper name ≡ ok arch
arch_of-eq-ok toupper name arch e = go (from_name toupper name) e
  where
    go : (r : Result Bytes Arch) → arch_of r ≡ ok arch → r ≡ ok arch
    go (ok a) e = cc
    go (err a) e = cc

module _ {Node : Type 0} (yaml : YamlLibrary Node) (toupper : ℕ → ℕ) (sys : System)
    (parent_path : Bytes → Bytes) where
  -- A template with the fields of its node. The architecture is `amd64`, whichever accepted name is written.
  pub record Written (n : Node) (t : MachineTemplateConfig) : Type 0 where
    pub arch_written :
        (name : Bytes) × HasString yaml n (codes "arch") name
        × (Among toupper name amd64_names ⊎ Among toupper name arm64_names)
    pub arch_amd64 : t.arch ≡ amd64
    pub os_written : HasString yaml n (codes "os") t.os
    pub temp_dir_written : HasString yaml n (codes "temp_dir") t.temp_dir
    pub idle_written : HasNumber yaml n (codes "idle_target") t.idle_target
    pub most_written : HasNumber yaml n (codes "max_concurrency") t.max_concurrency
    pub exe_written : HasString yaml n (codes "runner_exe_path") t.runner_exe_path
    pub labels_written : HasEach yaml (λ l s. yaml.as_string l ≡ some s) n (codes "labels") t.labels
    pub details_written : HasText yaml n (codes "details") t.raw_details

  load_template-Written :
      (n : Node) (t : MachineTemplateConfig)
      → load_template yaml toupper sys parent_path n ≡ ok t
      → Written n t
  unfolding load_template
  load_template-Written n t e =
      let (arch_name, e1, r1) =
        bind-eq-ok (string_at yaml toupper sys parent_path n (codes "arch")) _ e in
      let (arch, e2, r2) = bind-eq-ok (arch_of (from_name toupper arch_name)) _ r1 in
      let (os, e3, r3) = bind-eq-ok (string_at yaml toupper sys parent_path n (codes "os")) _ r2 in
      let (temp_dir, e4, r4) =
        bind-eq-ok (string_at yaml toupper sys parent_path n (codes "temp_dir")) _ r3 in
      let (idle, e5, r5) =
        bind-eq-ok (number_at yaml toupper sys parent_path n (codes "idle_target")) _ r4 in
      let (most, e6, r6) =
        bind-eq-ok (number_at yaml toupper sys parent_path n (codes "max_concurrency")) _ r5 in
      let (exe, e7, r7) =
        bind-eq-ok (string_at yaml toupper sys parent_path n (codes "runner_exe_path")) _ r6 in
      let (labels, e8, r8) = bind-eq-ok (labels_at yaml toupper sys parent_path n) _ r7 in
      let (details, e9, r9) =
        bind-eq-ok (emit_at yaml toupper sys parent_path n (codes "details")) _ r8 in
      let (only_amd64, accepted) =
        (from_name_iff toupper arch_name arch).0 (arch_of-eq-ok toupper arch_name arch e2) in
      let made : MachineTemplateConfig = record {
        os = os;
        arch = arch;
        temp_dir = temp_dir;
        idle_target = idle;
        max_concurrency = most;
        runner_exe_path = exe;
        labels = labels;
        raw_details = details;
      } in
      let built : made ≡ t = ok_injective r9 in
      subst (Written n) built record {
        arch_written = (
          arch_name,
          string_at-HasString yaml toupper sys parent_path n (codes "arch") arch_name e1,
          accepted,
        );
        arch_amd64 = only_amd64;
        os_written = string_at-HasString yaml toupper sys parent_path n (codes "os") os e3;
        temp_dir_written =
            string_at-HasString yaml toupper sys parent_path n (codes "temp_dir") temp_dir e4;
        idle_written =
            number_at-HasNumber yaml toupper sys parent_path n (codes "idle_target") idle e5;
        most_written =
            number_at-HasNumber yaml toupper sys parent_path n (codes "max_concurrency") most e6;
        exe_written =
            string_at-HasString yaml toupper sys parent_path n (codes "runner_exe_path") exe e7;
        labels_written = labels_at-HasEach yaml toupper sys parent_path n labels e8;
        details_written =
            emit_at-HasText yaml toupper sys parent_path n (codes "details") details e9;
      }

  -- A backend with the fields of its node, and its templates with theirs, in their order.
  pub record BackendWritten (n : Node) (b : BackendConfig) : Type 0 where
    pub type_written : HasString yaml n (codes "type") b.type
    pub name_written : HasString yaml n (codes "name") b.name
    pub backend_details : HasText yaml n (codes "details") b.raw_details
    pub templates_written : HasEach yaml Written n (codes "templates") b.templates

  pub load_backend-Written :
      (n : Node) (b : BackendConfig)
      → load_backend yaml toupper sys parent_path n ≡ ok b
      → BackendWritten n b
  unfolding load_backend
  load_backend-Written n b e =
      let (type, e1, r1) =
        bind-eq-ok (string_at yaml toupper sys parent_path n (codes "type")) _ e in
      let (name, e2, r2) =
        bind-eq-ok (string_at yaml toupper sys parent_path n (codes "name")) _ r1 in
      let (details, e3, r3) =
        bind-eq-ok (emit_at yaml toupper sys parent_path n (codes "details")) _ r2 in
      let (from, e4, r4) = bind-eq-ok (or_bad (yaml.get n (codes "templates"))) _ r3 in
      let (templates, e5, r5) =
        bind-eq-ok (load_all (load_template yaml toupper sys parent_path) (yaml.elements from)) _
          r4 in
      let made : BackendConfig = record {
        type = type;
        name = name;
        templates = templates;
        raw_details = details;
      } in
      let built : made ≡ b = ok_injective r5 in
      subst (BackendWritten n) built record {
        type_written = string_at-HasString yaml toupper sys parent_path n (codes "type") type e1;
        name_written = string_at-HasString yaml toupper sys parent_path n (codes "name") name e2;
        backend_details =
            emit_at-HasText yaml toupper sys parent_path n (codes "details") details e3;
        templates_written = (
          from,
          or_bad-eq-ok (yaml.get n (codes "templates")) from e4,
          load_all-Each (load_template yaml toupper sys parent_path) Written load_template-Written
              (yaml.elements from) templates e5,
        );
      }
