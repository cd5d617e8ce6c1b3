-- ===== src/Config/Examples.antt =====
-- Configurations.
use gar_virt.Prelude.{
  ltb, ◌==◌, if◌then◌else◌, Bytes, codes, ok, ℕ, ◌-◌, ◌≡◌, refl, true, ◌&&◌, none, some, [], ◌∷◌,
  ◌++◌,
}
use gar_virt.Text.{string_trim, same_bytes, string_compare_ci}
use gar_virt.Numeric.{pos, cast_to_unsigned}
use gar_virt.Arch.{amd64, from_name}
use gar_virt.Config.{
  ForgeTokenConfig, System, trimmed_content, resolve, info, MachineTemplateConfig, load_log_level,
}
use gar_virt.Config.Loading.{YamlLibrary, MainConfig, load_template, load_backend, load_file}
use gar_virt.Config.Files.{FileWritten, load_file-Written}

abbrev sys : System
sys = record {
  getenv = λ name. none;
  is_relative = λ path. true;
  path_join = λ a b. a ++ b;
  read_file = λ path. some (codes "abc\n");
}

abbrev token : ForgeTokenConfig
token = record { source = codes "file"; value = codes "token" }

abc_token : resolve sys (codes "etc") token ≡ ok (codes "abc")
unfolding resolve trimmed_content string_trim
abc_token = refl

abbrev upper : ℕ → ℕ
upper c = if ltb 96 c && ltb c 123 then c - 32 else c

-- A tree in which a key leads to the same node from everywhere.
abbrev key_node : Bytes → ℕ
key_node key =
    if same_bytes key (codes "arch")
    then 1
    else if same_bytes key (codes "level")
    then 2
    else if same_bytes key (codes "source")
    then 3
    else if same_bytes key (codes "labels")
    then 4
    else 5

abbrev yaml : YamlLibrary ℕ
yaml = record {
  load = λ path. some 0;
  get = λ n key. some (key_node key);
  as_string = λ n. some (
      if n == 1
      then codes "arm64"
      else if n == 2
      then codes "Info"
      else if n == 3
      then codes "inline"
      else codes "x");
  as_int = λ n. some (pos 2);
  size = λ n. some 0;
  elements = λ n. if n == 5 then 6 ∷ [] else [];
  emit = λ n. some [];
}

abbrev loaded_template : MachineTemplateConfig
loaded_template = record {
  os = codes "x";
  arch = amd64;
  temp_dir = codes "x";
  idle_target = 2;
  max_concurrency = 2;
  runner_exe_path = codes "x";
  labels = [];
  raw_details = [];
}

abbrev loaded_file : MainConfig
loaded_file = record {
  base_dir = codes "etc";
  config_version = 2;
  log_level = info;
  name = codes "x";
  forge = record {
    type = codes "x";
    uri = codes "x";
    token = record { source = codes "inline"; value = codes "x" };
    resolved_token = codes "x";
  };
  backends =
      record {
        type = codes "x";
        name = codes "x";
        templates = loaded_template ∷ [];
        raw_details = [];
      }
      ∷ [];
}

loads : load_file yaml upper sys (λ path. codes "etc") (codes "etc/config.yaml") ≡ ok loaded_file
unfolding load_file load_backend load_template load_log_level resolve from_name string_compare_ci
    cast_to_unsigned
loads = refl

load_file-Written_example :
    (y : ℕ) × FileWritten yaml upper sys
      (λ path. codes "etc")
      (codes "etc/config.yaml")
      y
      loaded_file
load_file-Written_example =
    load_file-Written yaml upper sys (λ path. codes "etc") (codes "etc/config.yaml") loaded_file
      loads
