-- ===== src/Config/Files.antt =====
-- A configuration that is loaded has what is written in its file.
use gar_virt.Prelude.{
  Bytes, codes, ok, err, bind-eq-ok, ℕ, ◌≡◌, refl, ap, subst, ◌∙◌, Option, none, some, [], map,
}
use gar_virt.Config.{parse_failed, System, resolve, LogLevel}
use gar_virt.Config.Accesses.{
  ok_injective, or_bad-eq-ok, load_all-Each, HasString, HasNumber, HasEach, string_at-HasString,
  number_at-HasNumber,
}
use gar_virt.Config.Meaning.{level_text, load_log_level-text, TokenFrom, resolve-TokenFrom}
use gar_virt.Config.Loading.{
  YamlLibrary, ForgeConfig, MainConfig, or_bad, load_all, string_at, number_at, load_backend,
  load_forge_token, load_forge, load_log, load_yaml_file, load_file,
}
use gar_virt.Config.Templates.{BackendWritten, load_backend-Written}

module _ {Node : Type 0} (yaml : YamlLibrary Node) (toupper : ℕ → ℕ) (sys : System)
    (parent_path : Bytes → Bytes) where
  -- The level is written under its name, in any case.
  abbrev pub LevelWritten : Node → LogLevel → Type 0
  LevelWritten from level =
      (name : Bytes) × HasString yaml from (codes "level") name
      × (map toupper name ≡ map toupper (level_text level))

  pub record ForgeWritten (from : Node) (forge : ForgeConfig) : Type 0 where
    pub forge_type_written : HasString yaml from (codes "type") forge.type
    pub uri_written : HasString yaml from (codes "uri") forge.uri
    pub token_written :
        (child : Node) × (yaml.get from (codes "token") ≡ some child)
        × HasString yaml child (codes "source") forge.token.source
        × HasString yaml child (codes "value") forge.token.value

  -- The whole file.
  pub record FileWritten (path : Bytes) (y : Node) (c : MainConfig) : Type 0 where
    pub loaded : yaml.load path ≡ some y
    pub version_written : HasNumber yaml y (codes "config_version") c.config_version
    pub main_name_written : HasString yaml y (codes "name") c.name
    pub log_written :
        (from : Node) × (yaml.get y (codes "log") ≡ some from) × LevelWritten from c.log_level
    pub forge_written :
        (from : Node) × (yaml.get y (codes "forge") ≡ some from) × ForgeWritten from c.forge
    pub base : c.base_dir ≡ parent_path path
    pub token_resolved : TokenFrom sys c.base_dir c.forge.token c.forge.resolved_token
    pub backends_written :
        HasEach yaml (BackendWritten yaml toupper sys parent_path) y (codes "backends") c.backends

  load_log-LevelWritten :
      (from : Node) (level : LogLevel)
      → load_log yaml toupper sys parent_path from ≡ ok level
      → LevelWritten from level
  load_log-LevelWritten from level e =
      let (name, e1, e2) =
        bind-eq-ok (string_at yaml toupper sys parent_path from (codes "level")) _ e in
      (
        name,
        string_at-HasString yaml toupper sys parent_path from (codes "level") name e1,
        load_log_level-text toupper name level e2,
      )

  -- The resolved token can be any.
  load_forge-ForgeWritten :
      (from : Node) (forge : ForgeConfig) (resolved : Bytes)
      → load_forge yaml toupper sys parent_path from ≡ ok forge
      → ForgeWritten from record forge { resolved_token = resolved }
  load_forge-ForgeWritten from forge resolved e =
      let (type, e1, r1) =
        bind-eq-ok (string_at yaml toupper sys parent_path from (codes "type")) _ e in
      let (uri, e2, r2) =
        bind-eq-ok (string_at yaml toupper sys parent_path from (codes "uri")) _ r1 in
      let (child, e3, r3) = bind-eq-ok (or_bad (yaml.get from (codes "token"))) _ r2 in
      let (token, e4, r4) = bind-eq-ok (load_forge_token yaml toupper sys parent_path child) _ r3 in
      let (source, e5, r5) =
        bind-eq-ok (string_at yaml toupper sys parent_path child (codes "source")) _ e4 in
      let (value, e6, r6) =
        bind-eq-ok (string_at yaml toupper sys parent_path child (codes "value")) _ r5 in
      let made : ForgeConfig = record {
        type = type;
        uri = uri;
        token = record { source = source; value = value };
        resolved_token = [];
      } in
      let built : made ≡ forge =
        ap (λ t. record { type = type; uri = uri; token = t; resolved_token = [] })
          (ok_injective r6)
        ∙ ok_injective r4 in
      subst (λ f. ForgeWritten from record f { resolved_token = resolved }) built
        record {
          forge_type_written =
              string_at-HasString yaml toupper sys parent_path from (codes "type") type e1;
          uri_written = string_at-HasString yaml toupper sys parent_path from (codes "uri") uri e2;
          token_written = (
            child,
            or_bad-eq-ok (yaml.get from (codes "token")) child e3,
            string_at-HasString yaml toupper sys parent_path child (codes "source") source e5,
            string_at-HasString yaml toupper sys parent_path child (codes "value") value e6,
          );
        }

  load_yaml_file-eq-ok :
      (path : Bytes) (y : Node)
      → load_yaml_file yaml toupper sys parent_path path ≡ ok y
      → yaml.load path ≡ some y
  load_yaml_file-eq-ok path y e = go (yaml.load path) e
    where
      go :
          (o : Option Node) → elim o [ none ↦ err parse_failed | some y ↦ ok y ] ≡ ok y → o ≡ some y
      go none e = cc
      go (some z) e = ap some (ok_injective e)

  -- A configuration that is loaded has what is written in its file: each field comes from the node behind
  -- its own key, which holds a value of its kind; numbers are not negative; the level is that of its
  -- name in any case; the token comes from where its source says, in the directory of the file; the
  -- backends, their templates and the labels are the elements of the nodes that the library
  -- gives for their keys, in their order. The architecture alone is not as it is written: each of the six
  -- accepted names, those of `arm64` too, gives `amd64`.
  pub load_file-Written :
      (path : Bytes) (c : MainConfig)
      → load_file yaml toupper sys parent_path path ≡ ok c
      → (y : Node) × FileWritten path y c
  unfolding load_file
  load_file-Written path c e =
      let (y, e1, r1) = bind-eq-ok (load_yaml_file yaml toupper sys parent_path path) _ e in
      let (version, e2, r2) =
        bind-eq-ok (number_at yaml toupper sys parent_path y (codes "config_version")) _ r1 in
      let (from_log, e3, r3) = bind-eq-ok (or_bad (yaml.get y (codes "log"))) _ r2 in
      let (level, e4, r4) = bind-eq-ok (load_log yaml toupper sys parent_path from_log) _ r3 in
      let (name, e5, r5) =
        bind-eq-ok (string_at yaml toupper sys parent_path y (codes "name")) _ r4 in
      let (from_forge, e6, r6) = bind-eq-ok (or_bad (yaml.get y (codes "forge"))) _ r5 in
      let (forge, e7, r7) = bind-eq-ok (load_forge yaml toupper sys parent_path from_forge) _ r6 in
      let (from, e8, r8) = bind-eq-ok (or_bad (yaml.get y (codes "backends"))) _ r7 in
      let (backends, e9, r9) =
        bind-eq-ok (load_all (load_backend yaml toupper sys parent_path) (yaml.elements from)) _
          r8 in
      let (token, e10, r10) = bind-eq-ok (resolve sys (parent_path path) forge.token) _ r9 in
      let made : MainConfig = record {
        base_dir = parent_path path;
        config_version = version;
        log_level = level;
        name = name;
        forge = record forge { resolved_token = token };
        backends = backends;
      } in
      let built : made ≡ c = ok_injective r10 in
      (
        y,
        subst (FileWritten path y) built record {
          loaded = load_yaml_file-eq-ok path y e1;
          version_written =
              number_at-HasNumber yaml toupper sys parent_path y (codes "config_version") version
                e2;
          main_name_written =
              string_at-HasString yaml toupper sys parent_path y (codes "name") name e5;
          log_written = (
            from_log,
            or_bad-eq-ok (yaml.get y (codes "log")) from_log e3,
            load_log-LevelWritten from_log level e4,
          );
          forge_written = (
            from_forge,
            or_bad-eq-ok (yaml.get y (codes "forge")) from_forge e6,
            load_forge-ForgeWritten from_forge forge token e7,
          );
          base = refl;
          token_resolved = resolve-TokenFrom sys (parent_path path) forge.token token e10;
          backends_written = (
            from,
            or_bad-eq-ok (yaml.get y (codes "backends")) from e8,
            load_all-Each (load_backend yaml toupper sys parent_path)
                (BackendWritten yaml toupper sys parent_path)
                (load_backend-Written yaml toupper sys parent_path) (yaml.elements from) backends
                e9,
          );
        },
      )
