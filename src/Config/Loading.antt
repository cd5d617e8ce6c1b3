-- ===== src/Config/Loading.antt =====
-- `load_file` of modules/app/src/config.cpp, which walks the tree that the YAML library makes of a file.
use gar_virt.Prelude.{Bytes, codes, ok, err, Result, ◌>>=◌, ℕ, Option, none, some, List, [], ◌∷◌}
use gar_virt.Numeric.{ℤ}
use gar_virt.Arch.{from_name}
use gar_virt.Config.{
  bad_yaml, parse_failed, ConfigError, ForgeTokenConfig, System, resolve, LogLevel,
  MachineTemplateConfig, number, arch_of, load_log_level,
}

-- What the code uses of yaml-cpp; what throws gives nothing. A node for a key that is missing is a node too.
pub record YamlLibrary (Node : Type 0) : Type 0 where
  pub load : Bytes → Option Node
  pub get : Node → Bytes → Option Node
  pub as_string : Node → Option Bytes
  pub as_int : Node → Option ℤ
  pub size : Node → Option ℕ
  pub elements : Node → List Node
  pub emit : Node → Option Bytes

pub record ForgeConfig : Type 0 where
  pub type : Bytes
  pub uri : Bytes
  pub token : ForgeTokenConfig
  pub resolved_token : Bytes

pub record BackendConfig : Type 0 where
  pub type : Bytes
  pub name : Bytes
  pub templates : List MachineTemplateConfig
  pub raw_details : Bytes

pub record MainConfig : Type 0 where
  pub base_dir : Bytes
  pub config_version : ℕ
  pub log_level : LogLevel
  pub name : Bytes
  pub forge : ForgeConfig
  pub backends : List BackendConfig

abbrev pub or_bad : {A : Type 0} → Option A → Result ConfigError A
or_bad none = err bad_yaml
or_bad (some a) = ok a

-- The loops that push what they load; an exception ends them.
abbrev pub load_all :
    {N A : Type 0} → (N → Result ConfigError A) → List N → Result ConfigError (List A)
load_all f [] = ok []
load_all f (n ∷ nodes) = do a ← f n; items ← load_all f nodes; ok (a ∷ items)

-- `parent_path` is that of `std::filesystem::path`.
module _ {Node : Type 0} (yaml : YamlLibrary Node) (toupper : ℕ → ℕ) (sys : System)
    (parent_path : Bytes → Bytes) where
  abbrev pub string_at : Node → Bytes → Result ConfigError Bytes
  string_at from key = do child ← or_bad (yaml.get from key); or_bad (yaml.as_string child)

  abbrev pub int_at : Node → Bytes → Result ConfigError ℤ
  int_at from key = do child ← or_bad (yaml.get from key); or_bad (yaml.as_int child)

  abbrev pub number_at : Node → Bytes → Result ConfigError ℕ
  number_at from key = int_at from key >>= number

  abbrev pub emit_at : Node → Bytes → Result ConfigError Bytes
  emit_at from key = do child ← or_bad (yaml.get from key); or_bad (yaml.emit child)

  abbrev pub labels_at : Node → Result ConfigError (List Bytes)
  labels_at from = do
    runner_labels ← or_bad (yaml.get from (codes "labels"))
    _ ← or_bad (yaml.size runner_labels)
    load_all (λ l. or_bad (yaml.as_string l)) (yaml.elements runner_labels)

  unfoldable pub load_template : Node → Result ConfigError MachineTemplateConfig
  load_template from = do
    arch_name ← string_at from (codes "arch")
    arch ← arch_of (from_name toupper arch_name)
    os ← string_at from (codes "os")
    temp_dir ← string_at from (codes "temp_dir")
    idle_target ← number_at from (codes "idle_target")
    max_concurrency ← number_at from (codes "max_concurrency")
    runner_exe_path ← string_at from (codes "runner_exe_path")
    labels ← labels_at from
    raw_details ← emit_at from (codes "details")
    ok record {
      os = os;
      arch = arch;
      temp_dir = temp_dir;
      idle_target = idle_target;
      max_concurrency = max_concurrency;
      runner_exe_path = runner_exe_path;
      labels = labels;
      raw_details = raw_details;
    }

  unfoldable pub load_backend : Node → Result ConfigError BackendConfig
  unfolding load_template
  load_backend from = do
    type ← string_at from (codes "type")
    name ← string_at from (codes "name")
    raw_details ← emit_at from (codes "details")
    from_templates ← or_bad (yaml.get from (codes "templates"))
    templates ← load_all load_template (yaml.elements from_templates)
    ok record { type = type; name = name; templates = templates; raw_details = raw_details }

  abbrev pub load_forge_token : Node → Result ConfigError ForgeTokenConfig
  load_forge_token from = do
    source ← string_at from (codes "source")
    value ← string_at from (codes "value")
    ok record { source = source; value = value }

  -- The resolved token is empty so far.
  abbrev pub load_forge : Node → Result ConfigError ForgeConfig
  load_forge from = do
    type ← string_at from (codes "type")
    uri ← string_at from (codes "uri")
    from_token ← or_bad (yaml.get from (codes "token"))
    token ← load_forge_token from_token
    ok record { type = type; uri = uri; token = token; resolved_token = [] }

  abbrev pub load_log : Node → Result ConfigError LogLevel
  load_log from = do level_name ← string_at from (codes "level"); load_log_level toupper level_name

  abbrev pub load_yaml_file : Bytes → Result ConfigError Node
  load_yaml_file file_path = elim (yaml.load file_path) [ none ↦ err parse_failed | some y ↦ ok y ]

  -- `MainConfig::resolve`.
  abbrev pub resolve_main : Bytes → MainConfig → Result ConfigError MainConfig
  resolve_main base_dir c = do
    token ← resolve sys base_dir c.forge.token
    ok record c { base_dir = base_dir; forge = record (c.forge) { resolved_token = token } }

  unfoldable pub load_file : Bytes → Result ConfigError MainConfig
  unfolding load_backend load_log_level resolve
  load_file file_path = do
    y ← load_yaml_file file_path
    config_version ← number_at y (codes "config_version")
    from_log ← or_bad (yaml.get y (codes "log"))
    level ← load_log from_log
    name ← string_at y (codes "name")
    from_forge ← or_bad (yaml.get y (codes "forge"))
    forge ← load_forge from_forge
    from_backends ← or_bad (yaml.get y (codes "backends"))
    backends ← load_all load_backend (yaml.elements from_backends)
    resolve_main (parent_path file_path) record {
      base_dir = [];
      config_version = config_version;
      log_level = level;
      name = name;
      forge = forge;
      backends = backends;
    }
