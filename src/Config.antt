-- ===== src/Config.antt =====
-- modules/app/src/config.cpp: the token of the forge and the level of the log; Config.Loading is the file.
pub mod Token
pub mod Loading
pub mod Accesses
pub mod Meaning
pub mod Templates
pub mod Files
mod Examples
use gar_virt.Prelude.{
  ltb, if◌then◌else◌, Bytes, codes, length, ok, err, Result, ℕ, Bool, Option, none, some, List, [],
  ◌∷◌,
}
use gar_virt.Text.{string_trim, is_same, same_bytes, string_compare_ci}
use gar_virt.Numeric.{CastError, ℤ, cast_to_unsigned}
use gar_virt.Arch.{Arch}

pub data ConfigError : Type 0 where
  invalid_source invalid_log_level unsupported_arch : Bytes → ConfigError
  unreadable : Bytes → ConfigError
  bad_number : CastError → ConfigError
  bad_yaml parse_failed : ConfigError

-- `ForgeTokenConfig` without the resolved token.
pub record ForgeTokenConfig : Type 0 where
  pub source : Bytes
  pub value : Bytes

-- `utility::getenv`, `is_relative` and `operator/` of `std::filesystem::path`, and `read_file`, whose
-- exception is nothing.
pub record System : Type 0 where
  pub getenv : Bytes → Option Bytes
  pub is_relative : Bytes → Bool
  pub path_join : Bytes → Bytes → Bytes
  pub read_file : Bytes → Option Bytes

-- The default of `string_trim`.
abbrev pub blanks : List ℕ
blanks = 9 ∷ 10 ∷ 12 ∷ 13 ∷ 32 ∷ []

abbrev pub or_empty : Option Bytes → Bytes
or_empty none = []
or_empty (some s) = s

-- The content of a token file without the blanks.
unfoldable pub trimmed_content : Bytes → Bytes
trimmed_content raw_content =
    let trimmed = string_trim raw_content blanks in
    if ltb (length trimmed) (length raw_content) then trimmed else raw_content

abbrev pub of_file : Bytes → Option Bytes → Result ConfigError Bytes
of_file path none = err (unreadable path)
of_file path (some raw_content) = ok (trimmed_content raw_content)

-- The resolved token.
unfoldable pub resolve : System → Bytes → ForgeTokenConfig → Result ConfigError Bytes
resolve sys base_dir token =
    let file_path =
      if sys.is_relative token.value then sys.path_join base_dir token.value else token.value in
    if same_bytes token.source (codes "inline")
    then ok token.value
    else if same_bytes token.source (codes "env")
    then ok (or_empty (sys.getenv token.value))
    else if same_bytes token.source (codes "file")
    then of_file file_path (sys.read_file file_path)
    else err (invalid_source token.source)

-- `LogLevel`.
pub data LogLevel : Type 0 where
  none_ error warning info debug : LogLevel

pub record MachineTemplateConfig : Type 0 where
  pub os : Bytes
  pub arch : Arch
  pub temp_dir : Bytes
  pub idle_target : ℕ
  pub max_concurrency : ℕ
  pub runner_exe_path : Bytes
  pub labels : List Bytes
  pub raw_details : Bytes

abbrev pub of_cast : Result CastError ℕ → Result ConfigError ℕ
of_cast (ok m) = ok m
of_cast (err e) = err (bad_number e)

abbrev pub number : ℤ → Result ConfigError ℕ
number n = of_cast (cast_to_unsigned 18446744073709551615 n)

abbrev pub arch_of : Result Bytes Arch → Result ConfigError Arch
arch_of (ok arch) = ok arch
arch_of (err name) = err (unsupported_arch name)

module _ (toupper : ℕ → ℕ) where
  abbrev pub is_level : Bytes → Bytes → Bool
  is_level level_name other = is_same (string_compare_ci toupper level_name other)

  unfoldable pub load_log_level : Bytes → Result ConfigError LogLevel
  load_log_level level_name =
      if is_level level_name (codes "none")
      then ok none_
      else if is_level level_name (codes "error")
      then ok error
      else if is_level level_name (codes "warn")
      then ok warning
      else if is_level level_name (codes "info")
      then ok info
      else if is_level level_name (codes "debug")
      then ok debug
      else err (invalid_log_level level_name)
