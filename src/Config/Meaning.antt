-- ===== src/Config/Meaning.antt =====
-- What the level of the log and the token of the forge stand for, apart from the code that reads them.
use gar_virt.Prelude.{
  if◌then◌else◌, Bytes, codes, All, ok, err, Result, ℕ, ◌≡◌, refl, sym, ap, ◌∙◌, ◌⊎◌, inl, inr,
  Bool, true, false, Option, none, some, [], map,
}
use gar_virt.Text.{string_trim, same_bytes}
use gar_virt.Text.Equality.{same_bytes_sound}
use gar_virt.Text.Trim.{In, trim_blank, Trimmed, trim-Trimmed}
use gar_virt.Arch.{is_name-same}
use gar_virt.Config.{
  invalid_source, invalid_log_level, ConfigError, ForgeTokenConfig, System, blanks, or_empty,
  of_file, resolve, none_, error, warning, info, debug, LogLevel, is_level, load_log_level,
}
use gar_virt.Config.Token.{blank_or_not, trimmed_content-trim}
use gar_virt.Config.Accesses.{ok_injective}

abbrev pub level_text : LogLevel → Bytes
level_text none_ = codes "none"
level_text error = codes "error"
level_text warning = codes "warn"
level_text info = codes "info"
level_text debug = codes "debug"

module _ (toupper : ℕ → ℕ) where
  -- The level's text, in any case.
  pub load_log_level-text :
      (name : Bytes) (level : LogLevel)
      → load_log_level toupper name ≡ ok level
      → map toupper name ≡ map toupper (level_text level)
  unfolding load_log_level
  load_log_level-text name level e =
      go (is_level toupper name (codes "none")) (is_level toupper name (codes "error"))
        (is_level toupper name (codes "warn")) (is_level toupper name (codes "info"))
        (is_level toupper name (codes "debug")) refl refl refl refl refl e
    where
      folded :
          (s : Bytes) (l : LogLevel)
          → is_level toupper name s ≡ true
          → s ≡ level_text l
          → ◌≡◌ {A = Result ConfigError LogLevel} (ok l) (ok level)
          → map toupper name ≡ map toupper (level_text level)
      folded s l h text e' =
          (is_name-same toupper name s).0 h
          ∙ ap (map toupper) (text ∙ ap level_text (ok_injective e'))

      go :
          (a b c d f : Bool)
          → is_level toupper name (codes "none") ≡ a
          → is_level toupper name (codes "error") ≡ b
          → is_level toupper name (codes "warn") ≡ c
          → is_level toupper name (codes "info") ≡ d
          → is_level toupper name (codes "debug") ≡ f
          → (if a
              then ok none_
              else if b
              then ok error
              else if c
              then ok warning
              else if d
              then ok info
              else if f
              then ok debug
              else err (invalid_log_level name))
            ≡ ok level
          → map toupper name ≡ map toupper (level_text level)
      go true b c d f ha hb hc hd hf e' = folded (codes "none") none_ ha refl e'
      go false true c d f ha hb hc hd hf e' = folded (codes "error") error hb refl e'
      go false false true d f ha hb hc hd hf e' = folded (codes "warn") warning hc refl e'
      go false false false true f ha hb hc hd hf e' = folded (codes "info") info hd refl e'
      go false false false false true ha hb hc hd hf e' = folded (codes "debug") debug hf refl e'
      go false false false false false ha hb hc hd hf e' = cc

module _ (sys : System) (base_dir : Bytes) (token : ForgeTokenConfig) where
  -- A path as it is, or below the directory if it is relative.
  abbrev pub Located : Bytes → Type 0
  Located path =
      ((sys.is_relative token.value ≡ true) × (path ≡ sys.path_join base_dir token.value))
      ⊎ ((sys.is_relative token.value ≡ false) × (path ≡ token.value))

  -- The token is written in the configuration; or it is what the environment has under the name, nothing
  -- if it has nothing; or it is the content of a file without the blanks at both ends, and all of
  -- it if it is blank.
  pub data TokenFrom (out : Bytes) : Type 0 where
    from_inline : token.source ≡ codes "inline" → out ≡ token.value → TokenFrom out
    from_env : token.source ≡ codes "env" → sys.getenv token.value ≡ some out → TokenFrom out
    from_unset :
        token.source ≡ codes "env" → sys.getenv token.value ≡ none → out ≡ [] → TokenFrom out
    from_file :
        (path raw_content : Bytes)
        → token.source ≡ codes "file"
        → Located path
        → sys.read_file path ≡ some raw_content
        → (All (In blanks) raw_content × (out ≡ raw_content)) ⊎ Trimmed blanks raw_content out
        → TokenFrom out

  file-TokenFrom :
      (path out : Bytes)
      → token.source ≡ codes "file"
      → Located path
      → (o : Option Bytes) → sys.read_file path ≡ o
      → of_file path o ≡ ok out
      → TokenFrom out
  file-TokenFrom path out source at none e r = cc
  file-TokenFrom path out source at (some raw) e r =
      let trimmed : out ≡ string_trim raw blanks =
        sym (ok_injective r) ∙ trimmed_content-trim raw in
      from_file path raw source at e (elim (blank_or_not raw) [
        | inl all ↦ inl (all, trimmed ∙ trim_blank raw blanks all)
        | inr other ↦ inr (rw trimmed (trim-Trimmed raw blanks other))
      ])

  located-TokenFrom :
      (out : Bytes) (relative : Bool)
      → sys.is_relative token.value ≡ relative
      → token.source ≡ codes "file"
      → (let path = if relative then sys.path_join base_dir token.value else token.value in
          of_file path (sys.read_file path) ≡ ok out)
      → TokenFrom out
  located-TokenFrom out true rel source r = file-TokenFrom _ out source (inl (rel, refl)) _ refl r
  located-TokenFrom out false rel source r = file-TokenFrom _ out source (inr (rel, refl)) _ refl r

  env-TokenFrom :
      (out : Bytes) (o : Option Bytes)
      → sys.getenv token.value ≡ o
      → token.source ≡ codes "env"
      → out ≡ or_empty o
      → TokenFrom out
  env-TokenFrom out none e source r = from_unset source e r
  env-TokenFrom out (some s) e source r = from_env source (e ∙ ap some (sym r))

  pub resolve-TokenFrom : (out : Bytes) → resolve sys base_dir token ≡ ok out → TokenFrom out
  unfolding resolve
  resolve-TokenFrom out e =
      go (same_bytes token.source (codes "inline")) (same_bytes token.source (codes "env"))
        (same_bytes token.source (codes "file")) refl refl refl e
    where
      path : Bytes
      path = if sys.is_relative token.value then sys.path_join base_dir token.value else token.value

      go :
          (a b c : Bool)
          → same_bytes token.source (codes "inline") ≡ a
          → same_bytes token.source (codes "env") ≡ b
          → same_bytes token.source (codes "file") ≡ c
          → (if a
              then ok token.value
              else if b
              then ok (or_empty (sys.getenv token.value))
              else if c
              then of_file path (sys.read_file path)
              else err (invalid_source token.source))
            ≡ ok out
          → TokenFrom out
      go true b c ha hb hc r =
          from_inline (same_bytes_sound token.source (codes "inline") ha) (sym (ok_injective r))
      go false true c ha hb hc r =
          env-TokenFrom out _ refl (same_bytes_sound token.source (codes "env") hb)
            (sym (ok_injective r))
      go false false true ha hb hc r =
          located-TokenFrom out _ refl (same_bytes_sound token.source (codes "file") hc) r
      go false false false ha hb hc r = cc
