-- ===== src/Config/Token.antt =====
-- The token of the forge.
use gar_virt.Prelude.{
  ltb, if◌then◌else◌, Bytes, codes, length, length-append, All, All-append_right, ok, ◌<◌, ◌≡◌,
  refl, sym, ap, subst, ◌∙◌, ◌⊎◌, inl, inr, some, [], ◌∷◌, ◌++◌, append-nil, arith,
}
use gar_virt.Text.{string_trim}
use gar_virt.Text.Trim.{In, trim_left_lem, trim_blank, Trimmed, trim-Trimmed}
use gar_virt.Config.{ForgeTokenConfig, System, blanks, trimmed_content, resolve}

-- A string of blanks alone, or one with another character.
pub blank_or_not : (s : Bytes) → All (In blanks) s ⊎ (¬ All (In blanks) s)
blank_or_not s = elim (trim_left_lem s blanks) [
  | inl (all, _) ↦ inl all
  | inr (before, c, rest, split, _, outside, _) ↦ inr (λ all.
      let (member, _) =
        All-append_right (In blanks) before (c ∷ rest) (subst (All (In blanks)) split all) in
      cc)
]

longer :
    (before out tail : Bytes)
    → (length out < length (before ++ (out ++ tail))) ⊎ (before ++ (out ++ tail) ≡ out)
longer [] out [] = inr (append-nil out)
longer [] out (c ∷ tail) = inl (omega (arith, length-append out (c ∷ tail)))
longer (b ∷ before) out tail =
    inl (omega (arith, length-append before (out ++ tail), length-append out tail))

pick :
    (t raw : Bytes)
    → (length t < length raw) ⊎ (raw ≡ t)
    → (if ltb (length t) (length raw) then t else raw) ≡ t
pick t raw (inl shorter) = ground arith
pick t raw (inr e) = ground (arith, e)

pub trimmed_content-trim : (raw : Bytes) → trimmed_content raw ≡ string_trim raw blanks
unfolding trimmed_content
trimmed_content-trim raw = pick (string_trim raw blanks) raw (go (blank_or_not raw))
  where
    go :
        All (In blanks) raw ⊎ (¬ All (In blanks) raw)
        → (length (string_trim raw blanks) < length raw) ⊎ (raw ≡ string_trim raw blanks)
    go (inl all) = inr (sym (trim_blank raw blanks all))
    go (inr other) =
        let (before, tail, split, _, _, _, _) = trim-Trimmed raw blanks other in
        elim (longer before (string_trim raw blanks) tail) [
          | inl less_ ↦ inl (omega (arith, ap length split))
          | inr e ↦ inr (split ∙ e)
        ]

-- The token of a readable file is what `string_trim` makes of its content: without the blanks at both
-- ends if there is another character, and unchanged if the content is blank. The path of the file
-- is the value of the configuration, below the directory of the configuration if it is relative.
pub resolve_file :
    (sys : System) (base_dir : Bytes) (token : ForgeTokenConfig) (raw_content : Bytes)
    → token.source ≡ codes "file"
    → sys.read_file
        (if sys.is_relative token.value then sys.path_join base_dir token.value else token.value)
      ≡ some raw_content
    → (out : Bytes) × (resolve sys base_dir token ≡ ok out)
      × ((All (In blanks) raw_content × (out ≡ raw_content)) ⊎ Trimmed blanks raw_content out)
unfolding resolve
resolve_file sys base_dir token raw_content from_file readable = (
  trimmed_content raw_content,
  rw (from_file, readable) refl,
  elim (blank_or_not raw_content) [
    | inl all ↦ inl (all, trimmed_content-trim raw_content ∙ trim_blank raw_content blanks all)
    | inr other ↦
        inr (rw (trimmed_content-trim raw_content) (trim-Trimmed raw_content blanks other))
  ],
)
