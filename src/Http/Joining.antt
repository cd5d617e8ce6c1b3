-- ===== src/Http/Joining.antt =====
-- Joining of paths.
use gar_virt.Prelude.{
  Bool-cases, Bytes, drop, ◌≡◌, refl, ap, ◌∙◌, ◌⊎◌, inl, inr, true, [], ◌∷◌, ◌++◌, append_assoc,
  arith,
}
use gar_virt.Http.{ends_with_slash, starts_with_slash, http_path_join}

-- A path with or without one slash at its end, or at its front.
abbrev pub SlashBehind : Bytes → Bytes → Type 0
SlashBehind first a = (first ≡ a) ⊎ (first ≡ a ++ 47 ∷ [])

abbrev pub SlashBefore : Bytes → Bytes → Type 0
SlashBefore second b = (second ≡ b) ⊎ (second ≡ 47 ∷ b)

last_slash : (first : Bytes) → ends_with_slash first ≡ true → (a : Bytes) × (first ≡ a ++ 47 ∷ [])
last_slash [] e = cc
last_slash (c ∷ []) e = ([], (let slash : c ≡ 47 = ground arith in ap (λ d. d ∷ []) slash))
last_slash (c ∷ d ∷ s) e = let (a, split) = last_slash (d ∷ s) e in (c ∷ a, ap (◌∷◌ c) split)

first_slash : (second : Bytes) → starts_with_slash second ≡ true → second ≡ 47 ∷ drop 1 second
first_slash [] e = cc
first_slash (c ∷ s) e = let slash : c ≡ 47 = ground arith in ap (λ d. d ∷ s) slash

-- `http_path_join` leaves just one slash between the two paths, of those at the end of the first and at
-- the front of the second.
pub http_path_join_lem :
    (first second : Bytes)
    → (a b : Bytes) × SlashBehind first a
      × SlashBefore second b
      × (http_path_join first second ≡ a ++ 47 ∷ b)
unfolding http_path_join
http_path_join_lem first second = elim (Bool-cases (ends_with_slash first)) [
  | inl behind ↦ elim (Bool-cases (starts_with_slash second)) [
    | inl before ↦
        let (a, split) = last_slash first behind in
        (
          a,
          drop 1 second,
          inr split,
          inr (first_slash second before),
          rw (behind, before)
              (ap (λ s. s ++ drop 1 second) split ∙ append_assoc a (47 ∷ []) (drop 1 second)),
        )
    | inr none_ ↦
        let (a, split) = last_slash first behind in
        (
          a,
          second,
          inr split,
          inl refl,
          rw (behind, none_) (ap (λ s. s ++ second) split ∙ append_assoc a (47 ∷ []) second),
        )
  ]
  | inr none_ ↦ elim (Bool-cases (starts_with_slash second)) [
    | inl before ↦ (
      first,
      drop 1 second,
      inl refl,
      inr (first_slash second before),
      rw (none_, before) (ap (λ s. first ++ s) (first_slash second before)),
    )
    | inr none__ ↦ (first, second, inl refl, inl refl, rw (none_, none__) refl)
  ]
]
