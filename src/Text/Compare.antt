-- ===== src/Text/Compare.antt =====
-- Comparison up to case: the order, and the three functions that go by it.
use gar_virt.Prelude.{Bytes, ℕ, ◌≡◌, refl, ◌↔◌, true, [], ◌∷◌, map, arith}
use gar_virt.Text.{
  less, same, greater, Sign, string_compare_ci, string_compare_less_ci, string_equals_ci,
}

abbrev pub flipped : Sign → Sign
flipped less = greater
flipped same = same
flipped greater = less

module _ (toupper : ℕ → ℕ) where
  abbrev compare_ci : Bytes → Bytes → Sign
  compare_ci = string_compare_ci toupper

  compare-same :
      (s t : Bytes) → (string_compare_ci toupper s t ≡ same) ↔ (map toupper s ≡ map toupper t)
  unfolding string_compare_ci
  compare-same [] [] = ((λ e. refl), (λ e. refl))
  compare-same [] (d ∷ t) = ((λ e. cc), (λ e. cc))
  compare-same (c ∷ s) [] = ((λ e. cc), (λ e. cc))
  compare-same (c ∷ s) (d ∷ t) =
      let (there, back) = compare-same s t in
      ((λ e. ground (arith, there)), (λ e. ground (arith, back)))

  compare-flipped :
      (s t : Bytes) → string_compare_ci toupper t s ≡ flipped (string_compare_ci toupper s t)
  unfolding string_compare_ci
  compare-flipped [] [] = refl
  compare-flipped [] (d ∷ t) = refl
  compare-flipped (c ∷ s) [] = refl
  compare-flipped (c ∷ s) (d ∷ t) = ground (arith, compare-flipped s t)

  compare_trans :
      (s t u : Bytes)
      → string_compare_ci toupper s t ≡ less
      → string_compare_ci toupper t u ≡ less
      → string_compare_ci toupper s u ≡ less
  unfolding string_compare_ci
  compare_trans [] [] u e f = cc
  compare_trans s (d ∷ t) [] e f = cc
  compare_trans [] (d ∷ t) (b ∷ u) e f = refl
  compare_trans (c ∷ s) [] u e f = cc
  compare_trans (c ∷ s) (d ∷ t) (b ∷ u) e f = ground (arith, compare_trans s t u)

  -- The three comparisons agree: `string_compare_less_ci` holds exactly where `string_compare_ci` gives
  -- -1, and `string_equals_ci` exactly where it gives 0.
  pub compare_agrees :
      (s t : Bytes)
      → ((string_compare_less_ci toupper s t ≡ true) ↔ (string_compare_ci toupper s t ≡ less))
        × ((string_equals_ci toupper s t ≡ true) ↔ (string_compare_ci toupper s t ≡ same))
  unfolding string_compare_ci string_compare_less_ci string_equals_ci
  compare_agrees [] [] = (((λ e. cc), (λ e. cc)), ((λ e. refl), (λ e. refl)))
  compare_agrees [] (d ∷ t) = (((λ e. refl), (λ e. refl)), ((λ e. cc), (λ e. cc)))
  compare_agrees (c ∷ s) [] = (((λ e. cc), (λ e. cc)), ((λ e. cc), (λ e. cc)))
  compare_agrees (c ∷ s) (d ∷ t) =
      let ((l, l'), (q, q')) = compare_agrees s t in
      (
        ((λ e. ground (arith, l)), (λ e. ground (arith, l'))),
        ((λ e. ground (arith, q)), (λ e. ground (arith, q'))),
      )

  -- `string_compare_ci` is a total order on strings up to case: it gives 0 exactly for strings that are
  -- the same in upper case, it changes its sign with the order of its arguments, and "less" is
  -- transitive.
  pub compare_order :
      (s t u : Bytes)
      → ((string_compare_ci toupper s t ≡ same) ↔ (map toupper s ≡ map toupper t))
        × (string_compare_ci toupper t s ≡ flipped (string_compare_ci toupper s t))
        × (string_compare_ci toupper s t ≡ less
            → string_compare_ci toupper t u ≡ less
            → string_compare_ci toupper s u ≡ less)
  compare_order s t u = (compare-same s t, compare-flipped s t, compare_trans s t u)
