-- ===== src/Text/Trim.antt =====
-- Trimming.
use gar_virt.Prelude.{
  Bool-cases, Bytes, length, get_or, take, All, All-append, All-append_left, All-append_right, ℕ,
  zero, suc, ◌≤◌, ◌<◌, ◌≡◌, refl, sym, ap, subst, ◌∙◌, ◌⊎◌, inl, inr, true, false, List, [], ◌∷◌,
  ◌++◌, append_assoc, append-nil, arith,
}
use gar_virt.Text.{
  contains, trim_left_loop, string_trim_left, trim_right_loop, string_trim_right, string_trim,
  kept_length, string_trim_right_in_place,
}

-- The characters that are trimmed.
abbrev pub In : List ℕ → ℕ → Type 0
In chars c = contains chars c ≡ true

trim_left_loop-lem :
    (chars : List ℕ) (whole s : Bytes)
    → (All (In chars) s × (trim_left_loop chars whole s ≡ whole))
      ⊎ ((before : Bytes) × (c : ℕ) × (rest : Bytes) × (s ≡ before ++ c ∷ rest)
          × All (In chars) before
          × (contains chars c ≡ false)
          × (trim_left_loop chars whole s ≡ c ∷ rest))
unfolding trim_left_loop
trim_left_loop-lem chars whole [] = inl (tt, refl)
trim_left_loop-lem chars whole (c ∷ s) = elim (Bool-cases (contains chars c)) [
  | inr out ↦ inr ([], c, s, refl, tt, out, rw out)
  | inl member ↦ elim (trim_left_loop-lem chars whole s) [
    | inl (all, e) ↦ inl ((member, all), rw member e)
    | inr (before, d, rest, split, all, out, e) ↦
        inr (c ∷ before, d, rest, ap (◌∷◌ c) split, (member, all), out, rw member e)
  ]
]

-- `string_trim_left`: a string with a character outside the set loses what is before its first such
-- character; a string of characters of the set alone comes back whole.
pub trim_left_lem :
    (s : Bytes) (chars : List ℕ)
    → (All (In chars) s × (string_trim_left s chars ≡ s))
      ⊎ ((before : Bytes) × (c : ℕ) × (rest : Bytes) × (s ≡ before ++ c ∷ rest)
          × All (In chars) before
          × (contains chars c ≡ false)
          × (string_trim_left s chars ≡ c ∷ rest))
unfolding string_trim_left
trim_left_lem s chars = trim_left_loop-lem chars s s

-- What is left of a string without the characters of the set at its end.
abbrev pub TrimmedRight : List ℕ → Bytes → Bytes → Type 0
TrimmedRight chars s out =
    (tail : Bytes) × (s ≡ out ++ tail)
    × All (In chars) tail
    × ((out ≡ [])
        ⊎ ((init : Bytes) × (c : ℕ) × (out ≡ init ++ c ∷ []) × (contains chars c ≡ false)))

take-suc : (j : ℕ) (s : Bytes) → j < length s → take (suc j) s ≡ take j s ++ get_or s j 0 ∷ []
take-suc j [] h = absurd (omega arith)
take-suc zero (c ∷ s) h = refl
take-suc (suc j) (c ∷ s) h = ap (◌∷◌ c) (take-suc j s (omega arith))

take-length : (s : Bytes) → take (length s) s ≡ s
take-length [] = refl
take-length (c ∷ s) = ap (◌∷◌ c) (take-length s)

kept_length-TrimmedRight :
    (chars : List ℕ) (s : Bytes) (j : ℕ)
    → j ≤ length s
    → TrimmedRight chars (take j s) (take (kept_length chars s j) s)
unfolding kept_length
kept_length-TrimmedRight chars s zero h = ([], refl, tt, inl refl)
kept_length-TrimmedRight chars s (suc j) h = elim (Bool-cases (contains chars (get_or s j 0))) [
  | inl member ↦
      let (tail, split, all, last) = kept_length-TrimmedRight chars s j (omega arith) in
      rw member (
        tail ++ get_or s j 0 ∷ [],
        take-suc j s h ∙ ap (λ t. t ++ get_or s j 0 ∷ []) split ∙ append_assoc _ tail _,
        All-append (In chars) tail (get_or s j 0 ∷ []) all (member, tt),
        last,
      )
  | inr out ↦
      rw out (
        [],
        sym (append-nil (take (suc j) s)),
        tt,
        inr (take j s, get_or s j 0, take-suc j s h, out),
      )
]

-- The overload of `string_trim_right` that works in place leaves the string without the characters of
-- the set at its end: what it cuts off is of the set, and what is left is empty or ends in a character
-- outside of it.
pub trim_right_in_place-TrimmedRight :
    (s : Bytes) (chars : List ℕ) → TrimmedRight chars s (string_trim_right_in_place s chars)
unfolding string_trim_right_in_place
trim_right_in_place-TrimmedRight s chars =
    subst (λ t. TrimmedRight chars t (take (kept_length chars s (length s)) s)) (take-length s)
      (kept_length-TrimmedRight chars s (length s) (omega arith))

abbrev pub or_whole : Bytes → Bytes → Bytes
or_whole [] s = s
or_whole (c ∷ t) s = c ∷ t

trim_right_loop-lem :
    (chars : List ℕ) (s : Bytes) (j : ℕ)
    → j ≤ length s
    → trim_right_loop chars s j ≡ or_whole (take (kept_length chars s j) s) s
unfolding trim_right_loop kept_length
trim_right_loop-lem chars s zero h = refl
trim_right_loop-lem chars [] (suc j) h = absurd (omega arith)
trim_right_loop-lem chars (c ∷ s) (suc j) h =
    ground (arith, trim_right_loop-lem chars (c ∷ s) j (omega arith))

-- The two overloads of `string_trim_right` agree, but for a string of characters of the set alone,
-- which the one in place empties and the other returns whole.
pub trim_right_overloads :
    (s : Bytes) (chars : List ℕ)
    → string_trim_right s chars ≡ or_whole (string_trim_right_in_place s chars) s
unfolding string_trim_right string_trim_right_in_place
trim_right_overloads s chars = trim_right_loop-lem chars s (length s) (omega arith)

trimmed_empty :
    (s out : Bytes) (chars : List ℕ) → All (In chars) s → TrimmedRight chars s out → out ≡ []
trimmed_empty s out chars all (tail, split, _, inl e) = e
trimmed_empty s out chars all (tail, split, _, inr (init, c, e, outside)) =
    let all_out = All-append_left (In chars) out tail (subst (All (In chars)) split all) in
    let (member, _) =
      All-append_right (In chars) init (c ∷ []) (subst (All (In chars)) e all_out) in
    cc

trim_left-All : (s : Bytes) (chars : List ℕ) → All (In chars) s → string_trim_left s chars ≡ s
trim_left-All s chars all = elim (trim_left_lem s chars) [
  | inl (_, e) ↦ e
  | inr (before, c, rest, split, _, outside, _) ↦
      let (member, _) =
        All-append_right (In chars) before (c ∷ rest) (subst (All (In chars)) split all) in
      cc
]

-- A string of characters of the set alone, such as a blank one, is not trimmed at all.
pub trim_blank : (s : Bytes) (chars : List ℕ) → All (In chars) s → string_trim s chars ≡ s
unfolding string_trim
trim_blank s chars all =
    let emptied =
      trimmed_empty s (string_trim_right_in_place s chars) chars all
        (trim_right_in_place-TrimmedRight s chars) in
    let right : string_trim_right s chars ≡ s =
      trim_right_overloads s chars ∙ ap (λ t. or_whole t s) emptied in
    ap (λ t. string_trim_left t chars) right ∙ trim_left-All s chars all

or_whole-last : (init : Bytes) (c : ℕ) (s : Bytes) → or_whole (init ++ c ∷ []) s ≡ init ++ c ∷ []
or_whole-last [] c s = refl
or_whole-last (d ∷ init) c s = refl

-- What `string_trim` gives for a string with a character outside the set: it is what is left of the
-- string without a part of the set alone in front of it and another one behind, and it begins and
-- ends with a character outside the set.
abbrev pub Trimmed : List ℕ → Bytes → Bytes → Type 0
Trimmed chars s out =
    (before tail : Bytes) × (s ≡ before ++ (out ++ tail))
    × All (In chars) before
    × All (In chars) tail
    × ((d : ℕ) × (rest : Bytes) × (out ≡ d ∷ rest) × (contains chars d ≡ false))
    × ((init : Bytes) × (c : ℕ) × (before ++ out ≡ init ++ c ∷ []) × (contains chars c ≡ false))

trim_splits :
    (s t : Bytes) (chars : List ℕ)
    → TrimmedRight chars s t
    → string_trim_right s chars ≡ or_whole t s
    → ¬ All (In chars) s
    → Trimmed chars s (string_trim s chars)
unfolding string_trim
trim_splits s t chars (tail, split, all, inl e) right some_outside =
    absurd (some_outside (rw (split ∙ ap (λ u. u ++ tail) e) all))
trim_splits s t chars (tail, split, all, inr (init, c, e, outside)) right some_outside =
    let right' : string_trim_right s chars ≡ t =
      right ∙ ap (λ u. or_whole u s) e ∙ or_whole-last init c s ∙ sym e in
    elim (trim_left_lem t chars) [
      | inl (all_t, _) ↦
          let (member, _) =
            All-append_right (In chars) init (c ∷ []) (subst (All (In chars)) e all_t) in
          absurd cc
      | inr (before, d, rest, split_t, all_before, out, result) ↦
          let trimmed : string_trim_left (string_trim_right s chars) chars ≡ d ∷ rest =
            ap (λ u. string_trim_left u chars) right' ∙ result in
          rw trimmed (
            before,
            tail,
            split ∙ ap (λ u. u ++ tail) split_t ∙ append_assoc before (d ∷ rest) tail,
            all_before,
            all,
            (d, rest, refl, out),
            (init, c, sym split_t ∙ e, outside),
          )
    ]

-- A string with a character outside the set loses at both ends all characters of the set: what
-- `string_trim` cuts off in front and behind is of the set, and what it leaves begins and ends
-- with a character outside of it.
pub trim-Trimmed :
    (s : Bytes) (chars : List ℕ) → ¬ All (In chars) s → Trimmed chars s (string_trim s chars)
trim-Trimmed s chars =
    trim_splits s (string_trim_right_in_place s chars) chars
      (trim_right_in_place-TrimmedRight s chars) (trim_right_overloads s chars)
