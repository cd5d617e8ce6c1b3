-- ===== src/Text/Replace.antt =====
-- Replacing a pattern.
use gar_virt.Prelude.{
  Bool-cases, Bytes, length, drop, length-append, ℕ, zero, suc, ◌≤◌, ◌<◌, ◌≡◌, refl, sym, ap, ◌∙◌,
  inl, inr, true, false, Option, none, some, [], ◌∷◌, ◌++◌, arith,
}
use gar_virt.Text.{string_starts_with, search_pattern, replace_loop, string_replace}
use gar_virt.Text.Affix.{starts_with_iff}

replace_loop-empty :
    (fuel c : ℕ) (input replacement : Bytes) → replace_loop fuel (c ∷ input) [] replacement ≡ none
unfolding replace_loop search_pattern string_starts_with
replace_loop-empty zero c input replacement = refl
replace_loop-empty (suc fuel) c input replacement =
    rw (replace_loop-empty fuel c input replacement) refl

-- With an empty pattern and an input that is not empty the loop does not end: no fuel is enough.
pub replace_empty_pattern :
    (fuel c : ℕ) (input replacement : Bytes) → string_replace fuel (c ∷ input) [] replacement ≡ none
unfolding string_replace
replace_empty_pattern = replace_loop-empty

-- An occurrence of the pattern: what is before and behind it.
abbrev pub Occurs : Bytes → Bytes → Bytes → Bytes → Type 0
Occurs pattern s before behind = s ≡ before ++ (pattern ++ behind)

abbrev pub Absent : Bytes → Bytes → Type 0
Absent pattern s = (before behind : Bytes) → ¬ Occurs pattern s before behind

-- No occurrence begins before that one.
abbrev pub First : Bytes → Bytes → Bytes → Type 0
First pattern s before =
    (other behind : Bytes) → Occurs pattern s other behind → length before ≤ length other

abbrev Found : Bytes → Bytes → Option (Bytes × Bytes) → Type 0
Found pattern s none = Absent pattern s
Found pattern s (some (before, behind)) = Occurs pattern s before behind × First pattern s before

drop-append : (xs ys : Bytes) → drop (length xs) (xs ++ ys) ≡ ys
drop-append [] ys = refl
drop-append (x ∷ xs) ys = drop-append xs ys

search-here :
    (p : ℕ) (pattern : Bytes) (c : ℕ) (s : Bytes)
    → string_starts_with (c ∷ s) (p ∷ pattern) ≡ true
    → Found (p ∷ pattern) (c ∷ s) (search_pattern (p ∷ pattern) (c ∷ s))
search-here p pattern c s e =
    let (rest, split) = (starts_with_iff (c ∷ s) (p ∷ pattern)).0 e in
    let behind : drop (length (p ∷ pattern)) (c ∷ s) ≡ rest =
      ap (drop (length (p ∷ pattern))) split ∙ drop-append (p ∷ pattern) rest in
    let found : search_pattern (p ∷ pattern) (c ∷ s)
        ≡ some ([], drop (length (p ∷ pattern)) (c ∷ s)) =
      unfold search_pattern in rw (e, search_pattern) refl in
    rw found (split ∙ ap (λ t. (p ∷ pattern) ++ t) (sym behind), (λ other b o. omega arith))

nowhere : (p : ℕ) (pattern : Bytes) → Absent (p ∷ pattern) []
nowhere p pattern [] behind o = cc
nowhere p pattern (d ∷ before) behind o = cc

search_pattern-Found :
    (p : ℕ) (pattern s : Bytes) → Found (p ∷ pattern) s (search_pattern (p ∷ pattern) s)
search_pattern-Found p pattern [] = unfold search_pattern in nowhere p pattern
search_pattern-Found p pattern (c ∷ s) =
    elim (Bool-cases (string_starts_with (c ∷ s) (p ∷ pattern))) [
      | inl e ↦ search-here p pattern c s e
      | inr e ↦
          search-later e (search_pattern (p ∷ pattern) s) refl (search_pattern-Found p pattern s)
    ]
  where
    not_here :
        string_starts_with (c ∷ s) (p ∷ pattern) ≡ false
        → (behind : Bytes) → ¬ Occurs (p ∷ pattern) (c ∷ s) [] behind
    not_here e behind o = let starts = (starts_with_iff (c ∷ s) (p ∷ pattern)).1 (behind, o) in cc

    absent_later :
        string_starts_with (c ∷ s) (p ∷ pattern) ≡ false
        → Absent (p ∷ pattern) s
        → Absent (p ∷ pattern) (c ∷ s)
    absent_later e absent [] behind o = not_here e behind o
    absent_later e absent (d ∷ other) behind o = absent other behind cc

    first_later :
        string_starts_with (c ∷ s) (p ∷ pattern) ≡ false
        → (before : Bytes) → First (p ∷ pattern) s before
        → First (p ∷ pattern) (c ∷ s) (c ∷ before)
    first_later e before first [] behind o = absurd (not_here e behind o)
    first_later e before first (d ∷ other) behind o =
        let later = first other behind cc in omega arith

    search-later :
        string_starts_with (c ∷ s) (p ∷ pattern) ≡ false
        → (r : Option (Bytes × Bytes)) → search_pattern (p ∷ pattern) s ≡ r
        → Found (p ∷ pattern) s r
        → Found (p ∷ pattern) (c ∷ s) (search_pattern (p ∷ pattern) (c ∷ s))
    search-later e none r absent =
        let found : search_pattern (p ∷ pattern) (c ∷ s) ≡ none =
          unfold search_pattern in rw (e, r, search_pattern) refl in
        rw found (absent_later e absent)
    search-later e (some (before, behind)) r (occurs, first) =
        let found : search_pattern (p ∷ pattern) (c ∷ s) ≡ some (c ∷ before, behind) =
          unfold search_pattern in rw (e, r, search_pattern) refl in
        rw found (ap (◌∷◌ c) occurs, first_later e before first)

-- The input with the occurrences of the pattern replaced, from the left.
pub data Replaced (pattern replacement : Bytes) : Bytes → Bytes → Type 0 where
  unchanged : (s : Bytes) → Absent pattern s → Replaced pattern replacement s s
  replaced :
      (s before behind out : Bytes)
      → Occurs pattern s before behind
      → First pattern s before
      → Replaced pattern replacement behind out
      → Replaced pattern replacement s (before ++ (replacement ++ out))

replace_loop-Replaced :
    (fuel p : ℕ) (pattern left replacement : Bytes)
    → length left < fuel
    → (out : Bytes) × (replace_loop fuel left (p ∷ pattern) replacement ≡ some out)
      × Replaced (p ∷ pattern) replacement left out
replace_loop-Replaced zero p pattern left replacement enough = absurd (omega arith)
replace_loop-Replaced (suc fuel) p pattern left replacement enough =
    go (search_pattern (p ∷ pattern) left) refl (search_pattern-Found p pattern left)
      (λ behind. replace_loop-Replaced fuel p pattern behind replacement)
  where
    go :
        (r : Option (Bytes × Bytes))
        → search_pattern (p ∷ pattern) left ≡ r
        → Found (p ∷ pattern) left r
        → ((behind : Bytes)
            → length behind < fuel
            → (out : Bytes) × (replace_loop fuel behind (p ∷ pattern) replacement ≡ some out)
              × Replaced (p ∷ pattern) replacement behind out)
        → (out : Bytes) × (replace_loop (suc fuel) left (p ∷ pattern) replacement ≡ some out)
          × Replaced (p ∷ pattern) replacement left out
    go none e absent more =
        (left, (unfold replace_loop in rw (e, replace_loop) refl), unchanged left absent)
    go (some (before, behind)) e (occurs, first) more =
        let size = ap length occurs ∙ length-append before ((p ∷ pattern) ++ behind) in
        let size' = length-append pattern behind in
        let (out, result, rest) = more behind (omega (arith, size, size')) in
        (
          before ++ (replacement ++ out),
          (unfold replace_loop in rw (e, result, replace_loop) refl),
          replaced left before behind out occurs first rest,
        )

-- With a pattern that is not empty, fuel above the length of the input is enough, and the result is
-- the input with each occurrence of the pattern replaced that is the first one behind those before it;
-- what is behind the last one has none.
pub replace-Replaced :
    (fuel p : ℕ) (pattern input replacement : Bytes)
    → length input < fuel
    → (out : Bytes) × (string_replace fuel input (p ∷ pattern) replacement ≡ some out)
      × Replaced (p ∷ pattern) replacement input out
unfolding string_replace
replace-Replaced fuel p pattern [] replacement enough = ([], refl, unchanged [] (nowhere p pattern))
replace-Replaced fuel p pattern (c ∷ input) replacement enough =
    replace_loop-Replaced fuel p pattern (c ∷ input) replacement enough
