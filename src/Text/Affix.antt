-- ===== src/Text/Affix.antt =====
-- Prefixes and suffixes.
use gar_virt.Prelude.{
  Bytes, length, get_or, length-append, ℕ, zero, suc, ◌+◌, ◌-◌, ◌<◌, ◌≡◌, refl, sym, ap, ap₂, ◌∙◌,
  ◌↔◌, true, some, [], ◌∷◌, ◌++◌, arith, ℕ_discrete,
}
use Prim.Native.Nat.add
use gar_virt.Text.{string_starts_with, ends_loop, string_ends_with}

-- `string_starts_with` holds exactly if the needle is a prefix of the haystack.
pub starts_with_iff :
    (haystack needle : Bytes)
    → (string_starts_with haystack needle ≡ true) ↔ ((rest : Bytes) × (haystack ≡ needle ++ rest))
unfolding string_starts_with
starts_with_iff haystack [] = ((λ e. (haystack, refl)), (λ e. refl))
starts_with_iff [] (d ∷ needle) = ((λ e. cc), (λ (rest, e). cc))
starts_with_iff (c ∷ haystack) (d ∷ needle) =
    let (there, back) = starts_with_iff haystack needle in
    (
      (λ e.
          let (rest, split) = there (ground arith) in
          let first : c ≡ d = ground arith in (rest, ap₂ ◌∷◌ first split)),
      (λ (rest, e).
          let first : c ≡ d = cc in
          let tail : haystack ≡ needle ++ rest = cc in ground (arith, back (rest, tail))),
    )

get_or-append : (xs ys : Bytes) (i : ℕ) → get_or (xs ++ ys) (length xs + i) 0 ≡ get_or ys i 0
get_or-append [] ys i = ap (λ k. get_or ys k 0) (add.zero i)
get_or-append (x ∷ xs) ys i =
    ap (λ k. get_or (x ∷ (xs ++ ys)) k 0) (add.suc (length xs) i) ∙ get_or-append xs ys i

-- Two strings of one length are equal if they are the same at each index.
pointwise :
    (s t : Bytes)
    → length s ≡ length t
    → ((k : ℕ) → k < length s → get_or s k 0 ≡ get_or t k 0)
    → s ≡ t
pointwise [] [] e h = refl
pointwise [] (y ∷ t) e h = absurd (omega arith)
pointwise (x ∷ s) [] e h = absurd (omega arith)
pointwise (x ∷ s) (y ∷ t) e h =
    ap₂ ◌∷◌ (h zero (omega arith)) (pointwise s t (omega arith) (λ k lt. h (suc k) (omega arith)))

-- The loop compares the last `j` characters of the haystack with those of the needle.
module _ (h n t : Bytes) (p : ℕ) (tail : (k : ℕ) → get_or h (p + suc k) 0 ≡ get_or t k 0) where
  ends_loop_sound :
      (d j : ℕ)
      → ends_loop h (d ∷ n) (p + j) j ≡ true
      → (k : ℕ) → k < j
      → get_or t k 0 ≡ get_or n k 0
  unfolding ends_loop
  ends_loop_sound d zero e k lt = absurd (omega arith)
  ends_loop_sound d (suc j) e k lt =
      let down : p + suc j - 1 ≡ p + j = omega arith in
      let e' = rw down at e in
      let here : get_or h (p + suc j) 0 ≡ get_or n j 0 = ground arith in
      elim (ℕ_discrete k j) [
        | yes at_j ↦ rw at_j (sym (tail j) ∙ here)
        | no below ↦ ends_loop_sound d j (ground arith) k (omega arith)
      ]

  ends_loop_complete :
      (d j : ℕ)
      → ((k : ℕ) → k < j → get_or t k 0 ≡ get_or n k 0)
      → ends_loop h (d ∷ n) (p + j) j ≡ true
  unfolding ends_loop
  ends_loop_complete d zero e = refl
  ends_loop_complete d (suc j) e =
      let down : p + suc j - 1 ≡ p + j = omega arith in
      let rest = ends_loop_complete d j (λ k lt. e k (omega arith)) in
      rw down (ground (arith, rest, tail j, e j (omega arith)))

split_at :
    (p : ℕ) (s : Bytes)
    → p < length s
    → (before : Bytes) × (x : ℕ) × (behind : Bytes) × (s ≡ before ++ x ∷ behind)
      × (length before ≡ p)
split_at p [] h = absurd (omega arith)
split_at zero (x ∷ s) h = ([], x, s, refl, refl)
split_at (suc p) (x ∷ s) h =
    let (before, y, behind, e, n) = split_at p s (omega arith) in
    (x ∷ before, y, behind, ap (◌∷◌ x) e, ap suc n)

tail_of :
    (before : Bytes) (x : ℕ) (behind : Bytes) (k : ℕ)
    → get_or (before ++ x ∷ behind) (length before + suc k) 0 ≡ get_or behind k 0
tail_of before x behind k = get_or-append before (x ∷ behind) (suc k)

-- With room for the needle the answer is that of the loop.
ends_with-loop :
    (haystack : Bytes) (d : ℕ) (needle : Bytes)
    → length needle < length haystack
    → string_ends_with haystack (d ∷ needle)
      ≡ some (ends_loop haystack (d ∷ needle) (length haystack - 1) (length needle))
unfolding string_ends_with
ends_with-loop haystack d needle h = ground arith

ends_at :
    (before : Bytes) (x d : ℕ) (behind needle : Bytes)
    → length behind ≡ length needle
    → (string_ends_with (before ++ x ∷ behind) (d ∷ needle) ≡ some true) ↔ (behind ≡ needle)
ends_at before x d behind needle same_length =
    let h = before ++ x ∷ behind in
    let size = length-append before (x ∷ behind) in
    let last : length h - 1 ≡ length before + length needle = omega (arith, size) in
    let answer = ends_with-loop h d needle (omega (arith, size)) in
    let tail = tail_of before x behind in
    (
      (λ e.
          let looped : ends_loop h (d ∷ needle) (length h - 1) (length needle) ≡ true = cc answer in
          pointwise behind needle same_length (λ k lt.
            ends_loop_sound h needle behind (length before) tail d (length needle)
              (rw last at looped) k (omega arith))),
      (λ e.
          answer
          ∙ ap some (
              rw last (
                ends_loop_complete h needle behind (length before) tail d (length needle)
                  (λ k lt. ap (λ s. get_or s k 0) e)))),
    )

-- `string_ends_with` with a needle that is not empty holds exactly if the haystack ends in the needle
-- with its first character replaced by any character: the loop stops before it compares that one.
pub ends_with_iff :
    (haystack : Bytes) (d : ℕ) (needle : Bytes)
    → (string_ends_with haystack (d ∷ needle) ≡ some true)
      ↔ ((before : Bytes) × (x : ℕ) × (haystack ≡ before ++ x ∷ needle))
ends_with_iff haystack d needle = (there, back)
  where
    back :
        ((before : Bytes) × (x : ℕ) × (haystack ≡ before ++ x ∷ needle))
        → string_ends_with haystack (d ∷ needle) ≡ some true
    back (before, x, e) = rw e ((ends_at before x d needle needle refl).1 refl)

    there :
        string_ends_with haystack (d ∷ needle) ≡ some true
        → (before : Bytes) × (x : ℕ) × (haystack ≡ before ++ x ∷ needle)
    there e =
        let room : length needle < length haystack = unfold string_ends_with in ground arith in
        let (before, x, behind, split, n) =
          split_at (length haystack - 1 - length needle) haystack (omega arith) in
        let total = length-append before (x ∷ behind) in
        let fits : length behind ≡ length needle = omega (arith, ap length split, total) in
        let same_tail = (ends_at before x d behind needle fits).0 (rw split at e) in
        (before, x, split ∙ ap (λ s. before ++ x ∷ s) same_tail)
