-- ===== src/Base64/Scanning.antt =====
-- The first pass of `base64_decode`: which inputs `calc_decoded_length_impl` accepts.
use gar_virt.Prelude.{
  ◌==◌, Bool-cases, Bytes, length, take, length-append, All, ok, ◌>>=◌, bind-eq-ok, ℕ, zero, suc,
  ◌+◌, ◌-◌, ◌*◌, ◌/◌, ◌%◌, ◌≤◌, ◌<◌, ◌≡◌, refl, sym, ap, ap₂, subst, ◌∙◌, inl, inr, false, [], ◌∷◌,
  ◌++◌, arith,
}
use gar_virt.Base64.{
  pad_char, decode_able_invalid_char, mapped, DecodedLength, count_padding, lengths,
  calc_decoded_length, decode_groups, base64_decode,
}
use gar_virt.Base64.Groups.{symbol_lem, IsSymbol, mapped-IsSymbol}
use gar_virt.Base64.Encoding.{pads, length-pads}

count_padding-symbol :
    (c : ℕ) (rest : Bytes) → IsSymbol c → count_padding (c ∷ rest) 0 ≡ count_padding rest 0
unfolding count_padding
count_padding-symbol c rest (g, h, e) = let (_, not_pad, valid) = symbol_lem g h in ground arith

pub count_padding-symbols :
    (body rest : Bytes) → All IsSymbol body → count_padding (body ++ rest) 0 ≡ count_padding rest 0
count_padding-symbols [] rest _ = refl
count_padding-symbols (c ∷ body) rest (h, hs) =
    count_padding-symbol c (body ++ rest) h ∙ count_padding-symbols body rest hs

pub count_padding-pads : (k n : ℕ) → count_padding (pads k) n ≡ ok (n + k)
unfolding count_padding
count_padding-pads zero n = ap ok (omega arith)
count_padding-pads (suc k) n = count_padding-pads k (n + 1) ∙ ap ok (omega arith)

-- Behind a padding character there are only padding characters.
count_padding_tail :
    (s : Bytes) (n k : ℕ) → 0 < n → count_padding s n ≡ ok k → (n ≤ k) × (s ≡ pads (k - n))
unfolding count_padding
count_padding_tail [] n k h e =
    let same : n ≡ k = ground arith in
    let none_left : k - n ≡ 0 = omega arith in (omega arith, rw none_left)
count_padding_tail (c ∷ s) n k h e =
    let padded : (c ≡ pad_char) × (count_padding s (n + 1) ≡ ok k) = (ground arith, ground arith) in
    let (more, rest) = count_padding_tail s (n + 1) k (omega arith) padded.1 in
    let one_more : k - n ≡ suc (k - (n + 1)) = omega arith in
    (omega arith, rw one_more (ap₂ ◌∷◌ padded.0 rest))

-- An input that the pass accepts is symbols with padding behind them, as much as the pass counts.
pub count_padding_sound :
    (s : Bytes) (k : ℕ)
    → count_padding s 0 ≡ ok k
    → (body : Bytes) × (s ≡ body ++ pads k) × All IsSymbol body
unfolding count_padding
count_padding_sound [] k e = let empty : k ≡ 0 = ground arith in ([], rw empty, tt)
count_padding_sound (c ∷ s) k e = elim (Bool-cases (c == pad_char)) [
  | inl pad ↦
      let first : (c ≡ pad_char) × (count_padding s 1 ≡ ok k) = (ground arith, ground arith) in
      let (more, rest) = count_padding_tail s 1 k (omega arith) first.1 in
      let one_more : k ≡ suc (k - 1) = omega arith in
      ([], subst (λ n. c ∷ s ≡ pads n) (sym one_more) (ap₂ ◌∷◌ first.0 rest), tt)
  | inr other ↦
      let plain : (mapped c == decode_able_invalid_char ≡ false) × (count_padding s 0 ≡ ok k) =
        (ground arith, ground arith) in
      let (body, split, valid) = count_padding_sound s k plain.1 in
      (c ∷ body, ap (◌∷◌ c) split, (mapped-IsSymbol c plain.0, valid))
]

-- The empty input needs no case of its own.
decode_lem :
    (s : Bytes)
    → base64_decode s
      ≡ (calc_decoded_length s >>= λ r. decode_groups (take (r.encoded_length - r.pad_length) s))
unfolding base64_decode calc_decoded_length decode_groups
decode_lem [] = refl
decode_lem (c ∷ s) = refl

take-append : (n : ℕ) (xs ys : Bytes) → n ≡ length xs → take n (xs ++ ys) ≡ xs
take-append zero [] ys e = refl
take-append zero (x ∷ xs) ys e = absurd (omega arith)
take-append (suc n) [] ys e = absurd (omega arith)
take-append (suc n) (x ∷ xs) ys e = ap (◌∷◌ x) (take-append n xs ys (omega arith))

pub calc-body :
    (body : Bytes) (k : ℕ)
    → All IsSymbol body
    → k ≤ 2
    → length (body ++ pads k) % 4 ≡ 0
    → calc_decoded_length (body ++ pads k)
      ≡ ok (record {
        decoded_length = length (body ++ pads k) / 4 * 3 - k;
        encoded_length = length (body ++ pads k);
        pad_length = k;
      })
unfolding calc_decoded_length
calc-body body k valid few size =
    simp (count_padding-symbols body (pads k) valid, count_padding-pads k 0) (ground arith)

-- A well-formed input is decoded by its groups, without the padding.
pub decode-body :
    (body : Bytes) (k : ℕ)
    → All IsSymbol body
    → k ≤ 2
    → length (body ++ pads k) % 4 ≡ 0
    → base64_decode (body ++ pads k) ≡ decode_groups body
decode-body body k valid few size =
    decode_lem (body ++ pads k)
    ∙ rw (calc-body body k valid few size) (
        ap decode_groups (
          take-append (length (body ++ pads k) - k) body (pads k)
            (omega (arith, length-append body (pads k), length-pads k))))

pub calc_sound :
    (s : Bytes) (r : DecodedLength)
    → calc_decoded_length s ≡ ok r
    → (body : Bytes) × (k : ℕ) × (s ≡ body ++ pads k)
      × All IsSymbol body
      × (k ≤ 2)
      × (length s % 4 ≡ 0)
unfolding calc_decoded_length
calc_sound s r e =
    let size : length s % 4 ≡ 0 = ground arith in
    let inner : (count_padding s 0 >>= lengths s) ≡ ok r = ground arith in
    let (k, counted, few) = bind-eq-ok (count_padding s 0) (lengths s) inner in
    let (body, split, valid) = count_padding_sound s k counted in
    (body, k, split, valid, ground arith, size)
