-- ===== src/Base64/Acceptance.antt =====
-- Which inputs `base64_decode` accepts, and what it makes of them.
use gar_virt.Prelude.{
  Bytes, length, length-append, All, ok, err, Result, ◌>>=◌, bind-eq-ok, Result-cases, ℕ, ◌+◌, ◌-◌,
  ◌*◌, ◌/◌, ◌%◌, ◌≤◌, ◌≡◌, refl, ap, ◌∙◌, ◌≢◌, ◌↔◌, inl, inr, [], ◌∷◌, ◌++◌, arith,
}
use gar_virt.Base64.{
  unreachable, Base64Error, count_padding, calc_decoded_length, decode_groups, base64_decode,
}
use gar_virt.Base64.Groups.{IsSymbol}
use gar_virt.Base64.Encoding.{pads, length-pads}
use gar_virt.Base64.Scanning.{calc-body, decode-body, calc_sound}

-- Base64 text: symbols, at most two padding characters, a multiple of four together.
abbrev pub IsBase64 : Bytes → Type 0
IsBase64 s =
    (body : Bytes) × (k : ℕ) × (s ≡ body ++ pads k)
    × All IsSymbol body
    × (k ≤ 2)
    × (length s % 4 ≡ 0)

abbrev Gives : ℕ → Result Base64Error Bytes → Type 0
Gives n m = (out : Bytes) × (m ≡ ok out) × (length out ≡ n)

Gives-three :
    (x y z n n' : ℕ) (m : Result Base64Error Bytes)
    → n' ≡ n + 3
    → Gives n m
    → Gives n' (m >>= λ out. ok (x ∷ y ∷ z ∷ out))
Gives-three x y z n n' m e (out, done, size) = (x ∷ y ∷ z ∷ out, rw done, omega arith)

-- The groups of a body give a result unless one symbol is left over.
decode_groups_total : (s : Bytes) → length s % 4 ≢ 1 → Gives (length s * 3 / 4) (decode_groups s)
unfolding decode_groups
decode_groups_total (p ∷ q ∷ r ∷ s ∷ rest) h =
    Gives-three _ _ _ (length rest * 3 / 4) _ (decode_groups rest) (omega arith)
      (decode_groups_total rest (λ one. h (omega (arith, one))))
decode_groups_total [] h = ([], refl, omega arith)
decode_groups_total (p ∷ []) h = absurd (h (omega arith))
decode_groups_total (p ∷ q ∷ []) h = (_, refl, omega arith)
decode_groups_total (p ∷ q ∷ r ∷ []) h = (_, refl, omega arith)

body_lengths :
    (body : Bytes) (k : ℕ)
    → k ≤ 2
    → length (body ++ pads k) % 4 ≡ 0
    → (length body % 4 ≢ 1) × (length body * 3 / 4 ≡ length (body ++ pads k) / 4 * 3 - k)
body_lengths body k few size = omega (arith, length-append body (pads k), length-pads k)

-- Text of symbols of the alphabet with at most two padding characters behind them, of a length that is
-- a multiple of four: it is decoded with no error, and the output is as long as
-- `calc_decoded_length_impl` says, three bytes for each four characters less one for each padding.
pub decode_complete :
    (body : Bytes) (k : ℕ)
    → All IsSymbol body
    → k ≤ 2
    → length (body ++ pads k) % 4 ≡ 0
    → (out : Bytes) × (base64_decode (body ++ pads k) ≡ ok out)
      × (calc_decoded_length (body ++ pads k)
          ≡ ok (record {
            decoded_length = length out;
            encoded_length = length (body ++ pads k);
            pad_length = k;
          }))
      × (length out ≡ length (body ++ pads k) / 4 * 3 - k)
decode_complete body k valid few size =
    let (no_rest, count) = body_lengths body k few size in
    let (out, e, n) = decode_groups_total body no_rest in
    (
      out,
      decode-body body k valid few size ∙ e,
      rw (n, count) (calc-body body k valid few size),
      n ∙ count,
    )

decode_sound : (s out : Bytes) → base64_decode s ≡ ok out → IsBase64 s
unfolding base64_decode
decode_sound [] out e = ([], 0, refl, tt, omega arith, omega arith)
decode_sound (c ∷ s) out e =
    let (r, accepted, _) = bind-eq-ok (calc_decoded_length (c ∷ s)) _ e in
    calc_sound (c ∷ s) r accepted

-- `base64_decode` gives a result exactly for base64 text: symbols of the alphabet with at most two
-- padding characters behind them, of a length that is a multiple of four.
pub decode_accepts : (s : Bytes) → ((out : Bytes) × (base64_decode s ≡ ok out)) ↔ IsBase64 s
decode_accepts s = (λ (out, e). decode_sound s out e, back)
  where
    back : IsBase64 s → (out : Bytes) × (base64_decode s ≡ ok out)
    back (body, k, split, valid, few, size) =
        let (out, e, _, _) = decode_complete body k valid few (rw split at size) in
        (out, ap base64_decode split ∙ e)

count_padding_reaches : (s : Bytes) (n : ℕ) → count_padding s n ≢ err unreachable
unfolding count_padding
count_padding_reaches [] n e = cc
count_padding_reaches (c ∷ s) n e =
    ground (arith, count_padding_reaches s (n + 1), count_padding_reaches s n)

calc_reaches : (s : Bytes) → calc_decoded_length s ≢ err unreachable
unfolding calc_decoded_length
calc_reaches s e = elim (Result-cases (count_padding s 0)) [
  | inl (k, counted) ↦ ground arith
  | inr (x, failed) ↦ ground (arith, count_padding_reaches s 0)
]

-- No input takes `base64_decode` to the end of its last `switch`, which the source marks unreachable.
pub decode_reaches : (s : Bytes) → base64_decode s ≢ err unreachable
unfolding base64_decode
decode_reaches [] e = cc
decode_reaches (c ∷ s) e = elim (Result-cases (calc_decoded_length (c ∷ s))) [
  | inl (r, accepted) ↦
      let (out, done) = (decode_accepts (c ∷ s)).1 (calc_sound (c ∷ s) r accepted) in cc
  | inr (x, failed) ↦ calc_reaches (c ∷ s) (rw failed (ground arith))
]
