-- ===== src/Base64/RoundTrip.antt =====
-- `base64_decode` undoes `base64_encode`.
use gar_virt.Prelude.{
  Bytes, length, All, ok, ◌>>=◌, ℕ, ◌+◌, ◌*◌, ◌/◌, ◌%◌, ◌^◌, ◌<◌, ◌≡◌, refl, ap, ◌∙◌, [], ◌∷◌,
  arith,
}
use gar_virt.Prelude.Bits.{and_255}
use gar_virt.Base64.{
  shl32, calc_encoded_length, sextet, base64_encode, decode_groups, base64_decode,
}
use gar_virt.Base64.Groups.{sextet_lem, pack2, pack3, joined2_lem, joined3_lem, joined4_lem}
use gar_virt.Base64.Encoding.{padding, symbols, encode_shape}
use gar_virt.Base64.Scanning.{decode-body}

abbrev pub IsByte : ℕ → Type 0
IsByte b = b < 256

-- The symbols of a word give its bytes back, in arithmetic.
group4 :
    (bx : ℕ) (rest : Bytes)
    → bx < 2 ^ 24
    → decode_groups (sextet 18 bx ∷ sextet 12 bx ∷ sextet 6 bx ∷ sextet 0 bx ∷ rest)
      ≡ (decode_groups rest >>= λ out. ok (bx / 65536 % 256 ∷ bx / 256 % 256 ∷ bx / 1 % 256 ∷ out))
unfolding decode_groups
group4 bx rest h = simp (sextet_lem, joined4_lem bx h, and_255)

group3 :
    (bx : ℕ)
    → bx < 2 ^ 24
    → decode_groups (sextet 18 bx ∷ sextet 12 bx ∷ sextet 6 bx ∷ [])
      ≡ ok (bx / 64 * 64 / 65536 % 256 ∷ bx / 64 * 64 / 256 % 256 ∷ [])
unfolding decode_groups
group3 bx h = simp (sextet_lem, joined3_lem bx h, and_255)

group2 :
    (bx : ℕ)
    → bx < 2 ^ 24
    → decode_groups (sextet 18 bx ∷ sextet 12 bx ∷ []) ≡ ok (bx / 4096 * 4096 / 65536 % 256 ∷ [])
unfolding decode_groups
group2 bx h = simp (sextet_lem, joined2_lem bx h, and_255)

decode-symbols : (bs : Bytes) → All IsByte bs → decode_groups (symbols bs) ≡ ok bs
decode-symbols (a ∷ b ∷ c ∷ rest) (ha, (hb, (hc, h))) = rw (pack3 a b c ha hb hc) (
    group4 (a * 65536 + b * 256 + c) (symbols rest) (omega arith)
    ∙ rw (decode-symbols rest h) (ground arith))
decode-symbols [] h = unfold decode_groups in refl
decode-symbols (a ∷ []) (ha, _) =
    let word : shl32 a 16 ≡ a * 65536 = omega arith in
    rw word (group2 (a * 65536) (omega arith) ∙ ground arith)
decode-symbols (a ∷ b ∷ []) (ha, (hb, _)) =
    rw (pack2 a b ha hb) (group3 (a * 65536 + b * 256) (omega arith) ∙ ground arith)

-- Decoding undoes encoding: every sequence of bytes comes back from its encoding, whatever its length.
pub decode-encode : (bs : Bytes) → All IsByte bs → base64_decode (base64_encode bs) ≡ ok bs
decode-encode bs h =
    let (size, shape, valid, few) = encode_shape bs in
    rw shape (
      decode-body (symbols bs) (padding bs) valid few
        (unfold calc_encoded_length in omega (arith, ap length shape, size))
      ∙ decode-symbols bs h)
