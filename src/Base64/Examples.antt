-- ===== src/Base64/Examples.antt =====
-- Texts and their base64, from modules/utility/test/encoding.
use gar_virt.Prelude.{Bytes, codes, length, All, ok, err, ◌≤◌, ◌≡◌, refl, ◌↔◌, ◌++◌, arith}
use gar_virt.Base64.{
  symbol, mapped, calc_encoded_length, sextet, base64_encode, invalid_input_length, invalid_input,
  junk_after_padding, invalid_padding, calc_decoded_length, decode_groups, base64_decode,
}
use gar_virt.Base64.Groups.{IsSymbol}
use gar_virt.Base64.Encoding.{pads, padding, symbols, encode_shape}
use gar_virt.Base64.RoundTrip.{decode-encode}
use gar_virt.Base64.Acceptance.{IsBase64, decode_accepts}

foob : base64_encode (codes "foob") ≡ codes "Zm9vYg=="
unfolding base64_encode sextet symbol
foob = refl

foob_back : base64_decode (codes "Zm9vYg==") ≡ ok (codes "foob")
unfolding base64_decode calc_decoded_length decode_groups mapped
foob_back = refl

bad_inputs :
    (base64_decode (codes "abc") ≡ err invalid_input_length)
    × (base64_decode (codes "ab-d") ≡ err invalid_input)
    × (base64_decode (codes "a=bc") ≡ err junk_after_padding)
    × (base64_decode (codes "a===") ≡ err invalid_padding)
unfolding base64_decode calc_decoded_length decode_groups mapped
bad_inputs = (refl, refl, refl, refl)

encode_shape_example :
    (length (base64_encode (codes "foob")) ≡ calc_encoded_length (length (codes "foob")))
    × (base64_encode (codes "foob") ≡ symbols (codes "foob") ++ pads (padding (codes "foob")))
    × All IsSymbol (symbols (codes "foob"))
    × (padding (codes "foob") ≤ 2)
encode_shape_example = encode_shape (codes "foob")

decode-encode_example : base64_decode (base64_encode (codes "foob")) ≡ ok (codes "foob")
decode-encode_example = decode-encode (codes "foob") (omega arith)

abbrev body : Bytes
body = symbols (codes "foob")

decode_accepts_example :
    ((out : Bytes) × (base64_decode (codes "a===") ≡ ok out)) ↔ IsBase64 (codes "a===")
decode_accepts_example = decode_accepts (codes "a===")
