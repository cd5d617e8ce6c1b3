-- ===== src/Base64.antt =====
-- modules/utility/include/utility/encoding/base64.hpp: the tables, `base64_encode` and `base64_decode`.
-- Strings and byte vectors are lists of numbers below 256. The index `i` into the input and the count
-- of what is left of it are one list, the input from `i` on. The padding is part of the input, so no
-- subtraction of lengths goes below zero.
pub mod Groups
pub mod Encoding
pub mod Scanning
pub mod RoundTrip
pub mod Acceptance
mod Examples
use Prim.Native.Nat.{bit_and, bit_or}
use gar_virt.Prelude.{
  ltb, ◌==◌, if◌then◌else◌, Bytes, codes, length, get_or, take, ok, err, Result, ◌>>=◌, ℕ, ◌+◌, ◌-◌,
  ◌*◌, ◌/◌, ◌%◌, ◌^◌, [], ◌∷◌,
}
use gar_virt.Prelude.Bits.{◌<<◌, ◌>>>◌}

abbrev pub alphabet : Bytes
alphabet = codes "ABCDEFGHIJKLMNOPQRSTUVWXYZabcdefghijklmnopqrstuvwxyz0123456789+/"

abbrev pub pad_char : ℕ
pad_char = b'='

abbrev pub decode_able_invalid_char : ℕ
decode_able_invalid_char = 0xff

unfoldable pub decode_table : Bytes
decode_table =
    0xff ∷ 0xff ∷ 0xff ∷ 0xff ∷ 0xff ∷ 0xff ∷ 0xff ∷ 0xff ∷ 0xff ∷ 0xff ∷ 0xff ∷ 0xff ∷ 0xff ∷ 0xff
    ∷ 0xff ∷ 0xff ∷ 0xff ∷ 0xff ∷ 0xff ∷ 0xff ∷ 0xff ∷ 0xff ∷ 0xff ∷ 0xff ∷ 0xff ∷ 0xff ∷ 0xff
    ∷ 0xff ∷ 0xff ∷ 0xff ∷ 0xff ∷ 0xff ∷ 0xff ∷ 0xff ∷ 0xff ∷ 0xff ∷ 0xff ∷ 0xff ∷ 0xff ∷ 0xff
    ∷ 0xff ∷ 0xff ∷ 0xff ∷ 0x3e ∷ 0xff ∷ 0xff ∷ 0xff ∷ 0x3f ∷ 0x34 ∷ 0x35 ∷ 0x36 ∷ 0x37 ∷ 0x38
    ∷ 0x39 ∷ 0x3a ∷ 0x3b ∷ 0x3c ∷ 0x3d ∷ 0xff ∷ 0xff ∷ 0xff ∷ 0xff ∷ 0xff ∷ 0xff ∷ 0xff ∷ 0x00
    ∷ 0x01 ∷ 0x02 ∷ 0x03 ∷ 0x04 ∷ 0x05 ∷ 0x06 ∷ 0x07 ∷ 0x08 ∷ 0x09 ∷ 0x0a ∷ 0x0b ∷ 0x0c ∷ 0x0d
    ∷ 0x0e ∷ 0x0f ∷ 0x10 ∷ 0x11 ∷ 0x12 ∷ 0x13 ∷ 0x14 ∷ 0x15 ∷ 0x16 ∷ 0x17 ∷ 0x18 ∷ 0x19 ∷ 0xff
    ∷ 0xff ∷ 0xff ∷ 0xff ∷ 0xff ∷ 0xff ∷ 0x1a ∷ 0x1b ∷ 0x1c ∷ 0x1d ∷ 0x1e ∷ 0x1f ∷ 0x20 ∷ 0x21
    ∷ 0x22 ∷ 0x23 ∷ 0x24 ∷ 0x25 ∷ 0x26 ∷ 0x27 ∷ 0x28 ∷ 0x29 ∷ 0x2a ∷ 0x2b ∷ 0x2c ∷ 0x2d ∷ 0x2e
    ∷ 0x2f ∷ 0x30 ∷ 0x31 ∷ 0x32 ∷ 0x33 ∷ 0xff ∷ 0xff ∷ 0xff ∷ 0xff ∷ 0xff ∷ 0xff ∷ 0xff ∷ 0xff
    ∷ 0xff ∷ 0xff ∷ 0xff ∷ 0xff ∷ 0xff ∷ 0xff ∷ 0xff ∷ 0xff ∷ 0xff ∷ 0xff ∷ 0xff ∷ 0xff ∷ 0xff
    ∷ 0xff ∷ 0xff ∷ 0xff ∷ 0xff ∷ 0xff ∷ 0xff ∷ 0xff ∷ 0xff ∷ 0xff ∷ 0xff ∷ 0xff ∷ 0xff ∷ 0xff
    ∷ 0xff ∷ 0xff ∷ 0xff ∷ 0xff ∷ 0xff ∷ 0xff ∷ 0xff ∷ 0xff ∷ 0xff ∷ 0xff ∷ 0xff ∷ 0xff ∷ 0xff
    ∷ 0xff ∷ 0xff ∷ 0xff ∷ 0xff ∷ 0xff ∷ 0xff ∷ 0xff ∷ 0xff ∷ 0xff ∷ 0xff ∷ 0xff ∷ 0xff ∷ 0xff
    ∷ 0xff ∷ 0xff ∷ 0xff ∷ 0xff ∷ 0xff ∷ 0xff ∷ 0xff ∷ 0xff ∷ 0xff ∷ 0xff ∷ 0xff ∷ 0xff ∷ 0xff
    ∷ 0xff ∷ 0xff ∷ 0xff ∷ 0xff ∷ 0xff ∷ 0xff ∷ 0xff ∷ 0xff ∷ 0xff ∷ 0xff ∷ 0xff ∷ 0xff ∷ 0xff
    ∷ 0xff ∷ 0xff ∷ 0xff ∷ 0xff ∷ 0xff ∷ 0xff ∷ 0xff ∷ 0xff ∷ 0xff ∷ 0xff ∷ 0xff ∷ 0xff ∷ 0xff
    ∷ 0xff ∷ 0xff ∷ 0xff ∷ 0xff ∷ 0xff ∷ 0xff ∷ 0xff ∷ 0xff ∷ 0xff ∷ 0xff ∷ 0xff ∷ 0xff ∷ 0xff
    ∷ 0xff ∷ 0xff ∷ 0xff ∷ 0xff ∷ 0xff ∷ 0xff ∷ 0xff ∷ 0xff ∷ 0xff ∷ 0xff ∷ 0xff ∷ 0xff ∷ 0xff
    ∷ 0xff ∷ 0xff ∷ 0xff ∷ 0xff ∷ 0xff ∷ 0xff ∷ 0xff ∷ 0xff ∷ []

-- `alphabet[g]` and `decode_table[c]`; the source indexes within the bounds.
unfoldable pub symbol : ℕ → ℕ
symbol g = get_or alphabet g 0

unfoldable pub mapped : ℕ → ℕ
unfolding decode_table
mapped c = get_or decode_table c decode_able_invalid_char

-- `x << k` on a `uint32_t`.
abbrev pub shl32 : ℕ → ℕ → ℕ
shl32 x k = (x << k) % 2 ^ 32

abbrev pub bitmask_6 : ℕ
bitmask_6 = 63

abbrev pub bitmask_8 : ℕ
bitmask_8 = 255

unfoldable pub calc_encoded_length : ℕ → ℕ
calc_encoded_length length = 4 * ((length + 2) / 3)

-- The symbols of three bytes in one word: `g0` to `g3`.
unfoldable pub sextet : ℕ → ℕ → ℕ
sextet k bx = symbol (bit_and (bx >>> k) bitmask_6)

unfoldable pub base64_encode : Bytes → Bytes
base64_encode (a ∷ b ∷ c ∷ rest) =
    let bx = bit_or (bit_or (shl32 a 16) (shl32 b 8)) c in
    sextet 18 bx ∷ sextet 12 bx ∷ sextet 6 bx ∷ sextet 0 bx ∷ base64_encode rest
base64_encode [] = []
base64_encode (a ∷ []) =
    let bx = shl32 a 16 in sextet 18 bx ∷ sextet 12 bx ∷ pad_char ∷ pad_char ∷ []
base64_encode (a ∷ b ∷ []) =
    let bx = bit_or (shl32 a 16) (shl32 b 8) in
    sextet 18 bx ∷ sextet 12 bx ∷ sextet 6 bx ∷ pad_char ∷ []

-- The messages of the exceptions, and `std::unreachable()`.
pub data Base64Error : Type 0 where
  invalid_input_length invalid_input junk_after_padding invalid_padding unreachable : Base64Error

-- `Base64DecodedLengthResult`.
pub record DecodedLength : Type 0 where
  pub decoded_length : ℕ
  pub encoded_length : ℕ
  pub pad_length : ℕ

-- The loop of `calc_decoded_length_impl`: it counts the padding.
unfoldable pub count_padding : Bytes → ℕ → Result Base64Error ℕ
count_padding [] pad_length = ok pad_length
count_padding (c ∷ rest) pad_length =
    let padded = count_padding rest (pad_length + 1) in
    let plain = count_padding rest pad_length in
    if c == pad_char
    then padded
    else if mapped c == decode_able_invalid_char
    then err invalid_input
    else if ltb 0 pad_length
    then err junk_after_padding
    else plain

abbrev pub lengths : Bytes → ℕ → Result Base64Error DecodedLength
lengths input pad_length =
    if ltb 2 pad_length
    then err invalid_padding
    else ok (record {
      decoded_length = length input / 4 * 3 - pad_length;
      encoded_length = length input;
      pad_length = pad_length;
    })

unfoldable pub calc_decoded_length : Bytes → Result Base64Error DecodedLength
unfolding count_padding
calc_decoded_length input =
    if length input % 4 == 0
    then count_padding input 0 >>= lengths input
    else err invalid_input_length

-- One byte of a decoded word.
abbrev pub octet : ℕ → ℕ → ℕ
octet k bx = bit_and (bx >>> k) bitmask_8

-- The loop over groups of four, and the `switch` on what is left.
unfoldable pub decode_groups : Bytes → Result Base64Error Bytes
decode_groups (p ∷ q ∷ r ∷ s ∷ rest) =
    let bx =
      bit_or (bit_or (bit_or (shl32 (mapped p) 18) (shl32 (mapped q) 12)) (shl32 (mapped r) 6))
        (mapped s) in
    decode_groups rest >>= λ out. ok (octet 16 bx ∷ octet 8 bx ∷ octet 0 bx ∷ out)
decode_groups [] = ok []
decode_groups (p ∷ []) = err unreachable
decode_groups (p ∷ q ∷ []) =
    let bx = bit_or (shl32 (mapped p) 18) (shl32 (mapped q) 12) in ok (octet 16 bx ∷ [])
decode_groups (p ∷ q ∷ r ∷ []) =
    let bx = bit_or (bit_or (shl32 (mapped p) 18) (shl32 (mapped q) 12)) (shl32 (mapped r) 6) in
    ok (octet 16 bx ∷ octet 8 bx ∷ [])

unfoldable pub base64_decode : Bytes → Result Base64Error Bytes
base64_decode [] = ok []
base64_decode (c ∷ input) = do
  calc_result ← calc_decoded_length (c ∷ input)
  decode_groups (take (calc_result.encoded_length - calc_result.pad_length) (c ∷ input))
