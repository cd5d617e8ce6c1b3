-- ===== src/Base64/Encoding.antt =====
-- The output of `base64_encode`: symbols, and the padding behind them.
use Prim.Native.Nat.{bit_or}
use gar_virt.Prelude.Bits.{and_63}
use gar_virt.Prelude.{
  Bytes, length, length-append, All, ℕ, zero, suc, ◌+◌, ◌*◌, ◌/◌, ◌%◌, ◌^◌, ◌≤◌, ◌≡◌, refl, ap, [],
  ◌∷◌, ◌++◌, arith,
}
use gar_virt.Base64.{pad_char, shl32, calc_encoded_length, sextet, base64_encode}
use gar_virt.Base64.Groups.{IsSymbol}

abbrev pub pads : ℕ → Bytes
pads zero = []
pads (suc n) = pad_char ∷ pads n

-- How many padding characters so many bytes need, by their remainder modulo 3.
abbrev pub padding : Bytes → ℕ
padding (a ∷ b ∷ c ∷ rest) = padding rest
padding [] = 0
padding (a ∷ []) = 2
padding (a ∷ b ∷ []) = 1

abbrev pub symbols : Bytes → Bytes
symbols (a ∷ b ∷ c ∷ rest) =
    let bx = bit_or (bit_or (shl32 a 16) (shl32 b 8)) c in
    sextet 18 bx ∷ sextet 12 bx ∷ sextet 6 bx ∷ sextet 0 bx ∷ symbols rest
symbols [] = []
symbols (a ∷ []) = let bx = shl32 a 16 in sextet 18 bx ∷ sextet 12 bx ∷ []
symbols (a ∷ b ∷ []) =
    let bx = bit_or (shl32 a 16) (shl32 b 8) in sextet 18 bx ∷ sextet 12 bx ∷ sextet 6 bx ∷ []

pub encode-symbols : (bs : Bytes) → base64_encode bs ≡ symbols bs ++ pads (padding bs)
unfolding base64_encode
encode-symbols (a ∷ b ∷ c ∷ rest) = cc (encode-symbols rest)
encode-symbols [] = refl
encode-symbols (a ∷ []) = refl
encode-symbols (a ∷ b ∷ []) = refl

sextet-IsSymbol : (k bx : ℕ) → IsSymbol (sextet k bx)
unfolding sextet
sextet-IsSymbol k bx = (bx / 2 ^ k % 64, omega arith, rw and_63)

pub symbols-IsSymbol : (bs : Bytes) → All IsSymbol (symbols bs)
symbols-IsSymbol (a ∷ b ∷ c ∷ rest) = (
  sextet-IsSymbol 18 _,
  (sextet-IsSymbol 12 _, (sextet-IsSymbol 6 _, (sextet-IsSymbol 0 _, symbols-IsSymbol rest))),
)
symbols-IsSymbol [] = tt
symbols-IsSymbol (a ∷ []) = (sextet-IsSymbol 18 _, (sextet-IsSymbol 12 _, tt))
symbols-IsSymbol (a ∷ b ∷ []) =
    (sextet-IsSymbol 18 _, (sextet-IsSymbol 12 _, (sextet-IsSymbol 6 _, tt)))

pub length-symbols : (bs : Bytes) → length (symbols bs) + padding bs ≡ 4 * ((length bs + 2) / 3)
length-symbols (a ∷ b ∷ c ∷ rest) = omega (arith, length-symbols rest)
length-symbols [] = omega arith
length-symbols (a ∷ []) = omega arith
length-symbols (a ∷ b ∷ []) = omega arith

pub padding-le : (bs : Bytes) → padding bs ≤ 2
padding-le (a ∷ b ∷ c ∷ rest) = padding-le rest
padding-le [] = omega arith
padding-le (a ∷ []) = omega arith
padding-le (a ∷ b ∷ []) = omega arith

pub length-pads : (n : ℕ) → length (pads n) ≡ n
length-pads zero = refl
length-pads (suc n) = omega (arith, length-pads n)

-- The output has the length that `base64_encode` reserves for it; it is symbols of the alphabet with at
-- most two padding characters behind them.
pub encode_shape :
    (bs : Bytes)
    → (length (base64_encode bs) ≡ calc_encoded_length (length bs))
      × (base64_encode bs ≡ symbols bs ++ pads (padding bs))
      × All IsSymbol (symbols bs)
      × (padding bs ≤ 2)
unfolding calc_encoded_length
encode_shape bs = (
  omega (
    arith,
    ap length (encode-symbols bs),
    length-append (symbols bs) (pads (padding bs)),
    length-pads (padding bs),
    length-symbols bs,
  ),
  encode-symbols bs,
  symbols-IsSymbol bs,
  padding-le bs,
)
