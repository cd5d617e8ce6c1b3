-- ===== src/Prelude/Bits.antt =====
-- Facts about `&`, `|` and shifts at variables, from the digit recursion that the native operations
-- stand for.
use Prim.Native.Nat.{
  ℕ, zero, suc, ◌+◌, ◌*◌, ◌/◌, ◌%◌, ◌^◌, ◌≤◌, ◌<◌, min, max, bit_and, bit_or, digits,
  bit_and-bitwise, bit_or-bitwise,
}
use mathlib.Core.Path.{◌≡◌, refl, ap}
use native.Mathlib.Nat.{pow-suc}
use native.Mathlib.Omega.{arith}

-- `x << k` and `x >> k`.
infixl 45 ◌<<◌ ◌>>>◌
abbrev pub ◌<<◌ : ℕ → ℕ → ℕ
x << k = x * 2 ^ k

abbrev pub ◌>>>◌ : ℕ → ℕ → ℕ
x >>> k = x / 2 ^ k

module _ (last : ℕ → ℕ) (op : ℕ → ℕ → ℕ) where
  -- More rounds than the first number needs change nothing.
  digits_rounds : (n m a b : ℕ) → a ≤ n → a ≤ m → digits last op n a b ≡ digits last op m a b
  digits_rounds zero zero a b p q = refl
  digits_rounds zero (suc m) zero b p q = refl
  digits_rounds zero (suc m) (suc a) b p q = absurd (omega arith)
  digits_rounds (suc n) zero zero b p q = refl
  digits_rounds (suc n) zero (suc a) b p q = absurd (omega arith)
  digits_rounds (suc n) (suc m) zero b p q = refl
  digits_rounds (suc n) (suc m) (suc a) b p q =
      omega (arith, digits_rounds n m (suc a / 2) (b / 2) (omega arith) (omega arith))

or_zero_left : (b : ℕ) → bit_or 0 b ≡ b
or_zero_left b = bit_or-bitwise 0 b

-- The lowest digit of `|`, and of `&`.
or_step : (a b : ℕ) → bit_or a b ≡ bit_or (a / 2) (b / 2) * 2 + max (a % 2) (b % 2)
or_step zero b = omega (arith, or_zero_left b, or_zero_left (b / 2))
or_step (suc a) b = omega (
  arith,
  bit_or-bitwise (suc a) b,
  bit_or-bitwise (suc a / 2) (b / 2),
  digits_rounds (λ b. b) max a (suc a / 2) (suc a / 2) (b / 2) (omega arith) (omega arith),
)

and_zero_left : (b : ℕ) → bit_and 0 b ≡ 0
and_zero_left b = bit_and-bitwise 0 b

and_step : (a b : ℕ) → bit_and a b ≡ bit_and (a / 2) (b / 2) * 2 + min (a % 2) (b % 2)
and_step zero b = omega (arith, and_zero_left b, and_zero_left (b / 2))
and_step (suc a) b = omega (
  arith,
  bit_and-bitwise (suc a) b,
  bit_and-bitwise (suc a / 2) (b / 2),
  digits_rounds (λ b. zero) min a (suc a / 2) (suc a / 2) (b / 2) (omega arith) (omega arith),
)

zero_right : (n a : ℕ) → a ≤ n → (bit_or a 0 ≡ a) × (bit_and a 0 ≡ 0)
zero_right n zero h = (refl, refl)
zero_right zero (suc a) h = absurd (omega arith)
zero_right (suc n) (suc a) h =
    let halves = zero_right n (suc a / 2) (omega arith) in
    (omega (arith, or_step (suc a) 0, halves.0), omega (arith, and_step (suc a) 0, halves.1))

-- `|` of a shifted number and one that fits below it is their sum.
pub or_disjoint : (k a b : ℕ) → b < 2 ^ k → bit_or (a << k) b ≡ (a << k) + b
or_disjoint zero a b h =
    omega (arith, (zero_right (a * 1) (a * 1) (omega arith)).0, ap (bit_or (a * 1)) (fits b h))
  where
    fits : (b : ℕ) → b < 1 → b ≡ 0
    fits b h = omega arith
or_disjoint (suc k) a b h =
    let twice : a * 2 ^ suc k ≡ a * 2 ^ k * 2 =
      omega (arith, ap (λ (t : ℕ). a * t) (pow-suc 2 k)) in
    let room : b / 2 < 2 ^ k = omega (arith, pow-suc 2 k) in
    omega (
      arith,
      or_step (a * 2 ^ suc k) b,
      ap (λ (t : ℕ). bit_or t (b / 2)) (halved (a * 2 ^ k) (a * 2 ^ suc k) twice),
      or_disjoint k a (b / 2) room,
    )
  where
    halved : (m n : ℕ) → n ≡ m * 2 → n / 2 ≡ m
    halved m n e = omega arith

-- A mask of ones is a remainder.
and_1 : (a : ℕ) → bit_and a 1 ≡ a % 2
and_1 a = omega (arith, and_step a 1, (zero_right (a / 2) (a / 2) (omega arith)).1)

and_3 : (a : ℕ) → bit_and a 3 ≡ a % 4
and_3 a = omega (arith, and_step a 3, and_1 (a / 2))

and_7 : (a : ℕ) → bit_and a 7 ≡ a % 8
and_7 a = omega (arith, and_step a 7, and_3 (a / 2))

and_15 : (a : ℕ) → bit_and a 15 ≡ a % 16
and_15 a = omega (arith, and_step a 15, and_7 (a / 2))

and_31 : (a : ℕ) → bit_and a 31 ≡ a % 32
and_31 a = omega (arith, and_step a 31, and_15 (a / 2))

pub and_63 : (a : ℕ) → bit_and a 63 ≡ a % 64
and_63 a = omega (arith, and_step a 63, and_31 (a / 2))

and_127 : (a : ℕ) → bit_and a 127 ≡ a % 128
and_127 a = omega (arith, and_step a 127, and_63 (a / 2))

pub and_255 : (a : ℕ) → bit_and a 255 ≡ a % 256
and_255 a = omega (arith, and_step a 255, and_127 (a / 2))
