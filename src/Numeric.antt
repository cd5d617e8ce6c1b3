-- ===== src/Numeric.antt =====
-- modules/utility/include/utility/algorithm.hpp: the checked integer conversions and the powers.
-- Integers of the source are given by their value: an unsigned one as a number, a signed one as its
-- sign and magnitude, with the limits of the type that it is converted to.
mod Examples
use gar_virt.Prelude.{
  ltb, leb, if◌then◌else◌, ok, err, Result, ◌>>=◌, ℕ, zero, suc, ◌+◌, ◌*◌, ◌/◌, ◌%◌, ◌^◌, ◌≤◌, ◌<◌,
  ◌≡◌, sym, ap, ◌∙◌, arith,
}
use native.Mathlib.Nat.{
  add-mul-mod_self_left, div-add-mod, mod-eq_of_lt, mul_assoc, pow-succ', pow-zero,
}
use gar_virt.Prelude.Words.{size_mod}

pub data CastError : Type 0 where
  below_min above_max : CastError

-- A signed value: `pos n` is n, `negsuc n` is -(n + 1).
pub data ℤ : Type 0 where
  pos : ℕ → ℤ
  negsuc : ℕ → ℤ

-- `safe_cast_int` between unsigned types; `result_max` is the largest value of the result type.
pub cast_unsigned : ℕ → ℕ → Result CastError ℕ
cast_unsigned result_max value = if ltb result_max value then err above_max else ok value

-- `safe_cast_int` from a signed type to an unsigned one.
unfoldable pub cast_to_unsigned : ℕ → ℤ → Result CastError ℕ
cast_to_unsigned result_max (negsuc n) = err below_min
cast_to_unsigned result_max (pos n) = if ltb result_max n then err above_max else ok n

-- `safe_cast_int` from an unsigned type to a signed one.
unfoldable pub cast_to_signed : ℕ → ℕ → Result CastError ℤ
cast_to_signed result_max value = if ltb result_max value then err above_max else ok (pos value)

-- `safe_cast_int` between signed types, with the result type running from -(result_min) to result_max.
pub cast_signed : ℕ → ℕ → ℤ → Result CastError ℤ
cast_signed result_min result_max (pos n) = if ltb result_max n then err above_max else ok (pos n)
cast_signed result_min result_max (negsuc n) =
    if ltb result_min (n + 1) then err below_min else ok (negsuc n)

-- `ipow` on 64-bit words: `while (exponent-- > 0) result *= base`.
ipow_loop : ℕ → ℕ → ℕ → ℕ
ipow_loop base zero result = result
ipow_loop base (suc exponent) result = ipow_loop base exponent (result * base % size_mod)

unfoldable pub ipow : ℕ → ℕ → ℕ
unfolding ipow_loop
ipow base exponent = ipow_loop base exponent 1

unfoldable pub ipow2 : ℕ → ℕ
unfolding ipow
ipow2 exponent = ipow 2 exponent

-- A `size_t` that fits the signed type comes back from the round trip through it; the conversion there
-- fails exactly for the values above the signed type's maximum.
pub cast_round_trip :
    (signed_max unsigned_max value : ℕ)
    → signed_max ≤ unsigned_max
    → (cast_to_signed signed_max value >>= cast_to_unsigned unsigned_max)
      ≡ (if leb value signed_max then ok value else err above_max)
unfolding cast_to_signed cast_to_unsigned
cast_round_trip signed_max unsigned_max value h = ground arith

mod_mul : (a b m : ℕ) → a % m * b % m ≡ a * b % m
mod_mul a b m =
    sym (add-mul-mod_self_left (a % m * b) m (a / m * b))
    ∙ ap (λ (t : ℕ). t % m) (omega (arith, ap (λ (t : ℕ). t * b) (div-add-mod a m)))

ipow_loop_lem :
    (base exponent result : ℕ)
    → ipow_loop base exponent result % size_mod ≡ result * base ^ exponent % size_mod
unfolding ipow_loop
ipow_loop_lem base zero result = rw pow-zero (ap (λ (t : ℕ). t % size_mod) (omega arith))
ipow_loop_lem base (suc exponent) result =
    ipow_loop_lem base exponent (result * base % size_mod)
    ∙ mod_mul (result * base) (base ^ exponent) size_mod
    ∙ ap (λ (t : ℕ). t % size_mod)
        (mul_assoc result base (base ^ exponent)
          ∙ ap (λ (t : ℕ). result * t) (sym (pow-succ' base exponent)))

ipow_loop-lt :
    (base exponent result : ℕ) → result < size_mod → ipow_loop base exponent result < size_mod
unfolding ipow_loop
ipow_loop-lt base zero result h = h
ipow_loop-lt base (suc exponent) result h =
    ipow_loop-lt base exponent (result * base % size_mod) (omega arith)

-- The loop of `ipow` on 64-bit words gives the power modulo 2^64, for every base and exponent: the true
-- power wherever that fits, and otherwise its low 64 bits.
pub ipow-pow : (base exponent : ℕ) → ipow base exponent ≡ base ^ exponent % size_mod
unfolding ipow
ipow-pow base exponent =
    sym (mod-eq_of_lt (ipow_loop-lt base exponent 1 (omega arith)))
    ∙ ipow_loop_lem base exponent 1
    ∙ omega arith
