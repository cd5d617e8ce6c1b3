-- ===== src/Base64/Groups.antt =====
-- One group of base64: three bytes as four symbols and back, in arithmetic instead of bit operations.
use Prim.Native.Nat.{bit_or}
use gar_virt.Prelude.{
  ltb, ◌==◌, Bool-cases, get_or_above, ℕ, zero, suc, ◌+◌, ◌*◌, ◌/◌, ◌%◌, ◌^◌, ◌≤◌, ◌<◌, ◌≡◌, refl,
  ◌∙◌, inl, inr, Bool, true, false, not, ◌&&◌, ◌||◌, arith,
}
use gar_virt.Prelude.Bits.{◌<<◌, or_disjoint, and_63}
use gar_virt.Base64.{
  pad_char, decode_able_invalid_char, decode_table, symbol, mapped, shl32, sextet,
}

-- What is true of a symbol of the alphabet, checked for each of the 64.
abbrev good_symbol : ℕ → Bool
good_symbol g =
    (mapped (symbol g) == g)
    && (not (symbol g == pad_char) && not (mapped (symbol g) == decode_able_invalid_char))

all_below : ℕ → (ℕ → Bool) → Bool
all_below zero p = true
all_below (suc n) p = p n && all_below n p

all_below-lt : (n : ℕ) (p : ℕ → Bool) (x : ℕ) → all_below n p ≡ true → x < n → p x ≡ true
unfolding all_below
all_below-lt zero p x h lt = absurd (omega arith)
all_below-lt (suc n) p x h lt = ground (arith, all_below-lt n p x)

symbols_table : all_below 64 good_symbol ≡ true
unfolding all_below symbol mapped
symbols_table = refl

pub symbol_lem :
    (g : ℕ)
    → g < 64
    → (mapped (symbol g) ≡ g)
      × ((symbol g == pad_char) ≡ false)
      × ((mapped (symbol g) == decode_able_invalid_char) ≡ false)
symbol_lem g h =
    let e = all_below-lt 64 good_symbol g symbols_table h in
    (ground arith, ground arith, ground arith)

pub sextet_lem : (k bx : ℕ) → mapped (sextet k bx) ≡ bx / 2 ^ k % 64
unfolding sextet
sextet_lem k bx = rw and_63 ((symbol_lem (bx / 2 ^ k % 64) (omega arith)).0)

shl32-fits : (x k : ℕ) → (x << k) < 2 ^ 32 → shl32 x k ≡ (x << k)
shl32-fits x k h = omega (arith, h)

-- `b0 | b1` and so on: the parts of a word do not overlap.
pub pack2 : (a b : ℕ) → a < 256 → b < 256 → bit_or (shl32 a 16) (shl32 b 8) ≡ a * 65536 + b * 256
pack2 a b ha hb =
    rw (shl32-fits a 16 (omega arith), shl32-fits b 8 (omega arith))
      (or_disjoint 16 a (b * 256) (omega arith))

pub pack3 :
    (a b c : ℕ)
    → a < 256
    → b < 256
    → c < 256
    → bit_or (bit_or (shl32 a 16) (shl32 b 8)) c ≡ a * 65536 + b * 256 + c
pack3 a b c ha hb hc =
    let regroup : a * 65536 + b * 256 ≡ (a * 256 + b) << 8 = omega arith in
    rw (pack2 a b ha hb, regroup) (or_disjoint 8 (a * 256 + b) c hc)

module _ (g0 g1 : ℕ) (h0 : g0 < 64) (h1 : g1 < 64) where
  pub join2 : bit_or (shl32 g0 18) (shl32 g1 12) ≡ (g0 * 64 + g1) << 12
  join2 =
      rw (shl32-fits g0 18 (omega arith), shl32-fits g1 12 (omega arith))
        (or_disjoint 18 g0 (g1 * 4096) (omega arith) ∙ omega arith)

  pub join3 :
      (g2 : ℕ)
      → g2 < 64
      → bit_or (bit_or (shl32 g0 18) (shl32 g1 12)) (shl32 g2 6) ≡ (g0 * 4096 + g1 * 64 + g2) << 6
  join3 g2 h2 =
      rw (join2, shl32-fits g2 6 (omega arith))
        (or_disjoint 12 (g0 * 64 + g1) (g2 * 64) (omega arith) ∙ omega arith)

  pub join4 :
      (g2 g3 : ℕ)
      → g2 < 64
      → g3 < 64
      → bit_or (bit_or (bit_or (shl32 g0 18) (shl32 g1 12)) (shl32 g2 6)) g3
        ≡ g0 * 262144 + g1 * 4096 + g2 * 64 + g3
  join4 g2 g3 h2 h3 =
      rw (join3 g2 h2) (or_disjoint 6 (g0 * 4096 + g1 * 64 + g2) g3 h3 ∙ omega arith)

-- What the decoder joins from the symbols of a word of three bytes: all of it, or its top.
abbrev pub joined2 : ℕ → ℕ
joined2 bx = bit_or (shl32 (bx / 2 ^ 18 % 64) 18) (shl32 (bx / 2 ^ 12 % 64) 12)

abbrev pub joined3 : ℕ → ℕ
joined3 bx = bit_or (joined2 bx) (shl32 (bx / 2 ^ 6 % 64) 6)

abbrev pub joined4 : ℕ → ℕ
joined4 bx = bit_or (joined3 bx) (bx / 2 ^ 0 % 64)

module _ (bx : ℕ) (h : bx < 2 ^ 24) where
  pub joined2_lem : joined2 bx ≡ bx / 2 ^ 12 * 2 ^ 12
  joined2_lem =
      join2 (bx / 2 ^ 18 % 64) (bx / 2 ^ 12 % 64) (omega arith) (omega arith) ∙ omega arith

  pub joined3_lem : joined3 bx ≡ bx / 2 ^ 6 * 2 ^ 6
  joined3_lem =
      join3 (bx / 2 ^ 18 % 64) (bx / 2 ^ 12 % 64) (omega arith) (omega arith) (bx / 2 ^ 6 % 64)
        (omega arith)
      ∙ omega arith

  pub joined4_lem : joined4 bx ≡ bx
  joined4_lem =
      join4 (bx / 2 ^ 18 % 64) (bx / 2 ^ 12 % 64) (omega arith) (omega arith) (bx / 2 ^ 6 % 64)
        (bx / 2 ^ 0 % 64) (omega arith) (omega arith)
      ∙ omega arith

-- A character of the alphabet.
abbrev pub IsSymbol : ℕ → Type 0
IsSymbol c = (g : ℕ) × (g < 64) × (c ≡ symbol g)

abbrev listed : ℕ → Bool
listed c = (mapped c == decode_able_invalid_char) || symbol (mapped c) == c && ltb (mapped c) 64

listed_table : all_below 256 listed ≡ true
unfolding all_below symbol mapped
listed_table = refl

mapped_above : (c : ℕ) → 256 ≤ c → mapped c ≡ decode_able_invalid_char
unfolding mapped
mapped_above c h = get_or_above decode_table c decode_able_invalid_char h

-- What the decode table maps is in the alphabet.
pub mapped-IsSymbol : (c : ℕ) → (mapped c == decode_able_invalid_char) ≡ false → IsSymbol c
mapped-IsSymbol c h = elim (Bool-cases (ltb c 256)) [
  | inl small ↦
      let e = all_below-lt 256 listed c listed_table (ground arith) in
      (mapped c, ground arith, ground arith)
  | inr large ↦ absurd (ground (arith, mapped_above c))
]
