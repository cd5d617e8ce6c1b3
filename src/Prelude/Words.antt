-- ===== src/Prelude/Words.antt =====
-- Unsigned machine words: `size_t` has 64 bits, and its arithmetic wraps around.
use Prim.Native.Nat.{ℕ, ◌+◌, ◌-◌, ◌^◌, ◌%◌, ◌<◌, ◌≤◌}
use mathlib.Core.Path.{◌≡◌}
use native.Mathlib.Omega.{arith}

abbrev pub size_mod : ℕ
size_mod = 2 ^ 64

-- `a + b`, `++a` and `--a` on a `size_t`.
unfoldable pub add_size : ℕ → ℕ → ℕ
add_size a b = (a + b) % size_mod

unfoldable pub inc_size : ℕ → ℕ
inc_size a = (a + 1) % size_mod

unfoldable pub dec_size : ℕ → ℕ
dec_size a = (a + size_mod - 1) % size_mod

pub inc_size-lt : (a : ℕ) → a + 1 < size_mod → inc_size a ≡ a + 1
unfolding inc_size
inc_size-lt a h = omega arith

pub dec_size-pos : (a : ℕ) → 0 < a → a < size_mod → dec_size a ≡ a - 1
unfolding dec_size
dec_size-pos a h k = omega arith

pub add_size-lt : (a b : ℕ) → a + b < size_mod → add_size a b ≡ a + b
unfolding add_size
add_size-lt a b h = omega arith

pub ruleset words = (inc_size-lt, dec_size-pos, add_size-lt)

-- `a - b` on a `size_t`.
unfoldable pub sub_size : ℕ → ℕ → ℕ
sub_size a b = (a + size_mod - b) % size_mod

pub sub_size-le : (a b : ℕ) → b ≤ a → a < size_mod → sub_size a b ≡ a - b
unfolding sub_size
sub_size-le a b h k = omega arith
