-- ===== src/Pool/Backoff.antt =====
-- The pause of the control loop after failures to add a spawner.
use gar_virt.Prelude.{ltb, if◌then◌else◌, ℕ, zero, suc, ◌^◌, min, ◌≡◌, refl, arith}
use gar_virt.Numeric.{ipow2}

-- The pause in seconds after so many failures in a row: `min(60s, 1s * ipow2(min(fail_count, 6)))`.
pub backoff : ℕ → ℕ
backoff fail_count = min 60 (ipow2 (min fail_count 6))

-- The pause doubles with each failure in a row up to the fifth, from two seconds after the first, and
-- is a minute from the sixth on.
pub backoff_lem :
    (fail_count : ℕ) → backoff fail_count ≡ (if ltb fail_count 6 then 2 ^ fail_count else 60)
unfolding backoff ipow2
backoff_lem zero = refl
backoff_lem (suc zero) = refl
backoff_lem (suc (suc zero)) = refl
backoff_lem (suc (suc (suc zero))) = refl
backoff_lem (suc (suc (suc (suc zero)))) = refl
backoff_lem (suc (suc (suc (suc (suc zero))))) = refl
backoff_lem (suc (suc (suc (suc (suc (suc n)))))) =
    let capped : min (suc (suc (suc (suc (suc (suc n)))))) 6 ≡ 6 = omega arith in
    rw capped (ground arith)
