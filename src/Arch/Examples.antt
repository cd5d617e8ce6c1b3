-- ===== src/Arch/Examples.antt =====
-- Names of architectures.
use gar_virt.Prelude.{ltb, if◌then◌else◌, codes, ok, err, ℕ, ◌-◌, ◌≡◌, refl, ◌↔◌, ◌⊎◌, ◌&&◌}
use gar_virt.Text.{string_compare_ci}
use gar_virt.Arch.{amd64, amd64_names, arm64_names, from_name, to_name, Among, from_name_iff}

abbrev upper : ℕ → ℕ
upper c = if ltb 96 c && ltb c 123 then c - 32 else c

from_name_iff_example : (from_name upper (codes "AArch64") ≡ ok amd64) ↔ (
    (amd64 ≡ amd64)
    × (Among upper (codes "AArch64") amd64_names ⊎ Among upper (codes "AArch64") arm64_names))
from_name_iff_example = from_name_iff upper (codes "AArch64") amd64

aarch64_is_amd64 : from_name upper (codes "AArch64") ≡ ok amd64
unfolding from_name string_compare_ci
aarch64_is_amd64 = refl

-- The name that `to_name` gives is none.
no_round_trip : from_name upper (to_name amd64) ≡ err (codes "amd64;")
unfolding from_name string_compare_ci
no_round_trip = refl
