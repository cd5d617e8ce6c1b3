-- ===== src/Numeric/Examples.antt =====
-- Uses of the integer helpers.
use gar_virt.Prelude.{◌%◌, ◌^◌, ◌≡◌}
use gar_virt.Prelude.Words.{size_mod}
use gar_virt.Numeric.{ipow, ipow-pow}

ipow-pow_example : ipow 3 100 ≡ 3 ^ 100 % size_mod
ipow-pow_example = ipow-pow 3 100
