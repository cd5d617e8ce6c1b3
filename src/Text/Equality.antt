-- ===== src/Text/Equality.antt =====
-- `same_bytes` decides equality.
use gar_virt.Prelude.{◌==◌, Bytes, ◌≡◌, refl, ap, ◌∙◌, Bool, true, false, ◌&&◌, [], ◌∷◌, arith}
use gar_virt.Text.{same_bytes}

pub same_bytes_refl : (s : Bytes) → same_bytes s s ≡ true
same_bytes_refl [] = refl
same_bytes_refl (c ∷ s) =
    let same_head : (c == c) ≡ true = ground arith in
    ap (λ b. b && same_bytes s s) same_head ∙ same_bytes_refl s

pub same_bytes_sound : (s t : Bytes) → same_bytes s t ≡ true → s ≡ t
same_bytes_sound [] [] e = refl
same_bytes_sound [] (d ∷ t) e = absurd cc
same_bytes_sound (c ∷ s) [] e = absurd cc
same_bytes_sound (c ∷ s) (d ∷ t) e = go (c == d) refl (same_bytes_sound s t) e
  where
    go :
        (b : Bool)
        → (c == d) ≡ b
        → (same_bytes s t ≡ true → s ≡ t)
        → (b && same_bytes s t) ≡ true
        → c ∷ s ≡ d ∷ t
    go true same_head sound same_tail =
        let heads : c ≡ d = ground arith in let tails = sound same_tail in cc
    go false same_head sound same_tail = absurd cc
