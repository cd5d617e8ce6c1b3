-- ===== src/Streams/Examples.antt =====
-- Reads from a stream of five bytes.
use gar_virt.Prelude.{
  Bytes, codes, take, drop, All, ◌<◌, ◌≡◌, refl, true, false, none, some, [], ◌∷◌, arith,
}
use gar_virt.Streams.StdInput.{make, read, read_all}
use gar_virt.Streams.Reading.{opened, reads_lem}

abbrev hello : Bytes
hello = codes "hello"

three_bytes : read_all (2 ∷ 2 ∷ 2 ∷ []) (make (opened true hello 1) (some 3)) ≡ codes "ell"
unfolding read_all read make
three_bytes = refl

-- Four bytes of a pipe of which three should be read.
beyond_size : read_all (2 ∷ 2 ∷ []) (make (opened false hello 1) (some 3)) ≡ codes "ello"
unfolding read_all read make
beyond_size = refl

reads_lem_example :
    (read_all (2 ∷ 2 ∷ 2 ∷ []) (make (opened true hello 1) (some 3))
      ≡ take 6 (take 3 (drop 1 hello)))
    × (read_all (2 ∷ 2 ∷ 2 ∷ []) (make (opened true hello 1) none) ≡ take 6 (drop 1 hello))
    × (read_all (2 ∷ 2 ∷ 2 ∷ []) (make (opened false hello 1) none) ≡ [])
    × (All (λ c. c < 3) (2 ∷ 2 ∷ 2 ∷ [])
        → read_all (2 ∷ 2 ∷ 2 ∷ []) (make (opened false hello 1) (some 3)) ≡ take 6 (drop 1 hello))
reads_lem_example = reads_lem hello 1 3 (2 ∷ 2 ∷ 2 ∷ []) (omega arith)
