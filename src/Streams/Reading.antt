-- ===== src/Streams/Reading.antt =====
-- Standard streams read to their end.
use gar_virt.Prelude.{
  ltb, leb, if◌then◌else◌, Bytes, length, take, drop, All, ℕ, zero, suc, ◌+◌, ◌-◌, ◌≤◌, ◌<◌, ◌≡◌,
  refl, sym, ap, ◌∙◌, ◌⊎◌, inl, inr, Bool, true, false, Option, none, some, List, [], ◌∷◌, ◌++◌,
  arith,
}
use gar_virt.Streams.StdInput.{
  Istream, tellg, StdInputStream, size_of, try_get_stream_size, make, read, read_all,
}
use gar_virt.Streams.Pipe.{read_all-pipe}
use gar_virt.Streams.Window.{take_nil, take_all, sum, with_flags, read_all-Windowed}

-- A stream that was opened, at a position.
abbrev pub opened : Bool → Bytes → ℕ → Istream
opened seekable content position = record {
  content = content;
  position = position;
  seekable = seekable;
  eofbit = false;
  failbit = false;
}

-- Without a size nothing is read from a stream that is at an end or has failed.
abbrev without_size : Bool → Bool → Bool → Bytes → ℕ → Option ℕ → StdInputStream
without_size seekable eofbit failbit content position initial = record {
  stream = record {
    content = content;
    position = position;
    seekable = seekable;
    eofbit = eofbit;
    failbit = failbit;
  };
  size = none;
  initial_position = initial;
}

failed-nothing :
    (counts : List ℕ) (seekable eofbit : Bool) (content : Bytes) (position : ℕ) (initial : Option ℕ)
    → read_all counts (without_size seekable eofbit true content position initial) ≡ []
unfolding read_all read
failed-nothing [] seekable eofbit content position initial = refl
failed-nothing (c ∷ counts) seekable false content position initial =
    failed-nothing counts seekable (if leb c 0 then true else false) content position initial
failed-nothing (c ∷ counts) seekable true content position initial =
    failed-nothing counts seekable (if leb c 0 then true else true) content position initial

ended-nothing :
    (counts : List ℕ) (seekable failbit : Bool) (content : Bytes) (position : ℕ)
    (initial : Option ℕ)
    → read_all counts (without_size seekable true failbit content position initial) ≡ []
unfolding read_all read
ended-nothing [] seekable failbit content position initial = refl
ended-nothing (c ∷ counts) seekable failbit content position initial =
    failed-nothing counts seekable (if leb c 0 then true else true) content position initial

-- The first read at the end.
exhausted-nothing :
    (counts : List ℕ) (seekable : Bool) (content : Bytes) (position : ℕ) (initial : Option ℕ)
    → drop position content ≡ []
    → read_all counts (without_size seekable false false content position initial) ≡ []
unfolding read_all read
exhausted-nothing [] seekable content position initial e = refl
exhausted-nothing (c ∷ counts) seekable content position initial e =
    ap (λ n. behind n (drop position content)) (same_count (ltb c c))
    ∙ ap (behind c) e
    ∙ ap (λ l. l ++ after l) (take_nil c)
    ∙ go (leb c 0) (ltb 0 c) (ground arith)
  where
    after : Bytes → Bytes
    after bytes = read_all counts (
        without_size seekable (if leb c (length bytes) then true else ltb 0 c) (ltb 0 c) content
          (position + length bytes) initial)

    behind : ℕ → Bytes → Bytes
    behind n l =
        take n l
        ++ read_all counts (
            without_size seekable (if leb c (length (take n l)) then true else ltb (length l) n)
              (ltb (length l) n) content (position + length (take n l)) initial)

    same_count : (b : Bool) → (if b then c else c) ≡ c
    same_count true = refl
    same_count false = refl

    go :
        (none_asked some_asked : Bool)
        → (none_asked ≡ true) ⊎ (some_asked ≡ true)
        → read_all counts (
            without_size seekable
              (if none_asked then true else some_asked)
              some_asked
              content
              (position + 0)
              initial)
          ≡ []
    go true b e = ended-nothing counts seekable b content (position + 0) initial
    go false true e = ended-nothing counts seekable true content (position + 0) initial
    go false false (inl e) = absurd cc
    go false false (inr e) = absurd cc

drop-length : (s : Bytes) → drop (length s) s ≡ []
drop-length [] = refl
drop-length (c ∷ s) = drop-length s

length-drop : (n : ℕ) (s : Bytes) → length (drop n s) ≡ length s - n
length-drop zero s = omega arith
length-drop (suc n) [] = omega arith
length-drop (suc n) (c ∷ s) = omega (arith, length-drop n s)

-- The size that is found, by the distance to the end.
found-window :
    (content : Bytes) (position : ℕ) (counts : List ℕ) (d : ℕ)
    → length content - position ≡ d
    → position ≤ length content
    → read_all counts (
        let (m_size, s1) =
          size_of (some position) (some d) (opened true content (length content)) in
        let (initial_position, s2) = tellg s1 in
        record { stream = s2; size = m_size; initial_position = initial_position })
      ≡ take (sum counts) (drop position content)
found-window content position counts zero e inside =
    exhausted-nothing counts true content (length content) (some (length content))
      (drop-length content)
    ∙ sym (
        ap (λ p. take (sum counts) (drop p content))
          (let same_end : position ≡ length content = omega arith in same_end)
        ∙ ap (take (sum counts)) (drop-length content)
        ∙ take_nil (sum counts))
found-window content position counts (suc d) e inside =
    let window = read_all-Windowed content position (suc d) counts 0 (omega arith) in
    let same_start : position ≡ position + 0 = omega arith in
    ap (λ p. read_all counts (with_flags content position (suc d) false false p)) same_start
    ∙ window
    ∙ ap (λ p. take (sum counts) (take (suc d - 0) (drop p content))) (sym same_start)
    ∙ ap (take (sum counts))
        (take_all (suc d - 0) (drop position content) (omega (arith, length-drop position content)))

-- Reading by `StdInputStream`, in whatever portions. A stream that can seek gives its bytes from the
-- position at which it was opened: as many as are asked for in all, and no more than the size if one
-- is given. A stream that cannot seek gives nothing without a size, since the search for its size
-- makes it fail. With a size it gives the bytes from its position, as many as are asked for in all,
-- also beyond the size, if each read asks for fewer bytes than the size.
pub reads_lem :
    (content : Bytes) (position size : ℕ) (counts : List ℕ)
    → position ≤ length content
    → (read_all counts (make (opened true content position) (some size))
        ≡ take (sum counts) (take size (drop position content)))
      × (read_all counts (make (opened true content position) none)
          ≡ take (sum counts) (drop position content))
      × (read_all counts (make (opened false content position) none) ≡ [])
      × (All (λ c. c < size) counts
          → read_all counts (make (opened false content position) (some size))
            ≡ take (sum counts) (drop position content))
unfolding make try_get_stream_size
reads_lem content position size counts inside = (
  sized,
  found,
  failed-nothing counts false false content position none,
  read_all-pipe content size counts position,
)
  where
    at_distance : Option ℕ → Bytes
    at_distance d = read_all counts (
        let (m_size, s1) = size_of (some position) d (opened true content (length content)) in
        let (initial_position, s2) = tellg s1 in
        record { stream = s2; size = m_size; initial_position = initial_position })

    sized :
        read_all counts (with_flags content position size false false position)
        ≡ take (sum counts) (take size (drop position content))
    sized =
        let same_start : position ≡ position + 0 = omega arith in
        let same_size : size - 0 ≡ size = omega arith in
        ap (λ p. read_all counts (with_flags content position size false false p)) same_start
        ∙ read_all-Windowed content position size counts 0 (omega arith)
        ∙ ap (λ p. take (sum counts) (take (size - 0) (drop p content))) (sym same_start)
        ∙ ap (λ b. take (sum counts) (take b (drop position content))) same_size

    found :
        read_all counts (make (opened true content position) none)
        ≡ take (sum counts) (drop position content)
    found =
        let behind : ltb (length content) position ≡ false = ground arith in
        ap (λ b. at_distance (if b then none else some (length content - position))) behind
        ∙ found-window content position counts (length content - position) refl inside
