-- ===== src/Streams/StdInput.antt =====
-- `StdInputStream` of modules/utility/include/utility/io/stream.hpp, over a standard stream.
use gar_virt.Prelude.{
  ltb, leb, if◌then◌else◌, Bytes, length, take, drop, ℕ, zero, suc, ◌+◌, ◌-◌, Bool, true, false,
  Option, none, some, List, [], ◌∷◌, ◌++◌,
}

-- A standard input stream: its bytes with the position in them, and its flags. One that cannot seek, such
-- as a pipe, has no position for `tellg`.
pub record Istream : Type 0 where
  pub content : Bytes
  pub position : ℕ
  pub seekable : Bool
  pub eofbit : Bool
  pub failbit : Bool

abbrev pub is_good : Istream → Bool
is_good s = if s.eofbit then false else if s.failbit then false else true

-- `tellg`, of which nothing is -1; on a stream that is not good it fails.
abbrev pub tellg : Istream → Option ℕ × Istream
tellg s =
    if is_good s
    then (if s.seekable then some s.position else none, s)
    else (none, record s { failbit = true })

-- `seekg` to a position, which clears the end flag first.
abbrev pub seekg : ℕ → Istream → Istream
seekg position s =
    if s.failbit
    then record s { eofbit = false }
    else if s.seekable
    then record s { position = position; eofbit = false }
    else record s { eofbit = false; failbit = true }

-- `read` with `gcount`: all that was asked for, or what is left, which ends the stream.
abbrev pub left : Istream → Bytes
left s = drop s.position s.content

abbrev pub read_bytes : ℕ → Istream → Bytes × Istream
read_bytes count s =
    if is_good s
    then (
      take count (left s),
      record s {
        position = s.position + length (take count (left s));
        eofbit = ltb (length (left s)) count;
        failbit = ltb (length (left s)) count;
      },
    )
    else ([], record s { failbit = true })

pub record StdInputStream : Type 0 where
  pub stream : Istream
  pub size : Option ℕ
  pub initial_position : Option ℕ

-- The difference of two positions, unless it is negative.
abbrev pub pos_diff : Option ℕ → Option ℕ → Option ℕ
pos_diff none none = some 0
pos_diff none (some q) = none
pos_diff (some p) none = some (suc p)
pos_diff (some p) (some q) = if ltb p q then none else some (p - q)

abbrev pub seek_back : Option ℕ → Istream → Istream
seek_back none s = record s { eofbit = false; failbit = true }
seek_back (some p) s = seekg p s

-- Back at the begin, unless the end is there as well; a size of zero is none.
abbrev pub size_of : Option ℕ → Option ℕ → Istream → Option ℕ × Istream
size_of begin_pos none s = (none, seek_back begin_pos s)
size_of begin_pos (some zero) s = (none, s)
size_of begin_pos (some (suc diff)) s = (some (suc diff), seek_back begin_pos s)

unfoldable pub try_get_stream_size : Istream → Option ℕ × Istream
try_get_stream_size s =
    let (begin_pos, s1) = tellg s in
    let s2 = seekg (length s1.content) s1 in
    let (end_pos, s3) = tellg s2 in size_of begin_pos (pos_diff end_pos begin_pos) s3

abbrev pub given_size : Option ℕ → Istream → Option ℕ × Istream
given_size (some size) s = (some size, s)
given_size none s = try_get_stream_size s

unfoldable pub make : Istream → Option ℕ → StdInputStream
unfolding try_get_stream_size
make s size =
    let (m_size, s1) = given_size size s in
    let (initial_position, s2) = tellg s1 in
    record { stream = s2; size = m_size; initial_position = initial_position }

-- The end of `read`: the stream is at its end with everything that is available.
abbrev pub read_up_to : ℕ → ℕ → StdInputStream → Bytes × StdInputStream
read_up_to count available s =
    let (bytes, stream) = read_bytes count s.stream in
    (
      bytes,
      record s {
        stream = record stream {
          eofbit = if leb available (length bytes) then true else stream.eofbit;
        };
      },
    )

abbrev pub read_available : ℕ → ℕ → StdInputStream → Bytes × StdInputStream
read_available count available s =
    read_up_to (if ltb available count then available else count) available s

-- By the distance from the initial position, with a known size.
abbrev pub read_within : ℕ → ℕ → Option ℕ → StdInputStream → Bytes × StdInputStream
read_within count size none s = ([], record s { stream = record (s.stream) { failbit = true } })
read_within count size (some passed) s =
    if leb size passed
    then ([], record s { stream = record (s.stream) { eofbit = true } })
    else read_available count (size - passed) s

abbrev pub read_sized : ℕ → Option ℕ → StdInputStream → Bytes × StdInputStream
read_sized count none s = read_available count count s
read_sized count (some size) s =
    let (position, stream) = tellg s.stream in
    read_within count size (pos_diff position s.initial_position) (record s { stream = stream })

unfoldable pub read : ℕ → StdInputStream → Bytes × StdInputStream
read count s = read_sized count s.size s

-- What some reads give, one after the other.
unfoldable pub read_all : List ℕ → StdInputStream → Bytes
unfolding read
read_all [] s = []
read_all (count ∷ counts) s = let r = read count s in r.0 ++ read_all counts r.1
