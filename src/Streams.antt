-- ===== src/Streams.antt =====
-- `read_line` and `read_stream_as_string`, modules/utility/include/utility/io/stream.hpp. A stream is
-- the bytes that are left in it, with its size if that is known.
pub mod StdInput
pub mod Window
pub mod Pipe
pub mod Reading
mod Examples
use gar_virt.Prelude.{
  ltb, ◌==◌, if◌then◌else◌, Bytes, take, All, ℕ, ◌≡◌, refl, sym, ap, ◌∙◌, false, Option, none, some,
  [], ◌∷◌, ◌++◌, append_assoc, append-nil,
}

-- The states of the loop of `read_line` while it is not done.
pub data LineState : Type 0 where
  cr lf : LineState

-- The loop: the line, or nothing, and what is left of the stream. '\r' is 13 and '\n' 10.
unfoldable pub line_loop : LineState → Bytes → Bytes → Option Bytes × Bytes
line_loop state line [] = (some line, [])
line_loop cr line (c ∷ stream) =
    let ended = line_loop lf line stream in
    let longer = line_loop cr (line ++ c ∷ []) stream in if c == 13 then ended else longer
line_loop lf line (c ∷ stream) = if c == 10 then (some line, stream) else (none, stream)

unfoldable pub read_line : Bytes → Option Bytes × Bytes
unfolding line_loop
read_line stream = line_loop cr [] stream

-- `size` is that of the stream if it is known; a `read` gives as many bytes as there are.
unfoldable pub read_stream_as_string : Option ℕ → Bytes → ℕ → Option Bytes
read_stream_as_string none stream max_length = none
read_stream_as_string (some content_length) stream max_length =
    if ltb content_length 1
    then none
    else if ltb max_length content_length
    then none
    else some (take content_length stream)

abbrev pub LacksCr : Bytes → Type 0
LacksCr = All (λ c. (c == 13) ≡ false)

line_loop-text :
    (line text stream : Bytes)
    → LacksCr text
    → line_loop cr line (text ++ stream) ≡ line_loop cr (line ++ text) stream
unfolding line_loop
line_loop-text line [] stream lacks = ap (λ l. line_loop cr l stream) (sym (append-nil line))
line_loop-text line (c ∷ text) stream (other, lacks) = rw other (
    line_loop-text (line ++ c ∷ []) text stream lacks
    ∙ ap (λ l. line_loop cr l stream) (append_assoc line (c ∷ []) text))

-- `read_line` on a text without '\r': behind the text a pair '\r', '\n' ends the line and is taken from
-- the stream; so does the end of the stream, also between the two; another character behind '\r'
-- gives nothing, and it and the line are lost.
pub read_line_lem :
    (text rest : Bytes) (c : ℕ)
    → LacksCr text
    → (read_line (text ++ (13 ∷ 10 ∷ rest)) ≡ (some text, rest))
      × (read_line (text ++ []) ≡ (some text, []))
      × (read_line (text ++ 13 ∷ []) ≡ (some text, []))
      × ((c == 10) ≡ false → read_line (text ++ (13 ∷ c ∷ rest)) ≡ (none, rest))
unfolding read_line line_loop
read_line_lem text rest c lacks = (
  line_loop-text [] text (13 ∷ 10 ∷ rest) lacks,
  line_loop-text [] text [] lacks,
  line_loop-text [] text (13 ∷ []) lacks,
  (λ other. line_loop-text [] text (13 ∷ c ∷ rest) lacks ∙ rw other refl),
)
