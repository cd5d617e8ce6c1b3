-- ===== src/Text.antt =====
-- modules/utility/src/string.cpp. A string is the list of its bytes. `std::toupper` is a parameter, a
-- set of characters a list. The index loops are recursions on the string; where the source reads from
-- the back, on the index.
pub mod Trim
pub mod Compare
pub mod Affix
pub mod Split
pub mod Replace
pub mod Equality
mod Examples
use gar_virt.Prelude.{
  ltb, ◌==◌, if◌then◌else◌, Bytes, length, get_or, take, drop, ℕ, zero, suc, ◌-◌, Bool, true, false,
  ◌&&◌, ◌||◌, Option, none, some, List, [], ◌∷◌, ◌++◌,
}

-- `chars.contains(c)`.
abbrev pub contains : List ℕ → ℕ → Bool
contains [] c = false
contains (d ∷ chars) c = d == c || contains chars c

pub trim_left_loop : List ℕ → Bytes → Bytes → Bytes
trim_left_loop chars s [] = s
trim_left_loop chars s (c ∷ rest) =
    let more = trim_left_loop chars s rest in if contains chars c then more else c ∷ rest

unfoldable pub string_trim_left : Bytes → List ℕ → Bytes
unfolding trim_left_loop
string_trim_left s chars = trim_left_loop chars s s

-- `j` is `s.size() - i`.
pub trim_right_loop : List ℕ → Bytes → ℕ → Bytes
trim_right_loop chars s zero = s
trim_right_loop chars s (suc j) =
    let more = trim_right_loop chars s j in
    if contains chars (get_or s j 0) then more else take (suc j) s

unfoldable pub string_trim_right : Bytes → List ℕ → Bytes
unfolding trim_right_loop
string_trim_right s chars = trim_right_loop chars s (length s)

unfoldable pub string_trim : Bytes → List ℕ → Bytes
unfolding string_trim_left string_trim_right
string_trim s chars = string_trim_left (string_trim_right s chars) chars

-- The overload that works in place: it counts the length down and cuts the string to it.
pub kept_length : List ℕ → Bytes → ℕ → ℕ
kept_length chars s zero = zero
kept_length chars s (suc j) =
    let more = kept_length chars s j in if contains chars (get_or s j 0) then more else suc j

unfoldable pub string_trim_right_in_place : Bytes → List ℕ → Bytes
unfolding kept_length
string_trim_right_in_place s chars = take (kept_length chars s (length s)) s

-- The results -1, 0 and 1.
pub data Sign : Type 0 where
  less same greater : Sign

-- The test of a result against 0.
abbrev pub is_same : Sign → Bool
is_same less = false
is_same same = true
is_same greater = false

-- `==` of strings.
abbrev pub same_bytes : Bytes → Bytes → Bool
same_bytes [] [] = true
same_bytes [] (d ∷ t) = false
same_bytes (c ∷ s) [] = false
same_bytes (c ∷ s) (d ∷ t) = c == d && same_bytes s t

module _ (toupper : ℕ → ℕ) where
  unfoldable pub string_compare_ci : Bytes → Bytes → Sign
  string_compare_ci (c ∷ first) (d ∷ second) =
      let rest = string_compare_ci first second in
      let a = toupper c in
      let b = toupper d in if ltb a b then less else if ltb b a then greater else rest
  string_compare_ci [] [] = same
  string_compare_ci [] (d ∷ second) = less
  string_compare_ci (c ∷ first) [] = greater

  -- `std::ranges::lexicographical_compare` and `std::ranges::equal`, up to case.
  unfoldable pub string_compare_less_ci : Bytes → Bytes → Bool
  string_compare_less_ci first [] = false
  string_compare_less_ci [] (d ∷ second) = true
  string_compare_less_ci (c ∷ first) (d ∷ second) =
      let rest = string_compare_less_ci first second in
      if ltb (toupper c) (toupper d)
      then true
      else if ltb (toupper d) (toupper c)
      then false
      else rest

  unfoldable pub string_equals_ci : Bytes → Bytes → Bool
  string_equals_ci [] [] = true
  string_equals_ci [] (d ∷ second) = false
  string_equals_ci (c ∷ first) [] = false
  string_equals_ci (c ∷ first) (d ∷ second) =
      let rest = string_equals_ci first second in toupper c == toupper d && rest

  starts_ci : Bytes → Bytes → Bool
  starts_ci haystack [] = true
  starts_ci [] (d ∷ needle) = false
  starts_ci (c ∷ haystack) (d ∷ needle) =
      let rest = starts_ci haystack needle in toupper c == toupper d && rest

  -- `std::ranges::search`: if it finds a part that is not empty.
  search_ci : Bytes → Bytes → Bool
  search_ci [] needle = false
  search_ci (c ∷ haystack) needle =
      let rest = search_ci haystack needle in
      starts_ci (c ∷ haystack) needle && ltb 0 (length needle) || rest

  unfoldable pub string_contains_ci : Bytes → Bytes → Bool
  unfolding search_ci starts_ci
  string_contains_ci [] [] = true
  string_contains_ci (d ∷ needle) [] = false
  string_contains_ci needle (c ∷ haystack) = search_ci (c ∷ haystack) needle

-- The loop compares `needle.size()` characters from the front.
unfoldable pub string_starts_with : Bytes → Bytes → Bool
string_starts_with haystack [] = true
string_starts_with [] (d ∷ needle) = false
string_starts_with (c ∷ haystack) (d ∷ needle) =
    let rest = string_starts_with haystack needle in if c == d then rest else false

-- `for (i, j; j > 0; --i, --j)`.
unfoldable pub ends_loop : Bytes → Bytes → ℕ → ℕ → Bool
ends_loop haystack needle i zero = true
ends_loop haystack needle i (suc j) =
    let rest = ends_loop haystack needle (i - 1) j in
    if get_or haystack i 0 == get_or needle (suc j) 0 then rest else false

-- `none` is a read out of bounds: with an empty needle `j` starts at the largest `size_t`.
unfoldable pub string_ends_with : Bytes → Bytes → Option Bool
string_ends_with haystack (d ∷ needle) =
    if ltb (length haystack) (length (d ∷ needle))
    then some false
    else some (ends_loop haystack (d ∷ needle) (length haystack - 1) (length needle))
string_ends_with [] [] = some true
string_ends_with (c ∷ haystack) [] = none

-- The loops of the split functions: the tokens that end at a separator, and what is behind the last
-- one. `token` is the input from `a` to `b`.
unfoldable pub split_loop : ℕ → Bytes → Bytes → List Bytes × Bytes
split_loop separator token [] = ([], token)
split_loop separator token (c ∷ input) = elim (c == separator) [
  | true ↦ let (items, remainder) = split_loop separator [] input in (token ∷ items, remainder)
  | false ↦ split_loop separator (token ++ c ∷ []) input
]

unfoldable pub string_split_with_remainder : Bytes → ℕ → List Bytes × Bytes
string_split_with_remainder input separator = split_loop separator [] input

abbrev pub last_token : Bytes → List Bytes
last_token [] = []
last_token (c ∷ token) = (c ∷ token) ∷ []

unfoldable pub string_split : Bytes → ℕ → List Bytes
string_split input separator =
    let (items, rest) = split_loop separator [] input in items ++ last_token rest

-- `std::search` for a pattern: what is before it and what is behind, or that the search ran to the end.
unfoldable pub search_pattern : Bytes → Bytes → Option (Bytes × Bytes)
search_pattern pattern [] = none
search_pattern pattern (c ∷ s) =
    let rest = search_pattern pattern s in
    if string_starts_with (c ∷ s) pattern
    then some ([], drop (length pattern) (c ∷ s))
    else elim rest [ none ↦ none | some (before, behind) ↦ some (c ∷ before, behind) ]

-- The loop, on fuel; `none` means that the fuel ran out.
unfoldable pub replace_loop : ℕ → Bytes → Bytes → Bytes → Option Bytes
replace_loop zero left pattern replacement = none
replace_loop (suc fuel) left pattern replacement = elim (search_pattern pattern left) [
  | none ↦ some left
  | some (before, behind) ↦ elim (replace_loop fuel behind pattern replacement) [
    | none ↦ none
    | some result ↦ some (before ++ (replacement ++ result))
  ]
]

unfoldable pub string_replace : ℕ → Bytes → Bytes → Bytes → Option Bytes
string_replace fuel [] pattern replacement = some []
string_replace fuel (c ∷ input) pattern replacement =
    replace_loop fuel (c ∷ input) pattern replacement
