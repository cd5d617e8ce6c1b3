-- ===== src/Text/Split.antt =====
-- Splitting at a separator.
use gar_virt.Prelude.{
  ◌==◌, Bool-cases, Bytes, All, All-append, ℕ, ◌≡◌, refl, sym, ap, subst, ◌∙◌, ◌↔◌, inl, inr, true,
  false, List, [], ◌∷◌, ◌++◌, append_assoc, append-nil, arith,
}
use gar_virt.Text.{split_loop, string_split_with_remainder, last_token, string_split}

-- The tokens, each with a separator behind it, and then the rest.
abbrev pub join : ℕ → List Bytes → Bytes → Bytes
join separator [] rest = rest
join separator (token ∷ items) rest = token ++ (separator ∷ join separator items rest)

abbrev pub Lacks : ℕ → Bytes → Type 0
Lacks separator = All (λ c. (c == separator) ≡ false)

split_loop-same :
    (separator : ℕ) (token : Bytes) (c : ℕ) (input : Bytes)
    → (c == separator) ≡ true
    → split_loop separator token (c ∷ input)
      ≡ (token ∷ (split_loop separator [] input).0, (split_loop separator [] input).1)
unfolding split_loop
split_loop-same separator token c input e = rw (e, split_loop) refl

split_loop-other :
    (separator : ℕ) (token : Bytes) (c : ℕ) (input : Bytes)
    → (c == separator) ≡ false
    → split_loop separator token (c ∷ input) ≡ split_loop separator (token ++ c ∷ []) input
unfolding split_loop
split_loop-other separator token c input e = rw (e, split_loop) refl

split_loop-token :
    (separator : ℕ) (token piece input : Bytes)
    → Lacks separator piece
    → split_loop separator token (piece ++ input) ≡ split_loop separator (token ++ piece) input
split_loop-token separator token [] input lacks =
    ap (λ t. split_loop separator t input) (sym (append-nil token))
split_loop-token separator token (c ∷ piece) input (differs, lacks) =
    split_loop-other separator token c (piece ++ input) differs
    ∙ split_loop-token separator (token ++ c ∷ []) piece input lacks
    ∙ ap (λ t. split_loop separator t input) (append_assoc token (c ∷ []) piece)

split_loop-join :
    (separator : ℕ) (items : List Bytes) (rest : Bytes)
    → All (Lacks separator) items
    → Lacks separator rest
    → split_loop separator [] (join separator items rest) ≡ (items, rest)
unfolding split_loop
split_loop-join separator [] rest all lacks =
    ap (split_loop separator []) (sym (append-nil rest))
    ∙ split_loop-token separator [] rest [] lacks
split_loop-join separator (token ∷ items) rest (here, all) lacks =
    let more = split_loop-join separator items rest all lacks in
    let same_char : (separator == separator) ≡ true = ground arith in
    split_loop-token separator [] token (separator ∷ join separator items rest) here
    ∙ split_loop-same separator token separator (join separator items rest) same_char
    ∙ ap (λ (xs, r). (token ∷ xs, r)) more

-- A split of a string.
abbrev Splits : ℕ → Bytes → List Bytes × Bytes → Type 0
Splits separator input (items, rest) =
    (join separator items rest ≡ input) × All (Lacks separator) items × Lacks separator rest

join-split_loop :
    (separator : ℕ) (token input : Bytes)
    → Lacks separator token
    → Splits separator (token ++ input) (split_loop separator token input)
unfolding split_loop
join-split_loop separator token [] lacks = (sym (append-nil token), tt, lacks)
join-split_loop separator token (c ∷ input) lacks = elim (Bool-cases (c == separator)) [
  | inl same_char ↦
      let (joined, all, rest) = join-split_loop separator [] input tt in
      let is_separator : separator ≡ c = ground arith in
      subst (Splits separator (token ++ c ∷ input))
        (sym (split_loop-same separator token c input same_char))
        (
          ap (λ s. token ++ (separator ∷ s)) joined ∙ ap (λ d. token ++ (d ∷ input)) is_separator,
          (lacks, all),
          rest,
        )
  | inr differs ↦
      let longer = All-append (λ d. (d == separator) ≡ false) token (c ∷ []) lacks (differs, tt) in
      let (joined, all, rest) = join-split_loop separator (token ++ c ∷ []) input longer in
      subst (Splits separator (token ++ c ∷ input))
        (sym (split_loop-other separator token c input differs))
        (joined ∙ append_assoc token (c ∷ []) input, all, rest)
]

-- `string_split_with_remainder` gives the one way to write a string as tokens without the separator,
-- a separator behind each, and a remainder without it: a list of tokens and a remainder are its result
-- exactly if they lack the separator and joined are the input.
pub split_with_remainder_iff :
    (input : Bytes) (separator : ℕ) (items : List Bytes) (rest : Bytes)
    → (string_split_with_remainder input separator ≡ (items, rest))
      ↔ ((join separator items rest ≡ input) × All (Lacks separator) items × Lacks separator rest)
unfolding string_split_with_remainder
split_with_remainder_iff input separator items rest = (
  (λ e. subst (Splits separator input) e (join-split_loop separator [] input tt)),
  (λ (joined, all, lacks).
      ap (split_loop separator []) (sym joined) ∙ split_loop-join separator items rest all lacks),
)

-- `string_split` gives the tokens of `string_split_with_remainder`, and its remainder as the last one if it
-- is not empty. So splitting what was joined gives the tokens back, whether or not a separator
-- is behind the last one, as long as that one is not empty.
pub split-join :
    (separator : ℕ) (items : List Bytes) (rest : Bytes)
    → All (Lacks separator) items
    → Lacks separator rest
    → string_split (join separator items rest) separator ≡ items ++ last_token rest
unfolding string_split
split-join separator items rest all lacks = rw (split_loop-join separator items rest all lacks) refl
