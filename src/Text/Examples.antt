-- ===== src/Text/Examples.antt =====
-- Runs on concrete strings.
use gar_virt.Prelude.{
  ltb, if◌then◌else◌, Bytes, codes, All, ℕ, ◌-◌, ◌≡◌, refl, ◌↔◌, true, ◌&&◌, none, some, List, [],
  ◌∷◌, ◌++◌, map, arith,
}
use gar_virt.Text.{
  string_trim, less, same, string_compare_ci, string_starts_with, ends_loop, string_ends_with,
  string_split_with_remainder, search_pattern, replace_loop, string_replace,
}
use gar_virt.Text.Trim.{In, trim_blank, Trimmed, trim-Trimmed}
use gar_virt.Text.Compare.{flipped, compare_order}
use gar_virt.Text.Affix.{ends_with_iff}
use gar_virt.Text.Split.{join, Lacks, split_with_remainder_iff}
use gar_virt.Text.Replace.{replace_empty_pattern, Replaced, replace-Replaced}

abbrev blanks : List ℕ
blanks = 32 ∷ 10 ∷ []

-- `toupper` on ASCII.
abbrev upper : ℕ → ℕ
upper c = if ltb 96 c && ltb c 123 then c - 32 else c

not_blank : ¬ All (In blanks) (codes " a b \n")
not_blank (space, (letter, rest)) = cc

trim-Trimmed_example : Trimmed blanks (codes " a b \n") (string_trim (codes " a b \n") blanks)
trim-Trimmed_example = trim-Trimmed (codes " a b \n") blanks not_blank

trim_ab : string_trim (codes " a b \n") blanks ≡ codes "a b"
unfolding string_trim
trim_ab = refl

trim_blank_example : string_trim (codes "  \n") blanks ≡ codes "  \n"
trim_blank_example = trim_blank (codes "  \n") blanks (refl, (refl, (refl, tt)))

compare_order_example :
    ((string_compare_ci upper (codes "Linux") (codes "linux") ≡ same)
      ↔ (map upper (codes "Linux") ≡ map upper (codes "linux")))
    × (string_compare_ci upper (codes "linux") (codes "Linux")
        ≡ flipped (string_compare_ci upper (codes "Linux") (codes "linux")))
    × (string_compare_ci upper (codes "Linux") (codes "linux") ≡ less
        → string_compare_ci upper (codes "linux") (codes "macOS") ≡ less
        → string_compare_ci upper (codes "Linux") (codes "macOS") ≡ less)
compare_order_example = compare_order upper (codes "Linux") (codes "linux") (codes "macOS")

linux_is_linux : string_compare_ci upper (codes "Linux") (codes "LINUX") ≡ same
unfolding string_compare_ci
linux_is_linux = refl

-- "bar" is said to end in "xr".
ends_with_iff_example :
    (string_ends_with (codes "bar") (codes "xr") ≡ some true)
    ↔ ((before : Bytes) × (x : ℕ) × (codes "bar" ≡ before ++ x ∷ codes "r"))
ends_with_iff_example = ends_with_iff (codes "bar") 120 (codes "r")

bar_ends_in_xr : string_ends_with (codes "bar") (codes "xr") ≡ some true
unfolding string_ends_with ends_loop
bar_ends_in_xr = refl

split_with_remainder_iff_example :
    (string_split_with_remainder (codes "a\n\nb") 10 ≡ (codes "a" ∷ [] ∷ [], codes "b")) ↔ (
      (join 10 (codes "a" ∷ [] ∷ []) (codes "b") ≡ codes "a\n\nb")
      × All (Lacks 10) (codes "a" ∷ [] ∷ [])
      × Lacks 10 (codes "b"))
split_with_remainder_iff_example =
    split_with_remainder_iff (codes "a\n\nb") 10 (codes "a" ∷ [] ∷ []) (codes "b")

replace-Replaced_example :
    (out : Bytes) × (string_replace 9 (codes "a-b") (codes "-") (codes "\\") ≡ some out)
    × Replaced (codes "-") (codes "\\") (codes "a-b") out
replace-Replaced_example = replace-Replaced 9 45 [] (codes "a-b") (codes "\\") (omega arith)

replace_dash : string_replace 9 (codes "a-b") (codes "-") (codes "\\") ≡ some (codes "a\\b")
unfolding string_replace replace_loop search_pattern string_starts_with
replace_dash = refl

replace_empty_pattern_example : string_replace 50 (codes "a") [] (codes "b") ≡ none
replace_empty_pattern_example = replace_empty_pattern 50 97 [] (codes "b")
