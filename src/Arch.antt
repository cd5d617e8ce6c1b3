-- ===== src/Arch.antt =====
-- modules/virt/src/arch.cpp.
mod Examples
use gar_virt.Prelude.{
  if◌then◌else◌, Bytes, codes, ok, err, Result, ℕ, ◌≡◌, refl, sym, ap, ◌↔◌, ◌⊎◌, inl, inr, Bool,
  true, false, ◌||◌, List, [], ◌∷◌, map,
}
use gar_virt.Text.{less, same, greater, Sign, is_same, string_compare_ci}
use gar_virt.Text.Compare.{compare_order}

pub data Arch : Type 0 where
  amd64 arm64 : Arch

abbrev pub amd64_names : List Bytes
amd64_names = codes "amd64" ∷ codes "x64" ∷ codes "x86_64" ∷ codes "x86-64" ∷ []

abbrev pub arm64_names : List Bytes
arm64_names = codes "arm64" ∷ codes "aarch64" ∷ []

module _ (toupper : ℕ → ℕ) where
  abbrev pub is_name : Bytes → Bytes → Bool
  is_name name s = is_same (string_compare_ci toupper name s)

  -- The loops over the names.
  abbrev pub is_one_of : Bytes → List Bytes → Bool
  is_one_of name [] = false
  is_one_of name (s ∷ names) = is_name name s || is_one_of name names

  -- The error is the name.
  unfoldable pub from_name : Bytes → Result Bytes Arch
  from_name name =
      if is_one_of name amd64_names
      then ok amd64
      else if is_one_of name arm64_names
      then ok amd64
      else err name

abbrev pub to_name : Arch → Bytes
to_name amd64 = codes "amd64;"
to_name arm64 = codes "arm64;"

or_iff : (a b : Bool) → ((a || b) ≡ true) ↔ ((a ≡ true) ⊎ (b ≡ true))
or_iff true b = ((λ h. inl refl), (λ h. refl))
or_iff false b = ((λ h. inr h), (λ h. elim h [ inl e ↦ cc | inr e ↦ e ]))

module _ (toupper : ℕ → ℕ) where
  -- A name is one of these up to case.
  abbrev pub Among : Bytes → List Bytes → Type 0
  Among name [] = ⊥
  Among name (s ∷ names) = (map toupper name ≡ map toupper s) ⊎ Among name names

  pub is_name-same :
      (name s : Bytes) → (is_name toupper name s ≡ true) ↔ (map toupper name ≡ map toupper s)
  is_name-same name s = go (string_compare_ci toupper name s) refl
    where
      there : string_compare_ci toupper name s ≡ same → map toupper name ≡ map toupper s
      there = (compare_order toupper name s s).0.0

      back : map toupper name ≡ map toupper s → string_compare_ci toupper name s ≡ same
      back = (compare_order toupper name s s).0.1

      go :
          (sign : Sign)
          → string_compare_ci toupper name s ≡ sign
          → (is_name toupper name s ≡ true) ↔ (map toupper name ≡ map toupper s)
      go less e = rw e ((λ h. cc), (λ h. let x = back h in cc))
      go same e = rw e ((λ h. there e), (λ h. refl))
      go greater e = rw e ((λ h. cc), (λ h. let x = back h in cc))

  is_one_of-Among :
      (name : Bytes) (names : List Bytes) → (is_one_of toupper name names ≡ true) ↔ Among name names
  is_one_of-Among name [] = ((λ h. cc), (λ h. absurd h))
  is_one_of-Among name (s ∷ names) =
      let (there, back) = is_one_of-Among name names in
      let (there', back') = is_name-same name s in
      let (split_, join_) = or_iff (is_name toupper name s) (is_one_of toupper name names) in
      (
        (λ h. elim (split_ h) [ inl e ↦ inl (there' e) | inr e ↦ inr (there e) ]),
        (λ h. elim h [ inl e ↦ join_ (inl (back' e)) | inr e ↦ join_ (inr (back e)) ]),
      )

  choose :
      (b c : Bool) (name : Bytes) (arch : Arch)
      → ((if b then ok amd64 else if c then ok amd64 else err name) ≡ ok arch)
        ↔ ((arch ≡ amd64) × ((b ≡ true) ⊎ (c ≡ true)))
  choose true c name arch = ((λ h. (cc, inl refl)), (λ (e, _). ap ok (sym e)))
  choose false true name arch = ((λ h. (cc, inr refl)), (λ (e, _). ap ok (sym e)))
  choose false false name arch = ((λ h. cc), (λ (_, h). elim h [ inl e ↦ cc | inr e ↦ cc ]))

  -- The names that are accepted are the six of the source, in any case, and all of them give `amd64`,
  -- those of `arm64` too.
  pub from_name_iff :
      (name : Bytes) (arch : Arch)
      → (from_name toupper name ≡ ok arch)
        ↔ ((arch ≡ amd64) × (Among name amd64_names ⊎ Among name arm64_names))
  unfolding from_name
  from_name_iff name arch =
      let (there, back) =
        choose (is_one_of toupper name amd64_names) (is_one_of toupper name arm64_names) name
          arch in
      let (a, a') = is_one_of-Among name amd64_names in
      let (b, b') = is_one_of-Among name arm64_names in
      (
        (λ h.
            let (e, found) = there h in (e, elim found [ inl x ↦ inl (a x) | inr x ↦ inr (b x) ])),
        (λ (e, found). back (e, elim found [ inl x ↦ inl (a' x) | inr x ↦ inr (b' x) ])),
      )
