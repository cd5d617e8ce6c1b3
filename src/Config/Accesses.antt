-- ===== src/Config/Accesses.antt =====
-- What a node of the tree of a file has behind a key, and the accesses that find it.
use gar_virt.Prelude.{
  ltb, Bool-cases, Bytes, codes, ok, err, Result, bind-eq-ok, ℕ, max, ◌≡◌, ap, subst, ◌∙◌, inl, inr,
  Option, none, some, List, [], ◌∷◌,
}
use gar_virt.Numeric.{above_max, CastError, pos, negsuc, ℤ, cast_to_unsigned}
use gar_virt.Config.{ConfigError, System, of_cast, number}
use gar_virt.Config.Loading.{
  YamlLibrary, or_bad, load_all, string_at, int_at, number_at, emit_at, labels_at,
}

pub ok_injective : {E A : Type 0} {a b : A} → ◌≡◌ {A = Result E A} (ok a) (ok b) → a ≡ b
ok_injective e = cc

pub or_bad-eq-ok : {A : Type 0} (o : Option A) (a : A) → or_bad o ≡ ok a → o ≡ some a
or_bad-eq-ok none a e = cc
or_bad-eq-ok (some b) a e = ap some (ok_injective e)

cast-eq-ok : (z : ℤ) (max n : ℕ) → cast_to_unsigned max z ≡ ok n → z ≡ pos n
unfolding cast_to_unsigned
cast-eq-ok (negsuc k) max n e = cc
cast-eq-ok (pos k) max n e = elim (Bool-cases (ltb max k)) [
  | inl big ↦ (let no : err above_max ≡ ok n = rw big at e in cc)
  | inr small ↦ (let yes_ : ok k ≡ ok n = rw small at e in cc)
]

of_cast-eq-ok : (r : Result CastError ℕ) (n : ℕ) → of_cast r ≡ ok n → r ≡ ok n
of_cast-eq-ok (ok m) n e = cc
of_cast-eq-ok (err x) n e = cc

number-eq-ok : (z : ℤ) (n : ℕ) → number z ≡ ok n → z ≡ pos n
number-eq-ok z n e =
    cast-eq-ok z 18446744073709551615 n
      (of_cast-eq-ok (cast_to_unsigned 18446744073709551615 z) n e)

-- Each element of one list goes with that of the other at its place.
abbrev pub Each : {N A : Type 0} → (N → A → Type 0) → List N → List A → Type 0
Each R [] [] = Unit
Each R [] (a ∷ items) = ⊥
Each R (n ∷ nodes) [] = ⊥
Each R (n ∷ nodes) (a ∷ items) = R n a × Each R nodes items

pub load_all-Each :
    {N A : Type 0} (f : N → Result ConfigError A) (R : N → A → Type 0)
    → ((n : N) (a : A) → f n ≡ ok a → R n a)
    → (nodes : List N) (items : List A) → load_all f nodes ≡ ok items
    → Each R nodes items
load_all-Each f R each [] [] e = tt
load_all-Each f R each [] (a ∷ items) e = cc
load_all-Each f R each (n ∷ nodes) items e =
    let (b, e1, rest) = bind-eq-ok (f n) _ e in
    let (more, e2, e3) = bind-eq-ok (load_all f nodes) _ rest in
    let built : b ∷ more ≡ items = cc e3 in
    subst (Each R (n ∷ nodes)) built (each n b e1, load_all-Each f R each nodes more e2)

module _ {Node : Type 0} (yaml : YamlLibrary Node) where
  abbrev pub HasString : Node → Bytes → Bytes → Type 0
  HasString n key s =
      (child : Node) × (yaml.get n key ≡ some child) × (yaml.as_string child ≡ some s)

  abbrev pub HasNumber : Node → Bytes → ℕ → Type 0
  HasNumber n key m =
      (child : Node) × (yaml.get n key ≡ some child) × (yaml.as_int child ≡ some (pos m))

  abbrev pub HasText : Node → Bytes → Bytes → Type 0
  HasText n key s = (child : Node) × (yaml.get n key ≡ some child) × (yaml.emit child ≡ some s)

  -- The elements of the node behind a key, each in its place. (The library gives a node without elements
  -- for a missing key.)
  abbrev pub HasEach : {A : Type 0} → (Node → A → Type 0) → Node → Bytes → List A → Type 0
  HasEach R n key items =
      (child : Node) × (yaml.get n key ≡ some child) × Each R (yaml.elements child) items

  module _ (toupper : ℕ → ℕ) (sys : System) (parent_path : Bytes → Bytes) where
    pub string_at-HasString :
        (n : Node) (key s : Bytes)
        → string_at yaml toupper sys parent_path n key ≡ ok s
        → HasString n key s
    string_at-HasString n key s e =
        let (child, found, r) = bind-eq-ok (or_bad (yaml.get n key)) _ e in
        (child, or_bad-eq-ok (yaml.get n key) child found, or_bad-eq-ok (yaml.as_string child) s r)

    pub emit_at-HasText :
        (n : Node) (key s : Bytes)
        → emit_at yaml toupper sys parent_path n key ≡ ok s
        → HasText n key s
    emit_at-HasText n key s e =
        let (child, found, r) = bind-eq-ok (or_bad (yaml.get n key)) _ e in
        (child, or_bad-eq-ok (yaml.get n key) child found, or_bad-eq-ok (yaml.emit child) s r)

    pub number_at-HasNumber :
        (n : Node) (key : Bytes) (m : ℕ)
        → number_at yaml toupper sys parent_path n key ≡ ok m
        → HasNumber n key m
    number_at-HasNumber n key m e =
        let (z, e1, e2) = bind-eq-ok (int_at yaml toupper sys parent_path n key) number e in
        let (child, found, r) = bind-eq-ok (or_bad (yaml.get n key)) _ e1 in
        (
          child,
          or_bad-eq-ok (yaml.get n key) child found,
          or_bad-eq-ok (yaml.as_int child) z r ∙ ap some (number-eq-ok z m e2),
        )

    pub labels_at-HasEach :
        (n : Node) (labels : List Bytes)
        → labels_at yaml toupper sys parent_path n ≡ ok labels
        → HasEach (λ l s. yaml.as_string l ≡ some s) n (codes "labels") labels
    labels_at-HasEach n labels e =
        let (child, found, r) = bind-eq-ok (or_bad (yaml.get n (codes "labels"))) _ e in
        let (size_, sized, r') = bind-eq-ok (or_bad (yaml.size child)) _ r in
        (
          child,
          or_bad-eq-ok (yaml.get n (codes "labels")) child found,
          load_all-Each (λ l. or_bad (yaml.as_string l)) (λ l s. yaml.as_string l ≡ some s)
              (λ l s. or_bad-eq-ok (yaml.as_string l) s) (yaml.elements child) labels r',
        )
