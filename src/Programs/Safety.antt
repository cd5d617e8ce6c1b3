-- ===== src/Programs/Safety.antt =====
-- What a program does whatever the answers: it keeps to the steps of a protocol.
use gar_virt.Prelude.{
  if◌then◌else◌, ok, err, Result, ◌≡◌, refl, Bool, true, false, Option, none, some, List, [], ◌∷◌,
}
use gar_virt.Programs.{
  ret, call, running, crashed, Prog, returned, still_running, undefined, Ending, ◌>>=◌, on_ok,
  and_then, on_option, Event, Environment, run,
}

-- What holds of a program's value, and where it ends, if it returns. `Stuck` is what holds if it does not: `⊥`
-- for a program that is to return.
abbrev pub Holds : {A Phase : Type 0} → Type 0 → (A → Phase → Type 0) → Ending A → Phase → Type 0
Holds Stuck Q (returned a) p = Q a p
Holds Stuck Q still_running p = Stuck
Holds Stuck Q undefined p = Stuck

module _ {Request : Type 0} {Answer : Request → Type 0} {Phase : Type 0}
    (Step : Phase → (q : Request) → Answer q → Phase → Type 0) where
  -- A sequence of events goes from one phase to another.
  pub data Trail : Phase → List (Event Request Answer) → Phase → Type 0 where
    here : (p : Phase) → Trail p [] p
    step :
        (p : Phase) (q : Request) (r : Answer q) (p' : Phase) (events : List (Event Request Answer))
        (p'' : Phase)
        → Step p q r p'
        → Trail p' events p''
        → Trail p ((q, r) ∷ events) p''

module _ {Request : Type 0} {Answer : Request → Type 0} {Phase : Type 0}
    (Step : Phase → (q : Request) → Answer q → Phase → Type 0) (Stuck : Type 0) where
  -- Whatever the answers, a program from a phase keeps to the steps, and `Q` holds if it returns, `Stuck` if not.
  abbrev pub Safe : {A : Type 0} → Prog Request Answer A → Phase → (A → Phase → Type 0) → Type 0
  Safe (ret a) p Q = Q a p
  Safe (call q k) p Q = (r : Answer q) → (p' : Phase) × Step p q r p' × Safe (k r) p' Q
  Safe running p Q = Stuck
  Safe crashed p Q = Stuck

  pub Safe-run :
      {A : Type 0} (Q : A → Phase → Type 0) (env : Environment Request Answer)
      (past : List (Event Request Answer)) (m : Prog Request Answer A) (p : Phase)
      → Safe m p Q
      → (p' : Phase) × Trail Step p (run env past m).0 p' × Holds Stuck Q (run env past m).1 p'
  unfolding run
  Safe-run Q env past (ret a) p safe = (p, here p, safe)
  Safe-run Q env past (call q k) p safe =
      let r = env past q in
      let (p1, s, more) = safe r in
      let (p2, path, holds) = Safe-run Q env ((q, r) ∷ past) (k r) p1 more in
      (p2, step p q r p1 _ p2 s path, holds)
  Safe-run Q env past running p safe = (p, here p, safe)
  Safe-run Q env past crashed p safe = (p, here p, safe)

  pub Safe-bind :
      {A B : Type 0} (Q : A → Phase → Type 0) (R : B → Phase → Type 0) (m : Prog Request Answer A)
      (f : A → Prog Request Answer B) (p : Phase)
      → Safe m p Q
      → ((a : A) (p' : Phase) → Q a p' → Safe (f a) p' R)
      → Safe (m >>= f) p R
  Safe-bind Q R (ret a) f p safe next = next a p safe
  Safe-bind Q R (call q k) f p safe next =
      λ r. let (p', s, more) = safe r in (p', s, Safe-bind Q R (k r) f p' more next)
  Safe-bind Q R running f p safe next = safe
  Safe-bind Q R crashed f p safe next = safe

  pub and_then-Safe :
      {E A B : Type 0} (Q : Result E A → Phase → Type 0) (R : Result E B → Phase → Type 0)
      (m : Prog Request Answer (Result E A)) (f : A → Prog Request Answer (Result E B)) (p : Phase)
      → Safe m p Q
      → ((a : A) (p' : Phase) → Q (ok a) p' → Safe (f a) p' R)
      → ((e : E) (p' : Phase) → Q (err e) p' → R (err e) p')
      → Safe (and_then m f) p R
  and_then-Safe {E} {A} {B} Q R m f p safe next failing = Safe-bind Q R m (on_ok f) p safe go
    where
      go : (res : Result E A) (p' : Phase) → Q res p' → Safe (on_ok f res) p' R
      go (ok a) p' h = next a p' h
      go (err e) p' h = failing e p' h

  pub if-Safe :
      {A : Type 0} (R : A → Phase → Type 0) (b : Bool) (m n : Prog Request Answer A) (p : Phase)
      → (b ≡ true → Safe m p R)
      → (b ≡ false → Safe n p R)
      → Safe (if b then m else n) p R
  if-Safe R true m n p yes_ no_ = yes_ refl
  if-Safe R false m n p yes_ no_ = no_ refl

  pub on_option-Safe :
      {A B : Type 0} (R : B → Phase → Type 0) (o : Option A) (m : Prog Request Answer B)
      (f : A → Prog Request Answer B) (p : Phase)
      → (o ≡ none → Safe m p R)
      → ((a : A) → o ≡ some a → Safe (f a) p R)
      → Safe (on_option m f o) p R
  on_option-Safe R none m f p without with_ = without refl
  on_option-Safe R (some a) m f p without with_ = with_ a refl

  pub Safe-weaken :
      {A : Type 0} (Q R : A → Phase → Type 0) (m : Prog Request Answer A) (p : Phase)
      → Safe m p Q
      → ((a : A) (p' : Phase) → Q a p' → R a p')
      → Safe m p R
  Safe-weaken Q R (ret a) p safe weaker = weaker a p safe
  Safe-weaken Q R (call q k) p safe weaker =
      λ r. let (p', s, more) = safe r in (p', s, Safe-weaken Q R (k r) p' more weaker)
  Safe-weaken Q R running p safe weaker = safe
  Safe-weaken Q R crashed p safe weaker = safe
