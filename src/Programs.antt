-- ===== src/Programs.antt =====
-- Programs that talk to their surroundings: a program makes requests, and an environment answers them. A
-- component says what its requests and their answers are.
pub mod Safety
use gar_virt.Prelude.{ok, err, Result, Option, none, some, List, [], ◌∷◌}

-- `running` is a loop that has used up its fuel, `crashed` undefined behaviour.
pub data Prog (Request : Type 0) (Answer : Request → Type 0) (A : Type 0) : Type 0 where
  ret : A → Prog Request Answer A
  call : (q : Request) → (Answer q → Prog Request Answer A) → Prog Request Answer A
  running crashed : Prog Request Answer A

pub data Ending (A : Type 0) : Type 0 where
  returned : A → Ending A
  still_running undefined : Ending A

module _ {Request : Type 0} {Answer : Request → Type 0} where
  infixl 5 ◌>>=◌
  abbrev pub ◌>>=◌ :
      {A B : Type 0} → Prog Request Answer A → (A → Prog Request Answer B) → Prog Request Answer B
  ret a >>= f = f a
  call q k >>= f = call q (λ r. k r >>= f)
  running >>= f = running
  crashed >>= f = crashed

  abbrev pub request : (q : Request) → Prog Request Answer (Answer q)
  request q = call q ret

  -- Early returns: an error of the first program is that of the whole.
  abbrev pub on_ok :
      {E A B : Type 0}
      → (A → Prog Request Answer (Result E B))
      → Result E A
      → Prog Request Answer (Result E B)
  on_ok f (ok a) = f a
  on_ok f (err e) = ret (err e)

  abbrev pub and_then :
      {E A B : Type 0}
      → Prog Request Answer (Result E A)
      → (A → Prog Request Answer (Result E B))
      → Prog Request Answer (Result E B)
  and_then m f = m >>= on_ok f

  abbrev pub on_option :
      {A B : Type 0}
      → Prog Request Answer B
      → (A → Prog Request Answer B)
      → Option A
      → Prog Request Answer B
  on_option m f none = m
  on_option m f (some a) = f a

module _ (Request : Type 0) (Answer : Request → Type 0) where
  -- A request with its answer.
  abbrev pub Event : Type 0
  Event = (q : Request) × Answer q

  -- An environment answers a request by what has happened, latest first.
  abbrev pub Environment : Type 0
  Environment = List Event → (q : Request) → Answer q

module _ {Request : Type 0} {Answer : Request → Type 0} where
  -- The events of a run, in their order, and how it ends.
  unfoldable pub run :
      {A : Type 0}
      → Environment Request Answer
      → List (Event Request Answer)
      → Prog Request Answer A
      → List (Event Request Answer) × Ending A
  run env past (ret a) = ([], returned a)
  run env past (call q k) =
      let r = env past q in
      let (events, ending) = run env ((q, r) ∷ past) (k r) in ((q, r) ∷ events, ending)
  run env past running = ([], still_running)
  run env past crashed = ([], undefined)

  -- How a run ends.
  abbrev pub ends :
      {A : Type 0}
      → Environment Request Answer
      → List (Event Request Answer)
      → Prog Request Answer A
      → Ending A
  ends env past m = (run env past m).1
