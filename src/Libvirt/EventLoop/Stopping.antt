-- ===== src/Libvirt/EventLoop/Stopping.antt =====
-- The event loop can be stopped.
use gar_virt.Prelude.{
  length, ℕ, ◌+◌, ◌≤◌, ◌<◌, ◌≡◌, refl, ◌⊎◌, Bool, true, Option, none, some, List, [], ◌∷◌, ◌++◌,
  arith,
}
use gar_virt.Libvirt.EventLoop.{
  stopped, starting, running, stopping, RunLoopState, absent, created, checking, dispatching,
  ending, finished, aborted, LoopThread, stop_first, stop_second, joining, destroyed, Owner,
  EventLoop, start_enter, start_thread, run_enter, run_check, run_dispatched, run_end, stop_begin,
  stop_wait, join_thread, owner_turn, loop_turn, Turn, owner_next, loop_next, next, Reach, follow,
}
use gar_virt.Libvirt.EventLoop.Validity.{expected, Reach-IsValid}

-- The owner is in the destructor.
abbrev pub Destroying : Owner → Type 0
Destroying o = (o ≡ stop_first) ⊎ (o ≡ stop_second) ⊎ (o ≡ joining)

-- A way to the end of the destructor, by the place of the thread.
abbrev pub loop_turns : LoopThread → List Turn
loop_turns created = loop_turn true ∷ []
loop_turns thread = []

abbrev pub rest_turns : LoopThread → List Turn
rest_turns absent = []
rest_turns created = loop_turn true ∷ loop_turn true ∷ []
rest_turns checking = loop_turn true ∷ loop_turn true ∷ []
rest_turns dispatching = loop_turn true ∷ loop_turn true ∷ loop_turn true ∷ []
rest_turns ending = loop_turn true ∷ []
rest_turns finished = []
rest_turns aborted = []

abbrev pub turns_left : Owner → LoopThread → List Turn
turns_left stop_first absent = owner_turn true ∷ owner_turn true ∷ []
turns_left stop_first finished = owner_turn true ∷ owner_turn true ∷ []
turns_left stop_first thread =
    loop_turns thread
    ++ (owner_turn true ∷ (rest_turns thread ++ (owner_turn true ∷ owner_turn true ∷ [])))
turns_left stop_second thread = rest_turns thread ++ (owner_turn true ∷ owner_turn true ∷ [])
turns_left owner thread = owner_turn true ∷ []

-- The destructor, with the loop stopped and the timeout removed.
abbrev pub EndsBy : EventLoop → List Turn → Type 0
EndsBy l turns =
    (l' : EventLoop) × (follow l turns ≡ some l')
    × (l'.owner ≡ destroyed)
    × (l'.stop_event ≡ none)
    × (length turns ≤ 6)

ends_by :
    (s : RunLoopState) (th : LoopThread) (o : Owner) (id : Option ℕ)
    → expected o th ≡ some s
    → Destroying o
    → EndsBy record { state = s; thread = th; owner = o; stop_event = id } (turns_left o th)
unfolding follow next owner_next loop_next start_enter start_thread stop_begin stop_wait join_thread
    run_enter run_check run_dispatched run_end
ends_by stopped absent stop_first id valid d = (_, refl, refl, refl, omega arith)
ends_by starting created stop_first id valid d = (_, refl, refl, refl, omega arith)
ends_by running checking stop_first id valid d = (_, refl, refl, refl, omega arith)
ends_by running dispatching stop_first id valid d = (_, refl, refl, refl, omega arith)
ends_by running ending stop_first id valid d = (_, refl, refl, refl, omega arith)
ends_by stopped finished stop_first id valid d = (_, refl, refl, refl, omega arith)
ends_by stopping checking stop_second id valid d = (_, refl, refl, refl, omega arith)
ends_by stopping dispatching stop_second id valid d = (_, refl, refl, refl, omega arith)
ends_by stopping ending stop_second id valid d = (_, refl, refl, refl, omega arith)
ends_by stopped finished stop_second id valid d = (_, refl, refl, refl, omega arith)
ends_by stopped absent joining id valid d = (_, refl, refl, refl, omega arith)
ends_by stopped finished joining id valid d = (_, refl, refl, refl, omega arith)
ends_by s th o id valid d = absurd (ground arith)

-- The turns that are left once the owner waits for the loop to stop.
abbrev pub thread_measure : LoopThread → ℕ
thread_measure dispatching = 3
thread_measure checking = 2
thread_measure ending = 1
thread_measure thread = 0

abbrev pub owner_measure : Owner → ℕ
owner_measure stop_second = 2
owner_measure joining = 1
owner_measure owner = 0

abbrev pub measure : EventLoop → ℕ
measure l = owner_measure l.owner + thread_measure l.thread

-- The owner has told the loop to stop, or found it stopped.
abbrev pub Told : Owner → Type 0
Told o = (o ≡ stop_second) ⊎ (o ≡ joining)

owner-measure :
    (b : Bool) (s : RunLoopState) (th : LoopThread) (o : Owner) (id : Option ℕ) (l' : EventLoop)
    → Told o
    → owner_next b record { state = s; thread = th; owner = o; stop_event = id } o ≡ some l'
    → measure l' < owner_measure o + thread_measure th
unfolding owner_next stop_wait join_thread
owner-measure b s th stop_second id l' told e = ground arith
owner-measure b s th joining id l' told e = ground arith
owner-measure b s th o id l' told e = absurd (ground arith)

loop-measure :
    (b : Bool) (s : RunLoopState) (th : LoopThread) (o : Owner) (id : Option ℕ) (l' : EventLoop)
    → Told o
    → expected o th ≡ some s
    → loop_next b record { state = s; thread = th; owner = o; stop_event = id } th ≡ some l'
    → measure l' < owner_measure o + thread_measure th
unfolding loop_next run_enter run_check run_dispatched run_end
loop-measure b s th stop_second id l' told valid e = ground arith
loop-measure b s th joining id l' told valid e = ground arith
loop-measure b s th o id l' told valid e = absurd (ground arith)

-- Stopping a loop, as its destructor does it, from any reachable state. In the destructor at most six
-- turns, each of them possible, lead to its end, with the timeout of the loop removed. And once the
-- loop is told to stop every turn makes a measure smaller, whoever takes it, so none is endless, as
-- long as each call of `virEventRunDefaultImpl` returns.
pub loop_stops :
    (l : EventLoop)
    → Reach l
    → (Destroying l.owner → EndsBy l (turns_left l.owner l.thread))
      × ((t : Turn) (l' : EventLoop) → Told l.owner → next l t ≡ some l' → measure l' < measure l)
unfolding next
loop_stops l r = (ends_by l.state l.thread l.owner l.stop_event (Reach-IsValid l r), smaller)
  where
    smaller :
        (t : Turn) (l' : EventLoop) → Told l.owner → next l t ≡ some l' → measure l' < measure l
    smaller (owner_turn b) l' told e =
        owner-measure b l.state l.thread l.owner l.stop_event l' told e
    smaller (loop_turn b) l' told e =
        loop-measure b l.state l.thread l.owner l.stop_event l' told (Reach-IsValid l r) e
