-- ===== src/Libvirt/EventLoop/Validity.antt =====
-- The state of the event loop goes with the places of its threads, and the loop does not abort.
use gar_virt.Prelude.{ℕ, ◌≡◌, ◌≢◌, ◌⊎◌, Bool, Option, none, some, arith}
use gar_virt.Libvirt.EventLoop.{
  stopped, starting, running, stopping, RunLoopState, absent, created, checking, dispatching,
  ending, finished, aborted, LoopThread, fresh, launching, alive, stop_first, stop_second, joining,
  destroyed, Owner, EventLoop, register_event_handlers, start_enter, start_thread, run_enter,
  run_check, run_dispatched, run_end, stop_begin, stop_wait, join_thread, owner_turn, loop_turn,
  Turn, owner_next, loop_next, next, at_start, after, Reach,
}

-- The state that goes with the places of the owner and the thread, if they go together.
abbrev pub expected : Owner → LoopThread → Option RunLoopState
expected fresh absent = some stopped
expected launching absent = some starting
expected alive created = some starting
expected alive checking = some running
expected alive dispatching = some running
expected alive ending = some running
expected alive finished = some stopped
expected stop_first absent = some stopped
expected stop_first created = some starting
expected stop_first checking = some running
expected stop_first dispatching = some running
expected stop_first ending = some running
expected stop_first finished = some stopped
expected stop_second checking = some stopping
expected stop_second dispatching = some stopping
expected stop_second ending = some stopping
expected stop_second finished = some stopped
expected joining absent = some stopped
expected joining finished = some stopped
expected destroyed absent = some stopped
expected destroyed finished = some stopped
expected owner thread = none

abbrev pub IsValid : EventLoop → Type 0
IsValid l = expected l.owner l.thread ≡ some l.state

owner-IsValid :
    (b : Bool) (s : RunLoopState) (th : LoopThread) (o : Owner) (id : Option ℕ) (l' : EventLoop)
    → expected o th ≡ some s
    → owner_next b record { state = s; thread = th; owner = o; stop_event = id } o ≡ some l'
    → IsValid l'
unfolding owner_next start_enter start_thread stop_begin stop_wait join_thread
owner-IsValid b s th fresh id l' valid e = ground arith
owner-IsValid b s th launching id l' valid e = ground arith
owner-IsValid b s th alive id l' valid e = ground arith
owner-IsValid b s th stop_first id l' valid e = ground arith
owner-IsValid b s th stop_second id l' valid e = ground arith
owner-IsValid b s th joining id l' valid e = ground arith
owner-IsValid b s th destroyed id l' valid e = ground arith

loop-IsValid :
    (b : Bool) (s : RunLoopState) (th : LoopThread) (o : Owner) (id : Option ℕ) (l' : EventLoop)
    → expected o th ≡ some s
    → loop_next b record { state = s; thread = th; owner = o; stop_event = id } th ≡ some l'
    → IsValid l'
unfolding loop_next run_enter run_check run_dispatched run_end
loop-IsValid b s absent o id l' valid e = ground arith
loop-IsValid b s created o id l' valid e = ground arith
loop-IsValid b s checking o id l' valid e = ground arith
loop-IsValid b s dispatching o id l' valid e = ground arith
loop-IsValid b s ending o id l' valid e = ground arith
loop-IsValid b s finished o id l' valid e = ground arith
loop-IsValid b s aborted o id l' valid e = ground arith

pub next-IsValid :
    (l : EventLoop) (t : Turn) (l' : EventLoop) → IsValid l → next l t ≡ some l' → IsValid l'
unfolding next
next-IsValid l (owner_turn b) l' valid e =
    owner-IsValid b l.state l.thread l.owner l.stop_event l' valid e
next-IsValid l (loop_turn b) l' valid e =
    loop-IsValid b l.state l.thread l.owner l.stop_event l' valid e

pub Reach-IsValid : (l : EventLoop) → Reach l → IsValid l
unfolding register_event_handlers
Reach-IsValid l (at_start id l0 e) = ground arith
Reach-IsValid l (after l0 t l1 r e) = next-IsValid l0 t l (Reach-IsValid l0 r) e

-- Over every sequence of turns of the two threads: the loop's thread never comes to `std::abort`; and
-- when the destructor is done the thread is at its end, or was never started, and the loop is stopped.
pub never_aborts :
    (l : EventLoop)
    → Reach l
    → (l.thread ≢ aborted)
      × (l.owner ≡ destroyed → (l.state ≡ stopped) × ((l.thread ≡ absent) ⊎ (l.thread ≡ finished)))
never_aborts l r = go l.owner l.thread (Reach-IsValid l r)
  where
    go :
        (o : Owner) (th : LoopThread)
        → expected o th ≡ some l.state
        → (th ≢ aborted) × (o ≡ destroyed → (l.state ≡ stopped) × ((th ≡ absent) ⊎ (th ≡ finished)))
    go o th valid = ground arith
