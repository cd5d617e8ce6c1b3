-- ===== src/Libvirt/EventLoop.antt =====
-- `EventLoopImpl` of modules/virt/src/libvirt/libvirt.cpp: one function for each section of the code that
-- runs while the mutex of the state is held, and the two threads that take turns: the owner, which
-- starts the loop and destroys it, and the thread of the loop.
pub mod Validity
pub mod Stopping
pub mod Sharing
pub mod Dead
mod Examples
use gar_virt.Prelude.{if◌then◌else◌, ℕ, ◌≡◌, Bool, Option, none, some, List, [], ◌∷◌}

pub data RunLoopState : Type 0 where
  stopped starting running stopping : RunLoopState

-- Where the loop's thread is: not there, before its first section, before the test of the state, in
-- `virEventRunDefaultImpl`, before its last section, at its end; `aborted` is `std::abort`.
pub data LoopThread : Type 0 where
  absent created checking dispatching ending finished aborted : LoopThread

-- Where the owner is: before `start`, between the two sections of `start`, behind it, at the first and
-- at the second wait of `stop_loop`, at the join, behind the destructor.
pub data Owner : Type 0 where
  fresh launching alive stop_first stop_second joining destroyed : Owner

-- `stop_event` is the timeout that makes the loop look at its state each second.
pub record EventLoop : Type 0 where
  pub state : RunLoopState
  pub thread : LoopThread
  pub owner : Owner
  pub stop_event : Option ℕ

-- `create`, as far as `register_event_handlers`; it fails for a negative id.
unfoldable pub register_event_handlers : Option ℕ → Option EventLoop
register_event_handlers none = none
register_event_handlers (some id) =
    some record { state = stopped; thread = absent; owner = fresh; stop_event = some id }

-- The sections of `start`; `starts` says if the thread can be started.
unfoldable pub start_enter : EventLoop → EventLoop
start_enter l = record l { state = starting; owner = launching }

unfoldable pub start_thread : Bool → EventLoop → EventLoop
start_thread starts l =
    if starts
    then record l { thread = created; owner = alive }
    else record l { state = stopped; owner = stop_first }

-- The sections of `run_loop`.
unfoldable pub run_enter : EventLoop → EventLoop
run_enter l = elim l.state [
  | starting ↦ record l { state = running; thread = checking }
  | stopped ↦ record l { thread = aborted }
  | running ↦ record l { thread = aborted }
  | stopping ↦ record l { thread = aborted }
]

unfoldable pub run_check : EventLoop → EventLoop
run_check l = elim l.state [
  | running ↦ record l { thread = dispatching }
  | stopped ↦ record l { thread = ending }
  | starting ↦ record l { thread = ending }
  | stopping ↦ record l { thread = ending }
]

-- `virEventRunDefaultImpl` returns; `fine` if its result is not negative.
unfoldable pub run_dispatched : Bool → EventLoop → EventLoop
run_dispatched fine l = record l { thread = if fine then checking else ending }

unfoldable pub run_end : EventLoop → EventLoop
run_end l = record l { state = stopped; thread = finished }

-- The sections of `stop_loop`; `none` while the wait goes on.
unfoldable pub stop_begin : EventLoop → Option EventLoop
stop_begin l = elim l.state [
  | starting ↦ none
  | stopped ↦ some record l { owner = joining }
  | running ↦ some record l { state = stopping; owner = stop_second }
  | stopping ↦ some record l { state = stopping; owner = stop_second }
]

unfoldable pub stop_wait : EventLoop → Option EventLoop
stop_wait l = elim l.state [
  | stopped ↦ some record l { owner = joining }
  | starting ↦ none
  | running ↦ none
  | stopping ↦ none
]

-- The join, with `unregister_event_handlers` behind it.
unfoldable pub join_thread : EventLoop → Option EventLoop
join_thread l = elim l.thread [
  | absent ↦ some record l { owner = destroyed; stop_event = none }
  | finished ↦ some record l { owner = destroyed; stop_event = none }
  | created ↦ none
  | checking ↦ none
  | dispatching ↦ none
  | ending ↦ none
  | aborted ↦ none
]

-- What happens next: a step of the owner, with what decides it, or one of the loop's thread.
pub data Turn : Type 0 where
  owner_turn loop_turn : Bool → Turn

-- The owner's turn; `alive` is the time until the destructor begins.
unfoldable pub owner_next : Bool → EventLoop → Owner → Option EventLoop
unfolding start_enter start_thread stop_begin stop_wait join_thread
owner_next b l fresh = some (start_enter l)
owner_next b l launching = some (start_thread b l)
owner_next b l alive = some record l { owner = stop_first }
owner_next b l stop_first = stop_begin l
owner_next b l stop_second = stop_wait l
owner_next b l joining = join_thread l
owner_next b l destroyed = none

unfoldable pub loop_next : Bool → EventLoop → LoopThread → Option EventLoop
unfolding run_enter run_check run_dispatched run_end
loop_next b l absent = none
loop_next b l created = some (run_enter l)
loop_next b l checking = some (run_check l)
loop_next b l dispatching = some (run_dispatched b l)
loop_next b l ending = some (run_end l)
loop_next b l finished = none
loop_next b l aborted = none

unfoldable pub next : EventLoop → Turn → Option EventLoop
unfolding owner_next loop_next
next l (owner_turn b) = owner_next b l l.owner
next l (loop_turn b) = loop_next b l l.thread

-- The loops that any sequence of turns leads to.
pub data Reach : EventLoop → Type 0 where
  at_start : (id : ℕ) (l : EventLoop) → register_event_handlers (some id) ≡ some l → Reach l
  after : (l : EventLoop) (t : Turn) (l' : EventLoop) → Reach l → next l t ≡ some l' → Reach l'

-- The loop after a sequence of turns, if each of them is possible.
unfoldable pub follow : EventLoop → List Turn → Option EventLoop
unfolding next
follow l [] = some l
follow l (t ∷ turns) = elim (next l t) [ none ↦ none | some l' ↦ follow l' turns ]
