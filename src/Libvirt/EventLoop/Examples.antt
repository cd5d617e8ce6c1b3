-- ===== src/Libvirt/EventLoop/Examples.antt =====
-- Runs of an event loop.
use gar_virt.Prelude.{All, ℕ, ◌<◌, ◌≡◌, refl, ◌≢◌, ◌⊎◌, true, false, some, [], ◌∷◌, arith}
use gar_virt.Libvirt.EventLoop.{
  stopped, starting, running, absent, created, checking, dispatching, ending, finished, aborted,
  fresh, launching, alive, stop_first, destroyed, EventLoop, register_event_handlers, start_enter,
  start_thread, run_enter, run_check, run_dispatched, run_end, owner_turn, loop_turn, Turn,
  owner_next, loop_next, next, at_start, after, Reach,
}
use gar_virt.Libvirt.EventLoop.Validity.{never_aborts}
use gar_virt.Libvirt.EventLoop.Sharing.{get, Sharing, gets, step, at_begin, onward, WhileHeld}
use gar_virt.Libvirt.EventLoop.Dead.{shared, ended, failed, drop_all, dead_loop_stays}
use gar_virt.Libvirt.EventLoop.Stopping.{Destroying, turns_left, EndsBy, measure, Told, loop_stops}

abbrev made : EventLoop
made = record { state = stopped; thread = absent; owner = fresh; stop_event = some 1 }

-- The loop is started, and destroyed before its thread has begun.
abbrev early : EventLoop
early = record { state = starting; thread = created; owner = stop_first; stop_event = some 1 }

abbrev entering : EventLoop
entering = record { state = starting; thread = absent; owner = launching; stop_event = some 1 }

abbrev started : EventLoop
started = record { state = starting; thread = created; owner = alive; stop_event = some 1 }

started-Reach : Reach started
unfolding next owner_next start_enter start_thread register_event_handlers
started-Reach =
    after entering (owner_turn true) started
      (after made (owner_turn true) entering (at_start 1 made refl) refl) refl

early-Reach : Reach early
unfolding next owner_next
early-Reach = after started (owner_turn true) early started-Reach refl

never_aborts_example :
    (early.thread ≢ aborted)
    × (early.owner ≡ destroyed
        → (early.state ≡ stopped) × ((early.thread ≡ absent) ⊎ (early.thread ≡ finished)))
never_aborts_example = never_aborts early early-Reach

loop_stops_example :
    (Destroying early.owner → EndsBy early (turns_left early.owner early.thread))
    × ((t : Turn) (l' : EventLoop)
        → Told early.owner
        → next early t ≡ some l'
        → measure l' < measure early)
loop_stops_example = loop_stops early early-Reach

-- A loop whose first round fails.
abbrev checked : EventLoop
checked = record started { state = running; thread = checking }

abbrev inside : EventLoop
inside = record started { state = running; thread = dispatching }

abbrev failing : EventLoop
failing = record started { state = running; thread = ending }

abbrev dead : EventLoop
dead = record started { state = stopped; thread = finished }

dead-Reach : Reach dead
unfolding next loop_next run_enter run_check run_dispatched run_end
dead-Reach =
    after failing (loop_turn true) dead
      (after inside (loop_turn false) failing
        (after checked (loop_turn true) inside
          (after started (loop_turn true) checked started-Reach refl) refl)
        refl)
      refl

-- Another hypervisor gets the loop that has failed.
abbrev second : Sharing
second = step (failed inside 1) (gets (some started))

second-WhileHeld : WhileHeld (failed inside 1) (gets (some started) ∷ []) second
unfolding get next loop_next run_dispatched run_end
second-WhileHeld = onward at_begin (gets (some started)) tt (omega arith)

dead_loop_stays_example :
    All (λ r. r ≡ some (ended inside)) second.handed
    × ((n : ℕ) × (0 < n)
        × (second.weak_instance ≡ some record { loop = ended inside; holders = n })
        × (step (drop_all n second) (gets (some started))
            ≡ shared started 1 (some started ∷ second.handed)))
dead_loop_stays_example =
    dead_loop_stays inside started 1 {v = second} refl (omega arith) second-WhileHeld
