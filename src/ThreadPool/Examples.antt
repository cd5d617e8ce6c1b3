-- ===== src/ThreadPool/Examples.antt =====
-- Runs of a thread pool with no fixed workers and two at most, as the machine pool creates it.
use gar_virt.Prelude.{
  length, ◌≤◌, ◌≡◌, refl, ◌↔◌, true, false, none, some, List, [], ◌∷◌, ◌++◌, arith,
}
use gar_virt.Prelude.Words.{inc_size, dec_size, sub_size}
use gar_virt.ThreadPool.{
  running, find, update, erase, new_worker, add_fixed_workers, create, scale_up, put, leaving,
  set_activity, take_front, take_task, finish_task, joined, not_joinable, stop,
}
use gar_virt.ThreadPool.World.{
  World, puts, reaps, takes, finishes, stops, Event, next, here, after, Reach, start,
}
use gar_virt.ThreadPool.Workers.{running_count}
use gar_virt.ThreadPool.Invariant.{workers_bounded}
use gar_virt.ThreadPool.Termination.{dead_worker_terminates}
use gar_virt.ThreadPool.Shutdown.{stop_again, idle_worker_breaks}

abbrev fresh : World
fresh = start (create 8 (some 0) (some 2) [])

-- A task is put, and a new worker takes it; latest event first.
abbrev first_events : List Event
first_events = takes 5 ∷ puts true 5 70 ∷ []

abbrev first : World
first = next (next fresh (puts true 5 70)) (takes 5)

first-Reach : Reach fresh first_events first
unfolding create put scale_up take_task take_front find update sub_size
first-Reach =
    after (after here (puts true 5 70) refl) (takes 5) (new_worker 5 true, refl, refl, refl)

first_state :
    (first.begun ≡ 70 ∷ [])
    × (first.executor.busy_count ≡ 1)
    × ((finish_task 5 first.executor).workers ≡ [])
unfolding create put scale_up take_task take_front finish_task find update erase sub_size inc_size
    dec_size
first_state = (refl, refl, refl)

workers_bounded_example :
    (first.executor.busy_count ≡ running_count first.executor.workers)
    × (first.executor.busy_count ≤ length first.executor.workers)
    × (length first.executor.workers ≤ first.executor.max_thread_count)
    × (first.begun ++ first.executor.queue ≡ first.accepted)
workers_bounded_example =
    workers_bounded 8 (some 0) (some 2) [] (omega arith) (omega arith) first-Reach

stop_again_example :
    ((stop (next first stops).executor).1 ≡ joined) ↔ ((next first stops).executor.workers ≡ [])
unfolding take_task take_front put create scale_up sub_size
stop_again_example = stop_again first here refl

-- Two fixed workers, both waiting.
abbrev pair : World
pair = start (create 2 none none (5 ∷ 6 ∷ []))

idle_worker_breaks_example :
    Reach pair (takes 6 ∷ stops ∷ []) (next (next pair stops) (takes 6))
    × ((take_task 6 (next pair stops).executor).1 ≡ leaving)
    × ((stop (next (next pair stops) (takes 6)).executor).1 ≡ not_joinable)
unfolding create find
idle_worker_breaks_example = idle_worker_breaks pair 6 (new_worker 6 false, refl, refl, refl) refl

-- A fixed worker that has ended its task, and an on-demand one in the second task.
abbrev mixed : World
mixed =
    let one =
      next (next (start (create 8 (some 1) (some 2) (6 ∷ []))) (puts true 5 70)) (takes 6) in
    next (next (next one (puts true 5 71)) (takes 5)) (finishes 6)

dead_worker_terminates_example :
    let v = next (next (next mixed stops) (finishes 5)) (reaps 6) in
    Reach mixed (reaps 6 ∷ finishes 5 ∷ stops ∷ []) v × (v.terminated ≡ true)
unfolding create put scale_up take_task take_front finish_task find update erase sub_size inc_size
    dec_size add_fixed_workers
dead_worker_terminates_example =
    dead_worker_terminates mixed 5 6 (set_activity running (new_worker 5 true)) refl refl refl
      (new_worker 6 false, refl, refl, refl) refl refl (omega arith)
