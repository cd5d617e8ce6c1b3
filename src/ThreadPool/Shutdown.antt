-- ===== src/ThreadPool/Shutdown.antt =====
-- How the thread pool ends, and what goes wrong in `put` and in a second `stop`.
use gar_virt.Prelude.{
  length, All, ℕ, ◌<◌, ◌≡◌, refl, ap, ◌≢◌, ◌↔◌, ◌⊎◌, inr, Bool, true, false, some, List, [], ◌∷◌,
  ◌++◌, map, arith,
}
use gar_virt.ThreadPool.{
  looping, running, exited, Activity, Worker, Executor, find, update, erase, returned, threw,
  scale_up, put, reap, leaving, again, task, Taken, set_activity, take_front, take_task,
  finish_task, all_joinable, move_out, joined, not_joinable, StopResult, stop, cancel,
}
use gar_virt.ThreadPool.World.{
  World, puts, reaps, takes, finishes, stops, cancels, Event, after_take, next, IsAt, here, after,
  Reach,
}
use gar_virt.ThreadPool.Workers.{length-map_workers, length-update}

-- A worker's thread returns, when it looks for a task, exactly if the pool is cancelled, or it is
-- stopped and the queue is empty: a pool that is stopped and not cancelled drops no task that its
-- workers can still take.
pub take_task-leaving :
    (i : ℕ) (e : Executor)
    → ((take_task i e).1 ≡ leaving) ↔ ((e.cancelled ≡ true) ⊎ ((e.stopped ≡ true) × (e.queue ≡ [])))
unfolding take_task
take_task-leaving i e = front e.queue refl
  where
    front :
        (q : List ℕ)
        → e.queue ≡ q
        → ((take_front i e q).1 ≡ leaving)
          ↔ ((e.cancelled ≡ true) ⊎ ((e.stopped ≡ true) × (e.queue ≡ [])))
    front [] same = unfold take_front in ((λ h. ground arith), (λ h. ground arith))
    front (t ∷ rest) same = unfold take_front in ((λ h. ground arith), (λ h. ground arith))

-- If starting a thread fails, `put` throws, and the task is in the queue all the same, behind the
-- others, for whatever worker comes to look for one.
pub put-threw :
    (starts : Bool) (i work : ℕ) (e : Executor)
    → (put starts i work e).1 ≡ threw
    → (starts ≡ false) × ((put starts i work e).0 ≡ record e { queue = e.queue ++ work ∷ [] })
unfolding put scale_up
put-threw starts i work e h = ground arith

-- After `stop` nothing is queued and no worker is added.
pub put-stop :
    (starts : Bool) (i work : ℕ) (e : Executor)
    → put starts i work (stop e).0 ≡ ((stop e).0, returned)
unfolding put stop
put-stop starts i work e = refl

abbrev IsMovedOut : Worker → Type 0
IsMovedOut w = w.joinable ≡ false

update-IsMovedOut :
    (i : ℕ) (a : Activity) (ws : List Worker)
    → All IsMovedOut ws
    → All IsMovedOut (update i (set_activity a) ws)
unfolding update
update-IsMovedOut i a [] h = tt
update-IsMovedOut i a (w ∷ ws) (h, hs) = ground (arith, update-IsMovedOut i a ws hs)

erase-IsMovedOut : (i : ℕ) (ws : List Worker) → All IsMovedOut ws → All IsMovedOut (erase i ws)
unfolding erase
erase-IsMovedOut i [] h = tt
erase-IsMovedOut i (w ∷ ws) (h, hs) = ground (arith, erase-IsMovedOut i ws hs)

map-IsMovedOut : (ws : List Worker) → All IsMovedOut (map move_out ws)
map-IsMovedOut [] = tt
map-IsMovedOut (w ∷ ws) = (refl, map-IsMovedOut ws)

-- What holds from the first `stop` on.
record IsStopped (w : World) : Type 0 where
  stopped : w.executor.stopped ≡ true
  moved_out : All IsMovedOut w.executor.workers

front-IsStopped :
    (w : World) (i : ℕ) (q : List ℕ)
    → IsStopped w
    → IsStopped (after_take w (take_front i w.executor q))
unfolding take_front
front-IsStopped w i [] h = ground (arith, update-IsMovedOut i exited w.executor.workers h.moved_out)
front-IsStopped w i (t ∷ rest) h = ground (
  arith,
  update-IsMovedOut i exited w.executor.workers h.moved_out,
  update-IsMovedOut i running w.executor.workers h.moved_out,
)

next-IsStopped : (w : World) (e : Event) → IsStopped w → IsStopped (next w e)
unfolding put take_task finish_task reap stop cancel
next-IsStopped w (puts starts i work) h = ground arith
next-IsStopped w (reaps i) h = ground arith
next-IsStopped w (takes i) h = front-IsStopped w i w.executor.queue h
next-IsStopped w (finishes i) h = ground (
  arith,
  update-IsMovedOut i looping w.executor.workers h.moved_out,
  erase-IsMovedOut i w.executor.workers h.moved_out,
)
next-IsStopped w stops h = record { stopped = refl; moved_out = map-IsMovedOut w.executor.workers }
next-IsStopped w cancels h = ground arith

Reach-IsStopped : {w v : World} {es : List Event} → Reach w es v → IsStopped w → IsStopped v
Reach-IsStopped here h = h
Reach-IsStopped (after {v = v} r e _) h = next-IsStopped v e (Reach-IsStopped r h)

join-All : (ws : List Worker) → All IsMovedOut ws → (all_joinable ws ≡ true) ↔ (ws ≡ [])
join-All [] h = ((λ e. refl), (λ e. refl))
join-All (w ∷ ws) (h, hs) = ((λ e. ground arith), (λ e. cc))

-- Once `stop` has run, whatever the threads do after it, and unless the program has terminated: another
-- `stop`, such as the one of the destructor, gets through exactly if no worker is left in the map,
-- and otherwise throws from `join`.
pub stop_again :
    (w : World) {es : List Event} {v : World}
    → Reach (next w stops) es v
    → v.terminated ≡ false
    → ((stop v.executor).1 ≡ joined) ↔ (v.executor.workers ≡ [])
unfolding stop
stop_again w {v = v} r running_on =
    let h =
      Reach-IsStopped r
        (record { stopped = refl; moved_out = map-IsMovedOut w.executor.workers }) in
    let (fwd, back) = join-All v.executor.workers h.moved_out in
    ((λ e. fwd (ground arith)), (λ e. rw (back e)))

pub find-map :
    (i : ℕ) (ws : List Worker) (u : Worker)
    → find i ws ≡ some u
    → find i (map move_out ws) ≡ some (move_out u)
unfolding find
find-map i [] u e = cc
find-map i (w ∷ ws) u e = ground (arith, find-map i ws u)

find-length : (i : ℕ) (ws : List Worker) (u : Worker) → find i ws ≡ some u → 0 < length ws
unfolding find
find-length i [] u e = cc
find-length i (w ∷ ws) u e = omega arith

length-take_front :
    (i : ℕ) (e : Executor) (q : List ℕ) → length (take_front i e q).0.workers ≡ length e.workers
unfolding take_front
length-take_front i e [] = ground (arith, length-update i (set_activity exited) e.workers)
length-take_front i e (t ∷ rest) = ground (
  arith,
  length-update i (set_activity exited) e.workers,
  length-update i (set_activity running) e.workers,
)

executor-after_take : (w : World) (r : Executor × Taken) → (after_take w r).executor ≡ r.0
executor-after_take w (e, leaving) = refl
executor-after_take w (e, again) = refl
executor-after_take w (e, task t) = refl

not_joined : (r : StopResult) → r ≢ joined → r ≡ not_joinable
not_joined joined h = absurd (h refl)
not_joined not_joinable h = refl

taken-workers :
    (w : World) (i : ℕ) → 0 < length w.executor.workers → (next w (takes i)).executor.workers ≢ []
unfolding take_task
taken-workers w i h none_left = omega (
  arith,
  ap length none_left,
  ap (λ e. length e.workers) (executor-after_take w (take_front i w.executor w.executor.queue)),
  length-take_front i w.executor w.executor.queue,
)

taken-alive : (w : World) (i : ℕ) → w.terminated ≡ false → (next w (takes i)).terminated ≡ false
unfolding take_task
taken-alive w i alive = go (take_front i w.executor w.executor.queue)
  where
    go : (r : Executor × Taken) → (after_take w r).terminated ≡ false
    go (e, leaving) = alive
    go (e, again) = alive
    go (e, task t) = alive

-- A worker that leaves because the pool is stopped stays in the map. So where a worker waits for a task
-- and nothing is queued, this can happen: `stop` is called, that worker leaves, and the next `stop`
-- throws from `join`. (The destructor is such a next `stop`, and must not throw.)
pub idle_worker_breaks :
    (w : World) (i : ℕ)
    → IsAt looping i w
    → w.executor.queue ≡ []
    → Reach w (takes i ∷ stops ∷ []) (next (next w stops) (takes i))
      × ((take_task i (next w stops).executor).1 ≡ leaving)
      × ((stop (next (next w stops) (takes i)).executor).1 ≡ not_joinable)
idle_worker_breaks w i (u, found, at, alive) empty = (
  after (after here stops alive) (takes i) here_still,
  (take_task-leaving i (next w stops).executor).1 (inr (unfold stop in (refl, empty))),
  not_joined _ (λ e.
      taken-workers (next w stops) i some_left (
        (stop_again w (after here (takes i) here_still) (taken-alive (next w stops) i alive)).0 e)),
)
  where
    here_still : IsAt looping i (next w stops)
    here_still = unfold stop in (move_out u, find-map i w.executor.workers u found, at, alive)

    some_left : 0 < length (next w stops).executor.workers
    some_left =
        unfold stop in
        omega (
          arith,
          find-length i w.executor.workers u found,
          length-map_workers move_out w.executor.workers,
        )
