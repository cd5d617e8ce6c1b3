-- ===== src/ThreadPool/Termination.antt =====
-- What a worker that dies after `stop` does to the program.
use gar_virt.Prelude.{
  ltb, ◌==◌, length, ℕ, ◌<◌, ◌≡◌, refl, ap, ◌∙◌, true, false, some, List, [], ◌∷◌, ◌++◌, map, arith,
}
use gar_virt.Prelude.Words.{dec_size}
use gar_virt.ThreadPool.{
  looping, running, exited, Worker, Executor, find, erase, find_dead, reap, set_activity,
  finish_task, move_out, stop,
}
use gar_virt.ThreadPool.World.{World, reaps, finishes, stops, next, IsAt, here, after, Reach}
use gar_virt.ThreadPool.Workers.{length-map_workers}
use gar_virt.ThreadPool.Shutdown.{find-map}

find_dead-append :
    (own : ℕ) (ds : List Worker) (d : Worker)
    → (d.id == own) ≡ false
    → find_dead own (ds ++ d ∷ []) ≡ some d
unfolding find_dead
find_dead-append own [] d other = rw other refl
find_dead-append own (w ∷ ds) d other = rw (find_dead-append own ds d other) refl

find-id : (i : ℕ) (ws : List Worker) (u : Worker) → find i ws ≡ some u → u.id ≡ i
unfolding find
find-id i [] u e = cc
find-id i (w ∷ ws) u e = ground (arith, find-id i ws u)

find-erase : (i j : ℕ) (ws : List Worker) → (i == j) ≡ false → find j (erase i ws) ≡ find j ws
unfolding find erase
find-erase i j [] other = refl
find-erase i j (w ∷ ws) other = ground (arith, find-erase i j ws other)

abbrev dying : Worker → Worker
dying u = set_activity exited (move_out u)

finish_task-dies :
    (i : ℕ) (e : Executor) (u : Worker)
    → find i e.workers ≡ some u
    → u.is_ondemand ≡ true
    → dec_size e.busy_count < length e.workers
    → e.queue ≡ []
    → finish_task i e ≡ record e {
      busy_count = dec_size e.busy_count;
      workers = erase i e.workers;
      dead_workers = e.dead_workers ++ set_activity exited u ∷ [];
    }
unfolding finish_task
finish_task-dies i e u found ondemand few empty =
    let few' : ltb (dec_size e.busy_count) (length e.workers) ≡ true = ground arith in
    rw (found, ondemand, few', empty, finish_task) refl

reap-terminates :
    (own : ℕ) (w : World) (ds : List Worker) (d : Worker)
    → w.executor.dead_workers ≡ ds ++ d ∷ []
    → (d.id == own) ≡ false
    → d.joinable ≡ false
    → (next w (reaps own)).terminated ≡ true
unfolding reap
reap-terminates own w ds d listed other moved_out =
    rw (listed, find_dead-append own ds d other, moved_out) refl

-- When `stop` is called, let worker `i`, an on-demand one, be in a task, let worker `j` be about to look for
-- dead ones, and let nothing be queued and fewer workers be busy, without `i`, than there are. Then
-- this can happen: `i` ends its task and goes to the dead, with a thread that `stop` has moved out,
-- and `j` joins it, which throws and terminates the program.
pub dead_worker_terminates :
    (w : World) (i j : ℕ) (u : Worker)
    → find i w.executor.workers ≡ some u
    → u.activity ≡ running
    → u.is_ondemand ≡ true
    → IsAt looping j w
    → (i == j) ≡ false
    → w.executor.queue ≡ []
    → dec_size w.executor.busy_count < length w.executor.workers
    → let v = next (next (next w stops) (finishes i)) (reaps j) in
      Reach w (reaps j ∷ finishes i ∷ stops ∷ []) v × (v.terminated ≡ true)
dead_worker_terminates w i j u found at ondemand (u', found', at', alive) other empty few = (
  after (after (after here stops alive) (finishes i) (move_out u, found_moved, at, alive)) (reaps j)
      (move_out u', still_there, at', alive),
  reap-terminates j (next (next w stops) (finishes i)) w.executor.dead_workers (dying u)
      (ap (λ e. e.dead_workers) died) (rw (find-id i w.executor.workers u found) other) refl,
)
  where
    found_moved : find i (next w stops).executor.workers ≡ some (move_out u)
    found_moved = unfold stop in find-map i w.executor.workers u found

    died : finish_task i (next w stops).executor ≡ record (next w stops).executor {
      busy_count = dec_size w.executor.busy_count;
      workers = erase i (map move_out w.executor.workers);
      dead_workers = w.executor.dead_workers ++ dying u ∷ [];
    }
    died =
        unfold stop in
        finish_task-dies i (stop w.executor).0 (move_out u) (find-map i w.executor.workers u found)
          ondemand (omega (arith, few, length-map_workers move_out w.executor.workers)) empty

    still_there : find j (finish_task i (next w stops).executor).workers ≡ some (move_out u')
    still_there =
        ap (λ e. find j e.workers) died
        ∙ find-erase i j (map move_out w.executor.workers) other
        ∙ find-map j w.executor.workers u' found'
