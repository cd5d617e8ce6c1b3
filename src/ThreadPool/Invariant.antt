-- ===== src/ThreadPool/Invariant.antt =====
-- What holds in every state of the thread pool.
use gar_virt.Prelude.{
  length, length-append, ℕ, ◌+◌, ◌≤◌, ◌<◌, ◌≡◌, refl, sym, ap, ◌∙◌, Bool, true, false, Option, List,
  [], ◌∷◌, ◌++◌, append_assoc, append-nil, arith,
}
use gar_virt.Prelude.Words.{size_mod, inc_size-lt, dec_size-pos}
use gar_virt.ThreadPool.{
  looping, running, exited, Executor, new_worker, add_worker, add_fixed_workers, value_or, create,
  scale_up, put, reap, set_activity, take_front, take_task, finish_task, move_out, stop, cancel,
}
use gar_virt.ThreadPool.Workers.{
  running_count, running_count-le, running_count-append, running_count-map, length-map_workers,
  length-update, running_count-update, running_count-erase,
}
use gar_virt.ThreadPool.World.{
  World, puts, reaps, takes, finishes, stops, cancels, Event, after_take, next, IsAt, Enabled, here,
  after, Reach, start,
}

-- `busy_count` is the number of workers in a task, there are no more workers than allowed, and the
-- tasks are taken in the order in which they were queued.
pub record IsValid (w : World) : Type 0 where
  pub busy_exact : w.executor.busy_count ≡ running_count w.executor.workers
  pub bounded : length w.executor.workers ≤ w.executor.max_thread_count
  pub sized : w.executor.max_thread_count + 1 < size_mod
  pub in_order : w.begun ++ w.executor.queue ≡ w.accepted

puts-IsValid :
    (w : World) (starts : Bool) (i work : ℕ) → IsValid w → IsValid (next w (puts starts i work))
unfolding put scale_up
puts-IsValid w starts i work v = ground (
  arith,
  running_count-append w.executor.workers (new_worker i true ∷ []),
  length-append w.executor.workers (new_worker i true ∷ []),
  append_assoc w.begun w.executor.queue (work ∷ []),
  append-nil w.accepted,
)

front-IsValid :
    (w : World) (i : ℕ) (q : List ℕ)
    → IsAt looping i w
    → w.executor.queue ≡ q
    → IsValid w
    → IsValid (after_take w (take_front i w.executor q))
unfolding take_front
front-IsValid w i [] (u, found, at, alive) e v = ground (
  arith,
  running_count-update i exited w.executor.workers u,
  length-update i (set_activity exited) w.executor.workers,
)
front-IsValid w i (t ∷ rest) (u, found, at, alive) e v = ground (
  arith,
  running_count-update i exited w.executor.workers u,
  length-update i (set_activity exited) w.executor.workers,
  running_count-update i running w.executor.workers u,
  length-update i (set_activity running) w.executor.workers,
  running_count-le w.executor.workers,
  inc_size-lt w.executor.busy_count,
  append_assoc w.begun (t ∷ []) rest,
  ap (λ q. w.begun ++ q) e,
)

finishes-IsValid :
    (w : World) (i : ℕ) → IsAt running i w → IsValid w → IsValid (next w (finishes i))
unfolding finish_task
finishes-IsValid w i (u, found, at, alive) v =
    rw (found, finish_task)
      (ground (
        arith,
        running_count-update i looping w.executor.workers u,
        length-update i (set_activity looping) w.executor.workers,
        running_count-erase i w.executor.workers u,
        running_count-le w.executor.workers,
        dec_size-pos w.executor.busy_count,
      ))

next-IsValid : (w : World) (e : Event) → Enabled w e → IsValid w → IsValid (next w e)
unfolding take_task reap stop cancel
next-IsValid w (puts starts i work) h v = puts-IsValid w starts i work v
next-IsValid w (reaps i) h v = ground arith
next-IsValid w (takes i) h v = front-IsValid w i w.executor.queue h refl v
next-IsValid w (finishes i) h v = finishes-IsValid w i h v
next-IsValid w stops h v =
    ground
      (arith, running_count-map w.executor.workers, length-map_workers move_out w.executor.workers)
next-IsValid w cancels h v = ground arith

pub Reach-IsValid : {w v : World} {es : List Event} → Reach w es v → IsValid w → IsValid v
Reach-IsValid here v = v
Reach-IsValid (after {v = u} r e h) v = next-IsValid u e h (Reach-IsValid r v)

-- A new executor has its minimum of workers at most, none of them busy.
add_fixed_workers-bounded :
    (count : ℕ) (ids : List ℕ) (e : Executor)
    → length e.workers ≤ count
    → running_count e.workers ≡ 0
    → let f = add_fixed_workers count ids e in
      (length f.workers ≤ count)
      × (running_count f.workers ≡ 0)
      × (f.max_thread_count ≡ e.max_thread_count)
      × (f.busy_count ≡ e.busy_count)
      × (f.queue ≡ e.queue)
unfolding add_fixed_workers
add_fixed_workers-bounded count [] e h n = (h, n, refl, refl, refl)
add_fixed_workers-bounded count (i ∷ ids) e h n = ground (
  arith,
  add_fixed_workers-bounded count ids (add_worker false i e),
  length-append e.workers (new_worker i false ∷ []),
  running_count-append e.workers (new_worker i false ∷ []),
)

pub create-IsValid :
    (hardware_concurrency : ℕ) (least most : Option ℕ) (ids : List ℕ)
    → value_or least hardware_concurrency ≤ value_or most (value_or least hardware_concurrency)
    → value_or most (value_or least hardware_concurrency) + 1 < size_mod
    → IsValid (start (create hardware_concurrency least most ids))
unfolding create
create-IsValid hardware_concurrency least most ids h sized =
    let least' = value_or least hardware_concurrency in
    let (few, none_busy, most', zero_busy, empty) =
      add_fixed_workers-bounded least' ids
        (record {
          max_thread_count = value_or most least';
          busy_count = 0;
          stopped = false;
          cancelled = false;
          queue = [];
          workers = [];
          dead_workers = [];
        })
        (omega arith) refl in
    record {
      busy_exact = zero_busy ∙ sym none_busy;
      bounded = omega (arith, few, most', h);
      sized = omega (arith, most', sized);
      in_order = empty;
    }

-- Over every interleaving from the constructor, whose minimum of threads is at most its maximum:
-- `busy_count` is the number of workers in a task, so the assertion of `put` holds and its subtraction
-- does not wrap around; there are never more workers than the maximum; and the tasks that workers took,
-- followed by the queue, are the tasks that were accepted, in order, so that each is taken once at most.
pub workers_bounded :
    (hardware_concurrency : ℕ) (least most : Option ℕ) (ids : List ℕ) {es : List Event} {w : World}
    → value_or least hardware_concurrency ≤ value_or most (value_or least hardware_concurrency)
    → value_or most (value_or least hardware_concurrency) + 1 < size_mod
    → Reach (start (create hardware_concurrency least most ids)) es w
    → (w.executor.busy_count ≡ running_count w.executor.workers)
      × (w.executor.busy_count ≤ length w.executor.workers)
      × (length w.executor.workers ≤ w.executor.max_thread_count)
      × (w.begun ++ w.executor.queue ≡ w.accepted)
workers_bounded hardware_concurrency least most ids h sized r =
    let v = Reach-IsValid r (create-IsValid hardware_concurrency least most ids h sized) in
    (v.busy_exact, omega (arith, v.busy_exact, running_count-le _), v.bounded, v.in_order)
