-- ===== src/ThreadPool.antt =====
-- The thread pool, modules/utility/src/concurrency/thread_pool_executor.cpp: the state behind the
-- mutex, and one function for each section of the code that runs while the mutex is held. A task is a
-- number, and so is a worker's id, which the source draws as a fresh UUID.
pub mod Workers
pub mod World
pub mod Invariant
pub mod Shutdown
pub mod Termination
mod Examples
use gar_virt.Prelude.{
  ltb, ◌==◌, if◌then◌else◌, length, ℕ, Bool, true, false, ◌&&◌, ◌||◌, Option, none, some, List, [],
  ◌∷◌, ◌++◌, map,
}
use gar_virt.Prelude.Words.{inc_size, dec_size, sub_size}

-- Where a worker's thread is: at the top of its loop or waiting, in a task, or returned.
pub data Activity : Type 0 where
  looping running exited : Activity

-- `Worker`, with its thread's `joinable()` and its activity.
pub record Worker : Type 0 where
  pub id : ℕ
  pub is_ondemand : Bool
  pub joinable : Bool
  pub activity : Activity

pub record Executor : Type 0 where
  pub max_thread_count : ℕ
  pub busy_count : ℕ
  pub stopped : Bool
  pub cancelled : Bool
  pub queue : List ℕ
  pub workers : List Worker
  pub dead_workers : List Worker

-- `m_workers.at(id)`, a change of that worker, and `m_workers.erase(id)`.
unfoldable pub find : ℕ → List Worker → Option Worker
find i [] = none
find i (w ∷ ws) = if w.id == i then some w else find i ws

unfoldable pub update : ℕ → (Worker → Worker) → List Worker → List Worker
update i f [] = []
update i f (w ∷ ws) = if w.id == i then f w ∷ ws else w ∷ update i f ws

unfoldable pub erase : ℕ → List Worker → List Worker
erase i [] = []
erase i (w ∷ ws) = if w.id == i then ws else w ∷ erase i ws

abbrev pub new_worker : ℕ → Bool → Worker
new_worker i is_ondemand = record {
  id = i;
  is_ondemand = is_ondemand;
  joinable = true;
  activity = looping;
}

-- `add_worker`, once its thread is started.
abbrev pub add_worker : Bool → ℕ → Executor → Executor
add_worker is_ondemand i e = record e { workers = e.workers ++ new_worker i is_ondemand ∷ [] }

-- `add_fixed_workers`: workers are added, with the ids that are drawn, while there are too few.
unfoldable pub add_fixed_workers : ℕ → List ℕ → Executor → Executor
add_fixed_workers count [] e = e
add_fixed_workers count (i ∷ ids) e =
    let more = add_fixed_workers count ids (add_worker false i e) in
    if ltb (length e.workers) count then more else e

abbrev pub value_or : Option ℕ → ℕ → ℕ
value_or none d = d
value_or (some n) d = n

-- The constructor, with `hardware_concurrency` for a missing minimum.
unfoldable pub create : ℕ → Option ℕ → Option ℕ → List ℕ → Executor
unfolding add_fixed_workers
create hardware_concurrency min_thread_count max_thread_count ids =
    let least = value_or min_thread_count hardware_concurrency in
    add_fixed_workers least ids (record {
      max_thread_count = value_or max_thread_count least;
      busy_count = 0;
      stopped = false;
      cancelled = false;
      queue = [];
      workers = [];
      dead_workers = [];
    })

pub data PutResult : Type 0 where
  returned threw : PutResult

-- What `put` does once the task is queued. `starts` says if a new thread can be started, `i` is the new
-- worker's id.
unfoldable pub scale_up : Bool → ℕ → Executor → Executor × PutResult
scale_up starts i e =
    let free_workers = sub_size (length e.workers) e.busy_count in
    if ltb free_workers (length e.queue) && ltb (length e.workers) e.max_thread_count
    then (if starts then (add_worker true i e, returned) else (e, threw))
    else (e, returned)

unfoldable pub put : Bool → ℕ → ℕ → Executor → Executor × PutResult
put starts i work e =
    if e.stopped
    then (e, returned)
    else scale_up starts i (record e { queue = e.queue ++ work ∷ [] })

-- One search of the loop over `m_dead_workers`, from the last one to the first: the worker to join.
unfoldable pub find_dead : ℕ → List Worker → Option Worker
find_dead own [] = none
find_dead own (w ∷ ws) = elim (find_dead own ws) [
  | some d ↦ some d
  | none ↦ if w.id == own then none else some w
]

pub data ReapResult : Type 0 where
  reaped terminates : ReapResult

-- That worker is taken off the list, and its thread joined: `join` throws on a thread that is not joinable,
-- and nothing catches it in the worker's thread, which ends the program.
abbrev pub join_dead : Option Worker → Executor → Executor × ReapResult
join_dead none e = (e, reaped)
join_dead (some d) e = (
  record e { dead_workers = erase d.id e.dead_workers },
  (if d.joinable then reaped else terminates),
)

unfoldable pub reap : ℕ → Executor → Executor × ReapResult
reap own e = join_dead (find_dead own e.dead_workers) e

pub data Taken : Type 0 where
  leaving again : Taken
  task : ℕ → Taken

abbrev pub set_activity : Activity → Worker → Worker
set_activity a w = record w { activity = a }

-- A worker's loop from the moment that the wait lets it go on to the moment that it gives the mutex up,
-- by the queue.
unfoldable pub take_front : ℕ → Executor → List ℕ → Executor × Taken
take_front i e [] =
    if e.cancelled || e.stopped
    then (record e { workers = update i (set_activity exited) e.workers }, leaving)
    else (e, again)
take_front i e (t ∷ rest) =
    if e.cancelled
    then (record e { workers = update i (set_activity exited) e.workers }, leaving)
    else (
      record e {
        queue = rest;
        busy_count = inc_size e.busy_count;
        workers = update i (set_activity running) e.workers;
      },
      task t,
    )

unfoldable pub take_task : ℕ → Executor → Executor × Taken
take_task i e = take_front i e e.queue

abbrev pub is_empty : List ℕ → Bool
is_empty [] = true
is_empty (t ∷ ts) = false

-- The end of a round, after the task: an on-demand worker with nothing left to do goes to the dead.
unfoldable pub finish_task : ℕ → Executor → Executor
finish_task i e =
    let busy = dec_size e.busy_count in
    let idle = record e {
      busy_count = busy;
      workers = update i (set_activity looping) e.workers;
    } in
    elim (find i e.workers) [
      | none ↦ idle
      | some w ↦
          if w.is_ondemand && (ltb busy (length e.workers) && is_empty e.queue)
          then record e {
            busy_count = busy;
            workers = erase i e.workers;
            dead_workers = e.dead_workers ++ set_activity exited w ∷ [];
          }
          else idle
    ]

abbrev pub all_joinable : List Worker → Bool
all_joinable [] = true
all_joinable (w ∷ ws) = w.joinable && all_joinable ws

abbrev pub move_out : Worker → Worker
move_out w = record w { joinable = false }

pub data StopResult : Type 0 where
  joined not_joinable : StopResult

-- `stop`: every worker's thread is moved out and joined; `join` throws on a thread that is not joinable.
unfoldable pub stop : Executor → Executor × StopResult
stop e = (
  record e { stopped = true; workers = map move_out e.workers },
  (if all_joinable e.workers then joined else not_joinable),
)

unfoldable pub cancel : Executor → Executor
cancel e = record e { cancelled = true }
