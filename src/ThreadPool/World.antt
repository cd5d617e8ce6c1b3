-- ===== src/ThreadPool/World.antt =====
-- The threads round the thread pool, as interleavings of the sections of ThreadPool.antt.
use gar_virt.Prelude.{ℕ, ◌≡◌, Bool, true, false, some, List, [], ◌∷◌, ◌++◌}
use gar_virt.ThreadPool.{
  looping, running, Activity, Worker, Executor, find, put, reaped, terminates, ReapResult, reap,
  leaving, again, task, Taken, take_task, finish_task, stop, cancel,
}

-- `accepted` lists the tasks that `put` queued, `begun` those that a worker took, oldest first.
-- `terminated` says that an exception has left a worker's thread, behind which nothing happens.
pub record World : Type 0 where
  pub executor : Executor
  pub accepted : List ℕ
  pub begun : List ℕ
  pub terminated : Bool

pub data Event : Type 0 where
  puts : Bool → ℕ → ℕ → Event
  reaps takes finishes : ℕ → Event
  stops cancels : Event

abbrev pub queued : Bool → ℕ → List ℕ
queued true work = []
queued false work = work ∷ []

abbrev pub after_take : World → Executor × Taken → World
after_take w (e, leaving) = record w { executor = e }
after_take w (e, again) = record w { executor = e }
after_take w (e, task t) = record w { executor = e; begun = w.begun ++ t ∷ [] }

abbrev pub after_reap : World → Executor × ReapResult → World
after_reap w (e, reaped) = record w { executor = e }
after_reap w (e, terminates) = record w { executor = e; terminated = true }

abbrev pub next : World → Event → World
next w (puts starts i work) = record w {
  executor = (put starts i work w.executor).0;
  accepted = w.accepted ++ queued w.executor.stopped work;
}
next w (reaps i) = after_reap w (reap i w.executor)
next w (takes i) = after_take w (take_task i w.executor)
next w (finishes i) = record w { executor = finish_task i w.executor }
next w stops = record w { executor = (stop w.executor).0 }
next w cancels = record w { executor = cancel w.executor }

-- The worker with the id is there, and its thread at that place, in a program that has not terminated.
abbrev pub IsAt : Activity → ℕ → World → Type 0
IsAt a i w =
    (u : Worker) × (find i w.executor.workers ≡ some u) × (u.activity ≡ a) × (w.terminated ≡ false)

abbrev pub Enabled : World → Event → Type 0
Enabled w (puts starts i work) = w.terminated ≡ false
Enabled w (reaps i) = IsAt looping i w
Enabled w (takes i) = IsAt looping i w
Enabled w (finishes i) = IsAt running i w
Enabled w stops = w.terminated ≡ false
Enabled w cancels = w.terminated ≡ false

-- The histories, latest event last.
pub data Reach (w : World) : List Event → World → Type 0 where
  here : Reach w [] w
  after :
      {es : List Event} {v : World}
      → Reach w es v
      → (e : Event) → Enabled v e
      → Reach w (e ∷ es) (next v e)

abbrev pub start : Executor → World
start e = record { executor = e; accepted = []; begun = []; terminated = false }
