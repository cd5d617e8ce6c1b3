-- ===== src/Pool/World.antt =====
-- The threads round the pool, as interleavings of the sections of Pool.antt. The clients are the
-- runner threads of modules/app/src/commands.cpp, each of which goes through acquire, activate,
-- deactivate and release in that order (modules/app/src/core.cpp); the rest is the control thread,
-- the workers that run `spawn_one`, and whoever stops the pool or gives the signal.
use gar_virt.Prelude.{ℕ, ◌+◌, ◌-◌, ◌<◌, ◌≡◌, Bool, true, Option, none, some, List, [], ◌∷◌, ◌++◌}
use gar_virt.Prelude.Words.{inc_size}
use gar_virt.Pool.{
  Pool, init, set_stats_callback, acquire_enter, waiting, stopping, timed_out, got, Acquired,
  acquire_round, activate, deactivate, release, stop_internal, add_spawner_failed, finish, watch,
  submit, Decision, control_pass, spawn_one,
}

-- Where the control thread is: before its next pass, between `++warming` and the end of
-- `m_workers.put`, or returned.
pub data Phase : Type 0 where
  watching submitting finished : Phase

-- How `m_workers.put` ends: the task is queued; it throws with nothing queued; or it throws after the
-- task was queued, because the thread for it could not be started.
pub data Submission : Type 0 where
  queued refused leaked : Submission

-- `fail_count` is the control loop's count of failed submissions in a row. `waiters`, `holders` and `activated` count the clients in `acquire`, those that hold a machine, and
-- those of them that activated it. `tasks` counts the spawn tasks that are queued or running. `spawned`
-- and `handed` list the machines that went into the pool and out to a client, oldest first.
pub record World : Type 0 where
  pub pool : Pool
  pub phase : Phase
  pub fail_count : ℕ
  pub waiters : ℕ
  pub holders : ℕ
  pub activated : ℕ
  pub tasks : ℕ
  pub spawned : List ℕ
  pub handed : List ℕ

pub data Event : Type 0 where
  enters activates deactivates releases controls signals stops : Event
  rounds : Bool → Event
  submits : Submission → Event
  spawns : Option ℕ → Event

abbrev pub after_round : World → Pool × Acquired → World
after_round w (q, waiting) = record w { pool = q }
after_round w (q, stopping) = record w { pool = q; waiters = w.waiters - 1 }
after_round w (q, timed_out) = record w { pool = q; waiters = w.waiters - 1 }
after_round w (q, got machine) = record w {
  pool = q;
  waiters = w.waiters - 1;
  holders = w.holders + 1;
  handed = w.handed ++ machine ∷ [];
}

abbrev pub after_pass : World → Pool × Decision → World
after_pass w (q, finish) = record w { pool = q; phase = finished }
after_pass w (q, watch) = record w { pool = q }
after_pass w (q, submit) = record w { pool = q; phase = submitting }

abbrev pub after_put : World → Submission → World
after_put w queued = record w { phase = watching; fail_count = 0; tasks = w.tasks + 1 }
after_put w refused = record w {
  pool = add_spawner_failed w.pool;
  phase = watching;
  fail_count = inc_size w.fail_count;
}
after_put w leaked = record w {
  pool = add_spawner_failed w.pool;
  phase = watching;
  fail_count = inc_size w.fail_count;
  tasks = w.tasks + 1;
}

abbrev pub arrived : Option ℕ → List ℕ
arrived none = []
arrived (some machine) = machine ∷ []

-- The state after an event.
abbrev pub next : World → Event → World
next w enters = record w { pool = acquire_enter w.pool; waiters = w.waiters + 1 }
next w (rounds expired) = after_round w (acquire_round expired w.pool)
next w activates = record w { pool = activate w.pool; activated = w.activated + 1 }
next w deactivates = record w { pool = deactivate w.pool; activated = w.activated - 1 }
next w releases = record w { pool = release w.pool; holders = w.holders - 1 }
next w controls = after_pass w (control_pass w.pool)
next w (submits s) = after_put w s
next w (spawns outcome) = record w {
  pool = spawn_one outcome w.pool;
  tasks = w.tasks - 1;
  spawned = w.spawned ++ arrived outcome;
}
next w signals = record w { pool = record w.pool { signalled = true } }
next w stops = record w { pool = stop_internal w.pool }

-- When an event can happen, with so many clients.
abbrev pub Enabled : ℕ → World → Event → Type 0
Enabled clients w enters = w.waiters + w.holders < clients
Enabled clients w (rounds expired) = 0 < w.waiters
Enabled clients w activates = w.activated < w.holders
Enabled clients w deactivates = 0 < w.activated
Enabled clients w releases = w.activated < w.holders
Enabled clients w controls = w.phase ≡ watching
Enabled clients w (submits s) = w.phase ≡ submitting
Enabled clients w (spawns outcome) = 0 < w.tasks
Enabled clients w signals = Unit {0}
Enabled clients w stops = Unit {0}

-- The histories, latest event last.
pub data Reach (clients : ℕ) (w : World) : List Event → World → Type 0 where
  here : Reach clients w [] w
  after :
      {es : List Event} {v : World}
      → Reach clients w es v
      → (e : Event) → Enabled clients v e
      → Reach clients w (e ∷ es) (next v e)

-- A pool that `start` has just been called on, with the callback that `create_pool` gives it.
abbrev pub start : ℕ → ℕ → World
start idle_target max_concurrency = record {
  pool = set_stats_callback (init idle_target max_concurrency);
  phase = watching;
  fail_count = 0;
  waiters = 0;
  holders = 0;
  activated = 0;
  tasks = 0;
  spawned = [];
  handed = [];
}
