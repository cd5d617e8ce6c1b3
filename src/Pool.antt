-- ===== src/Pool.antt =====
-- The machine pool, modules/virt/src/machine_pool.cpp: the state behind the mutex, and one function
-- for each section of the code that runs while the mutex is held. `check_stats` gives the mutex up
-- round the callback, so a section ends there.
pub mod World
pub mod Counting
pub mod Cap
pub mod History
pub mod Reporting
pub mod Delivery
pub mod Scaling
pub mod Overshoot
pub mod Stopping
pub mod Starving
pub mod Backoff
mod Examples
use gar_virt.Prelude.{
  ltb, ◌==◌, if◌then◌else◌, length, ℕ, Bool, true, false, ◌&&◌, ◌||◌, Option, none, some, List, [],
  ◌∷◌, ◌++◌,
}
use gar_virt.Prelude.Words.{add_size, inc_size, dec_size}

-- `MachineCounters`.
pub record Counters : Type 0 where
  pub acquiring : ℕ
  pub acquired : ℕ
  pub active : ℕ
  pub warming : ℕ

-- `MachinePoolStats`.
pub record Stats : Type 0 where
  pub provisioned : ℕ
  pub acquiring : ℕ
  pub acquired : ℕ
  pub active : ℕ
  pub idle : ℕ
  pub warming : ℕ

-- The fields of `MachinePool::Impl` that the mutex guards, and the shutdown signal. A machine is the
-- number of its domain. `snapshots` are those that were taken for the
-- callback, latest first.
pub record Pool : Type 0 where
  pub idle_target : ℕ
  pub max_concurrency : ℕ
  pub signalled : Bool
  pub stopped : Bool
  pub counters : Counters
  pub idle_machines : List ℕ
  pub stats : Stats
  pub has_callback : Bool
  pub snapshots : List Stats

abbrev pub no_stats : Stats
no_stats = record {
  provisioned = 0;
  acquiring = 0;
  acquired = 0;
  active = 0;
  idle = 0;
  warming = 0;
}

-- The constructor.
unfoldable pub init : ℕ → ℕ → Pool
init idle_target max_concurrency = record {
  idle_target = idle_target;
  max_concurrency = max_concurrency;
  signalled = false;
  stopped = false;
  counters = record { acquiring = 0; acquired = 0; active = 0; warming = 0 };
  idle_machines = [];
  stats = no_stats;
  has_callback = false;
  snapshots = [];
}

unfoldable pub set_stats_callback : Pool → Pool
set_stats_callback p = record p { has_callback = true }

unfoldable pub should_stop : Pool → Bool
should_stop p = p.stopped || p.signalled

unfoldable pub get_provisioned_count : Pool → ℕ
get_provisioned_count p =
    add_size (add_size p.counters.acquired (length p.idle_machines)) p.counters.warming

-- The snapshot that `check_stats` takes.
unfoldable pub current_stats : Pool → Stats
current_stats p = record {
  provisioned = get_provisioned_count p;
  acquiring = p.counters.acquiring;
  acquired = p.counters.acquired;
  active = p.counters.active;
  idle = length p.idle_machines;
  warming = p.counters.warming;
}

abbrev pub same_stats : Stats → Stats → Bool
same_stats s t =
    s.provisioned == t.provisioned
    && (s.acquiring == t.acquiring
        && (s.acquired == t.acquired
            && (s.active == t.active && (s.idle == t.idle && s.warming == t.warming))))

-- The snapshot is taken with the mutex held; the callback is called behind it (Pool/Delivery.antt).
unfoldable pub report_stats : Pool → Pool
report_stats p = if p.has_callback then record p { snapshots = p.stats ∷ p.snapshots } else p

unfoldable pub check_stats : Pool → Pool
check_stats p =
    let temp_stats = current_stats p in
    if same_stats p.stats temp_stats then p else report_stats (record p { stats = temp_stats })

abbrev pub count_acquiring : (ℕ → ℕ) → Pool → Pool
count_acquiring f p = record p {
  counters = record p.counters { acquiring = f p.counters.acquiring };
}

abbrev pub count_acquired : (ℕ → ℕ) → Pool → Pool
count_acquired f p = record p { counters = record p.counters { acquired = f p.counters.acquired } }

abbrev pub count_active : (ℕ → ℕ) → Pool → Pool
count_active f p = record p { counters = record p.counters { active = f p.counters.active } }

abbrev pub count_warming : (ℕ → ℕ) → Pool → Pool
count_warming f p = record p { counters = record p.counters { warming = f p.counters.warming } }

-- `acquire` up to its loop.
unfoldable pub acquire_enter : Pool → Pool
acquire_enter p = check_stats (count_acquiring inc_size p)

pub data Acquired : Type 0 where
  waiting stopping timed_out : Acquired
  got : ℕ → Acquired

-- The rest of a round of `acquire` if the pool is not to stop, by the queue of idle machines. With an
-- empty queue the wait has timed out; `expired` is the test of the clock against `timeout`.
unfoldable pub acquire_front : Bool → Pool → List ℕ → Pool × Acquired
acquire_front expired p [] =
    if expired then (count_acquiring dec_size p, timed_out) else (p, waiting)
acquire_front expired p (machine ∷ rest) =
    let q = count_acquiring dec_size (record p { idle_machines = rest }) in
    (check_stats (count_acquired inc_size q), got machine)

-- One round of the loop of `acquire`, from the moment that `wait_for` has the mutex again.
unfoldable pub acquire_round : Bool → Pool → Pool × Acquired
acquire_round expired p =
    if should_stop p
    then (count_acquiring dec_size p, stopping)
    else acquire_front expired p p.idle_machines

unfoldable pub activate : Pool → Pool
activate p = check_stats (count_active inc_size p)

unfoldable pub deactivate : Pool → Pool
deactivate p = count_active dec_size p

unfoldable pub release : Pool → Pool
release p = check_stats (count_acquired dec_size p)

unfoldable pub stop_internal : Pool → Pool
stop_internal p = if p.stopped then p else record p { stopped = true }

unfoldable pub want_upscale : Pool → Bool
want_upscale p =
    let provisioned = get_provisioned_count p in
    let target = add_size p.idle_target p.counters.active in
    ltb provisioned target && ltb provisioned p.max_concurrency

-- The part of `add_spawner` before `m_workers.put`, and its `catch`.
unfoldable pub add_spawner : Pool → Pool
add_spawner p = check_stats (count_warming inc_size p)

unfoldable pub add_spawner_failed : Pool → Pool
add_spawner_failed p = check_stats (count_warming dec_size p)

pub data Decision : Type 0 where
  finish watch submit : Decision

-- One pass of `control_loop` from the moment that it has the mutex to the moment that it gives it up:
-- it ends, it goes round again, or it goes on to `m_workers.put`. (If the stop comes while it waits,
-- the source goes round and ends at the top of the loop, with nothing done in between; here it ends.)
unfoldable pub control_pass : Pool → Pool × Decision
control_pass p =
    if should_stop p
    then (stop_internal p, finish)
    else if want_upscale p
    then (add_spawner p, submit)
    else (p, watch)

-- `spawn_one`, with what the machine spawner gave.
unfoldable pub spawn_one : Option ℕ → Pool → Pool
spawn_one (some machine) p =
    let q = count_warming dec_size p in
    check_stats (record q { idle_machines = q.idle_machines ++ machine ∷ [] })
spawn_one none p = check_stats (count_warming dec_size p)
