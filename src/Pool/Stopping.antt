-- ===== src/Pool/Stopping.antt =====
-- What is left to happen once the pool is stopped or the shutdown signal is given.
use gar_virt.Prelude.{
  ℕ, ◌+◌, ◌-◌, ◌≤◌, ◌≡◌, refl, ◌≢◌, true, none, some, List, [], ◌∷◌, ◌++◌, arith,
}
use gar_virt.Pool.{
  Pool, should_stop, check_stats, acquire_enter, acquire_round, activate, deactivate, release,
  stop_internal, control_pass, spawn_one,
}
use gar_virt.Pool.World.{
  submitting, World, enters, activates, deactivates, releases, controls, signals, stops, rounds,
  submits, spawns, Event, next, Enabled, here, after, Reach,
}
use gar_virt.Pool.Counting.{check_stats_cases}

-- The control thread begins nothing, and no client is given a machine.
record Quiet (w v : World) : Type 0 where
  stops : should_stop v.pool ≡ true
  phase : v.phase ≢ submitting
  handed : v.handed ≡ w.handed
  tasks : v.tasks ≤ w.tasks

checked-Quiet :
    (w v : World) (p : Pool)
    → Quiet w (record v { pool = p })
    → Quiet w (record v { pool = check_stats p })
unfolding should_stop
checked-Quiet w v p q =
    check_stats_cases (λ r. Quiet w (record v { pool = r })) p
      (λ s r. record { stops = q.stops; phase = q.phase; handed = q.handed; tasks = q.tasks })

next-Quiet :
    (clients : ℕ) (w v : World) (e : Event) → Quiet w v → Enabled clients v e → Quiet w (next v e)
unfolding acquire_enter acquire_round activate deactivate release control_pass stop_internal
    spawn_one should_stop
next-Quiet clients w v enters q h =
    checked-Quiet w (record v { waiters = v.waiters + 1 }) _ (ground arith)
next-Quiet clients w v activates q h =
    checked-Quiet w (record v { activated = v.activated + 1 }) _ (ground arith)
next-Quiet clients w v deactivates q h = ground arith
next-Quiet clients w v releases q h =
    checked-Quiet w (record v { holders = v.holders - 1 }) _ (ground arith)
next-Quiet clients w v controls q h = rw q.stops (ground arith)
next-Quiet clients w v signals q h = ground arith
next-Quiet clients w v stops q h = ground arith
next-Quiet clients w v (rounds expired) q h = rw q.stops (ground arith)
next-Quiet clients w v (submits s) q h = absurd (q.phase h)
next-Quiet clients w v (spawns none) q h =
    checked-Quiet w (record v { tasks = v.tasks - 1; spawned = v.spawned ++ [] }) _ (ground arith)
next-Quiet clients w v (spawns (some machine)) q h =
    checked-Quiet w (record v { tasks = v.tasks - 1; spawned = v.spawned ++ machine ∷ [] }) _
      (ground arith)

-- From a state in which the pool is stopped or the signal is given, and the control thread is not in the
-- middle of a submission, whatever happens: both stay so; no client is given another machine; and the
-- spawn tasks that are queued or under way do not become more.
pub stopped_for_good :
    {clients : ℕ} {w v : World} {es : List Event}
    → Reach clients w es v
    → should_stop w.pool ≡ true
    → w.phase ≢ submitting
    → (should_stop v.pool ≡ true)
      × (v.phase ≢ submitting)
      × (v.handed ≡ w.handed)
      × (v.tasks ≤ w.tasks)
stopped_for_good {w = w} here s n = (s, n, refl, omega arith)
stopped_for_good {w = w} (after {v = u} r e h) s n =
    let (s', n', d', t') = stopped_for_good r s n in
    let q = next-Quiet _ w u e (record { stops = s'; phase = n'; handed = d'; tasks = t' }) h in
    (q.stops, q.phase, q.handed, q.tasks)
