-- ===== src/Pool/Cap.antt =====
-- The cap on machines, over every interleaving of the threads that use the pool.
use gar_virt.Prelude.{
  if_cases, length, All, ℕ, ◌+◌, ◌≤◌, ◌<◌, ◌≡◌, refl, ◌∙◌, ◌≢◌, Bool, none, some, List, [], ◌∷◌,
  arith,
}
use gar_virt.Prelude.Words.{size_mod, add_size-lt}
use gar_virt.Pool.{
  Pool, init, set_stats_callback, should_stop, get_provisioned_count, check_stats, acquire_enter,
  acquire_front, acquire_round, activate, deactivate, release, stop_internal, want_upscale,
  add_spawner, add_spawner_failed, control_pass, spawn_one,
}
use gar_virt.Pool.World.{
  queued, refused, leaked, World, enters, activates, deactivates, releases, controls, signals,
  stops, rounds, submits, spawns, Event, after_round, after_pass, next, here, after, Reach, start,
}
use gar_virt.Pool.Counting.{check_stats_cases, pending, committed, Counts, Reach-Counts}

-- What no operation changes.
abbrev pub SameConfig : Pool → Pool → Type 0
SameConfig p q = (q.idle_target ≡ p.idle_target) × (q.max_concurrency ≡ p.max_concurrency)

checked-SameConfig : (p q : Pool) → SameConfig p q → SameConfig p (check_stats q)
checked-SameConfig p q h = check_stats_cases (SameConfig p) q (λ s r. h)

front-SameConfig :
    (w : World) (expired : Bool) (xs : List ℕ)
    → SameConfig w.pool (after_round w (acquire_front expired w.pool xs)).pool
unfolding acquire_front
front-SameConfig w expired [] = ground arith
front-SameConfig w expired (machine ∷ rest) = checked-SameConfig w.pool _ (refl, refl)

next-SameConfig : (w : World) (e : Event) → SameConfig w.pool (next w e).pool
unfolding acquire_enter acquire_round activate deactivate release control_pass stop_internal
    add_spawner add_spawner_failed spawn_one
next-SameConfig w enters = checked-SameConfig w.pool _ (refl, refl)
next-SameConfig w activates = checked-SameConfig w.pool _ (refl, refl)
next-SameConfig w deactivates = (refl, refl)
next-SameConfig w releases = checked-SameConfig w.pool _ (refl, refl)
next-SameConfig w controls =
    if_cases (λ r. SameConfig w.pool (after_pass w r).pool) (should_stop w.pool) (ground arith)
      (if_cases (λ r. SameConfig w.pool (after_pass w r).pool) (want_upscale w.pool)
        (checked-SameConfig w.pool _ (refl, refl)) (refl, refl))
next-SameConfig w signals = (refl, refl)
next-SameConfig w stops = ground arith
next-SameConfig w (rounds expired) =
    if_cases (λ r. SameConfig w.pool (after_round w r).pool) (should_stop w.pool) (refl, refl)
      (front-SameConfig w expired w.pool.idle_machines)
next-SameConfig w (submits queued) = (refl, refl)
next-SameConfig w (submits refused) = checked-SameConfig w.pool _ (refl, refl)
next-SameConfig w (submits leaked) = checked-SameConfig w.pool _ (refl, refl)
next-SameConfig w (spawns none) = checked-SameConfig w.pool _ (refl, refl)
next-SameConfig w (spawns (some machine)) = checked-SameConfig w.pool _ (refl, refl)

pub Reach-SameConfig :
    {clients : ℕ} {w v : World} {es : List Event} → Reach clients w es v → SameConfig w.pool v.pool
Reach-SameConfig here = (refl, refl)
Reach-SameConfig (after {v = v} r e h) =
    let (t, m) = Reach-SameConfig r in let (t', m') = next-SameConfig v e in (t' ∙ t, m' ∙ m)

pub start-Counts :
    (clients idle_target max_concurrency : ℕ)
    → clients + idle_target + max_concurrency < size_mod
    → Counts clients (start idle_target max_concurrency)
unfolding init set_stats_callback
start-Counts clients idle_target max_concurrency h = ground arith

-- The count that the pool goes by is the number of machines that it owns, lends or has on order, as
-- long as the counters are right.
pub provisioned-committed :
    {clients : ℕ} (w : World) → Counts clients w → get_provisioned_count w.pool ≡ committed w
unfolding get_provisioned_count
provisioned-committed w c = ground (
  arith,
  add_size-lt w.pool.counters.acquired (length w.pool.idle_machines),
  add_size-lt (w.pool.counters.acquired + length w.pool.idle_machines) w.pool.counters.warming,
)

-- Over every interleaving in which no submission leaks its task, from a pool that was just started
-- (the numbers of clients, idle target and cap together fit a `size_t`): the machines that are lent
-- out, idle or on order are at most `max_concurrency`; `get_provisioned_count` is their number; and
-- each counter is the number of threads or tasks that it is named for, with no wrap-around.
pub machines_capped :
    (clients idle_target max_concurrency : ℕ) {es : List Event} {w : World}
    → clients + idle_target + max_concurrency < size_mod
    → Reach clients (start idle_target max_concurrency) es w
    → All (λ e. e ≢ submits leaked) es
    → (committed w ≤ max_concurrency)
      × (get_provisioned_count w.pool ≡ committed w)
      × (w.pool.counters.acquiring ≡ w.waiters)
      × (w.pool.counters.acquired ≡ w.holders)
      × (w.pool.counters.active ≡ w.activated)
      × (w.pool.counters.warming ≡ w.tasks + pending w.phase)
unfolding init set_stats_callback
machines_capped clients idle_target max_concurrency {w = w} sized r n =
    let c = Reach-Counts r n (start-Counts clients idle_target max_concurrency sized) in
    (
      omega (arith, c.capped, (Reach-SameConfig r).1),
      provisioned-committed w c,
      c.acquiring,
      c.acquired,
      c.active,
      c.warming,
    )
