-- ===== src/Pool/History.antt =====
-- Which machine a client gets: the pool hands out every machine once, in the order in which they came.
use gar_virt.Prelude.{
  if_cases, ℕ, ◌+◌, ◌-◌, ◌≡◌, refl, sym, ap, ◌∙◌, Bool, none, some, List, [], ◌∷◌, ◌++◌,
  append_assoc, append-nil, arith,
}
use gar_virt.Prelude.Words.{inc_size}
use gar_virt.Pool.{
  Pool, init, set_stats_callback, should_stop, check_stats, acquire_enter, acquire_front,
  acquire_round, activate, deactivate, release, stop_internal, want_upscale, add_spawner,
  add_spawner_failed, control_pass, spawn_one,
}
use gar_virt.Pool.World.{
  watching, submitting, queued, refused, leaked, World, enters, activates, deactivates, releases,
  controls, signals, stops, rounds, submits, spawns, Event, after_round, after_pass, next, here,
  after, Reach, start,
}
use gar_virt.Pool.Counting.{check_stats_cases}

-- What was handed out, and after it what is idle, is what was spawned.
abbrev InOrder : World → Type 0
InOrder w = w.handed ++ w.pool.idle_machines ≡ w.spawned

checked-InOrder :
    (w : World) (p : Pool)
    → InOrder (record w { pool = p })
    → InOrder (record w { pool = check_stats p })
checked-InOrder w p h = check_stats_cases (λ q. InOrder (record w { pool = q })) p (λ s r. h)

front-InOrder :
    (w : World) (expired : Bool) (xs : List ℕ)
    → w.pool.idle_machines ≡ xs
    → InOrder w
    → InOrder (after_round w (acquire_front expired w.pool xs))
unfolding acquire_front
front-InOrder w expired [] e h = ground arith
front-InOrder w expired (machine ∷ rest) e h =
    checked-InOrder
      (record w {
        waiters = w.waiters - 1;
        holders = w.holders + 1;
        handed = w.handed ++ machine ∷ [];
      })
      _ (append_assoc w.handed (machine ∷ []) rest ∙ ap (◌++◌ w.handed) (sym e) ∙ h)

next-InOrder : (w : World) (e : Event) → InOrder w → InOrder (next w e)
unfolding acquire_enter acquire_round activate deactivate release control_pass stop_internal
    add_spawner add_spawner_failed spawn_one
next-InOrder w enters h = checked-InOrder (record w { waiters = w.waiters + 1 }) _ h
next-InOrder w activates h = checked-InOrder (record w { activated = w.activated + 1 }) _ h
next-InOrder w deactivates h = h
next-InOrder w releases h = checked-InOrder (record w { holders = w.holders - 1 }) _ h
next-InOrder w controls h =
    if_cases (λ r. InOrder (after_pass w r)) (should_stop w.pool) (ground arith)
      (if_cases (λ r. InOrder (after_pass w r)) (want_upscale w.pool)
        (checked-InOrder (record w { phase = submitting }) _ h) h)
next-InOrder w signals h = h
next-InOrder w stops h = ground arith
next-InOrder w (rounds expired) h =
    if_cases (λ r. InOrder (after_round w r)) (should_stop w.pool) h
      (front-InOrder w expired w.pool.idle_machines refl h)
next-InOrder w (submits queued) h = h
next-InOrder w (submits refused) h =
    checked-InOrder (record w { phase = watching; fail_count = inc_size w.fail_count }) _ h
next-InOrder w (submits leaked) h =
    checked-InOrder
      (record w { phase = watching; fail_count = inc_size w.fail_count; tasks = w.tasks + 1 }) _ h
next-InOrder w (spawns none) h =
    checked-InOrder (record w { tasks = w.tasks - 1; spawned = w.spawned ++ [] }) _
      (h ∙ sym (append-nil w.spawned))
next-InOrder w (spawns (some machine)) h =
    checked-InOrder (record w { tasks = w.tasks - 1; spawned = w.spawned ++ machine ∷ [] }) _
      (sym (append_assoc w.handed w.pool.idle_machines (machine ∷ []))
        ∙ ap (λ xs. xs ++ machine ∷ []) h)

Reach-InOrder :
    {clients : ℕ} {w v : World} {es : List Event} → Reach clients w es v → InOrder w → InOrder v
Reach-InOrder here h = h
Reach-InOrder (after {v = v} r e _) h = next-InOrder v e (Reach-InOrder r h)

-- Over every interleaving, leaked submissions included, the machines that were handed out, in the
-- order in which clients got them, followed by the idle queue, are the machines that were spawned, in
-- the order in which they were put into the pool. So the pool loses none, hands none out twice, and
-- serves the longest idle first.
pub handed_in_order :
    (clients idle_target max_concurrency : ℕ) {es : List Event} {w : World}
    → Reach clients (start idle_target max_concurrency) es w
    → w.handed ++ w.pool.idle_machines ≡ w.spawned
unfolding init set_stats_callback
handed_in_order clients idle_target max_concurrency r = Reach-InOrder r refl
