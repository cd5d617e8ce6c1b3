-- ===== src/Pool/Counting.antt =====
-- The counters of the pool count what they are named for, and none of them wraps around.
use gar_virt.Prelude.{
  Bool-cases, if_cases, length, length-append, All, ℕ, ◌+◌, ◌-◌, ◌≤◌, ◌<◌, ◌≡◌, refl, ap, ◌≢◌, inl,
  inr, Bool, true, Option, none, some, List, [], ◌∷◌, ◌++◌, arith,
}
use gar_virt.Prelude.Words.{size_mod, inc_size, inc_size-lt, dec_size-pos, add_size-lt}
use gar_virt.Pool.{
  Stats, Pool, should_stop, get_provisioned_count, current_stats, same_stats, report_stats,
  check_stats, acquire_enter, acquire_front, acquire_round, activate, deactivate, release,
  stop_internal, want_upscale, add_spawner, add_spawner_failed, control_pass, spawn_one,
}
use gar_virt.Pool.World.{
  watching, submitting, finished, Phase, queued, refused, leaked, World, enters, activates,
  deactivates, releases, controls, signals, stops, rounds, submits, spawns, Event, after_round,
  after_pass, after_put, next, Enabled, here, after, Reach,
}

-- `check_stats` writes the stats and the snapshots, and nothing else.
pub check_stats_cases {ℓ} :
    (P : Pool → Type ℓ) (p : Pool)
    → ((s : Stats) (r : List Stats) → P (record p { stats = s; snapshots = r }))
    → P (check_stats p)
unfolding check_stats report_stats
check_stats_cases P p h =
    if_cases P (same_stats p.stats (current_stats p)) (h p.stats p.snapshots) (
      if_cases P p.has_callback (h (current_stats p) (current_stats p ∷ p.snapshots))
        (h (current_stats p) p.snapshots))

abbrev pub pending : Phase → ℕ
pending watching = 0
pending submitting = 1
pending finished = 0

-- The machines that the pool owns, lends or is about to own.
abbrev pub committed : World → ℕ
committed w = w.holders + length w.pool.idle_machines + (w.tasks + pending w.phase)

pub record Counts (clients : ℕ) (w : World) : Type 0 where
  pub acquiring : w.pool.counters.acquiring ≡ w.waiters
  pub acquired : w.pool.counters.acquired ≡ w.holders
  pub active : w.pool.counters.active ≡ w.activated
  pub warming : w.pool.counters.warming ≡ w.tasks + pending w.phase
  pub activated_held : w.activated ≤ w.holders
  pub clients_bound : w.waiters + w.holders ≤ clients
  pub capped : committed w ≤ w.pool.max_concurrency
  pub sized : clients + w.pool.idle_target + w.pool.max_concurrency < size_mod

module _ {clients : ℕ} where
  -- An operation of the pool that ends in `check_stats` keeps the counts if what it did before does.
  checked :
      (w : World) (p : Pool)
      → ((s : Stats) (r : List Stats)
          → Counts clients (record w { pool = record p { stats = s; snapshots = r } }))
      → Counts clients (record w { pool = check_stats p })
  checked w p = check_stats_cases (λ q. Counts clients (record w { pool = q })) p

  enters-Counts :
      (w : World) → Enabled clients w enters → Counts clients w → Counts clients (next w enters)
  unfolding acquire_enter
  enters-Counts w h c =
      checked (record w { waiters = w.waiters + 1 }) _
        (λ s r. ground (arith, inc_size-lt w.pool.counters.acquiring))

  front-Counts :
      (w : World) (expired : Bool) (xs : List ℕ)
      → w.pool.idle_machines ≡ xs
      → 0 < w.waiters
      → Counts clients w
      → Counts clients (after_round w (acquire_front expired w.pool xs))
  unfolding acquire_front
  front-Counts w expired [] e h c = ground (arith, dec_size-pos w.pool.counters.acquiring)
  front-Counts w expired (machine ∷ rest) e h c =
      checked
        (record w {
          waiters = w.waiters - 1;
          holders = w.holders + 1;
          handed = w.handed ++ machine ∷ [];
        })
        _
        (λ s r. ground (
          arith,
          ap length e,
          dec_size-pos w.pool.counters.acquiring,
          inc_size-lt w.pool.counters.acquired,
        ))

  round-Counts :
      (w : World) (expired : Bool)
      → 0 < w.waiters
      → Counts clients w
      → Counts clients (next w (rounds expired))
  unfolding acquire_round
  round-Counts w expired h c =
      if_cases (λ r. Counts clients (after_round w r)) (should_stop w.pool)
        (ground (arith, dec_size-pos w.pool.counters.acquiring))
        (front-Counts w expired w.pool.idle_machines refl h c)

  activates-Counts :
      (w : World)
      → Enabled clients w activates
      → Counts clients w
      → Counts clients (next w activates)
  unfolding activate
  activates-Counts w h c =
      checked (record w { activated = w.activated + 1 }) _
        (λ s r. ground (arith, inc_size-lt w.pool.counters.active))

  deactivates-Counts :
      (w : World)
      → Enabled clients w deactivates
      → Counts clients w
      → Counts clients (next w deactivates)
  unfolding deactivate
  deactivates-Counts w h c = ground (arith, dec_size-pos w.pool.counters.active)

  releases-Counts :
      (w : World) → Enabled clients w releases → Counts clients w → Counts clients (next w releases)
  unfolding release
  releases-Counts w h c =
      checked (record w { holders = w.holders - 1 }) _
        (λ s r. ground (arith, dec_size-pos w.pool.counters.acquired))

  -- A new spawn is decided on only below the target and below the cap.
  pub want_upscale-below :
      (w : World)
      → Counts clients w
      → want_upscale w.pool ≡ true
      → (committed w < w.pool.idle_target + w.activated) × (committed w < w.pool.max_concurrency)
  unfolding want_upscale get_provisioned_count
  want_upscale-below w c h = ground (
    arith,
    add_size-lt w.pool.counters.acquired (length w.pool.idle_machines),
    add_size-lt (w.pool.counters.acquired + length w.pool.idle_machines) w.pool.counters.warming,
    add_size-lt w.pool.idle_target w.pool.counters.active,
  )

  controls-Counts :
      (w : World) → Enabled clients w controls → Counts clients w → Counts clients (next w controls)
  unfolding control_pass stop_internal add_spawner
  controls-Counts w h c = elim (Bool-cases (want_upscale w.pool)) [
    | inl e ↦
        if_cases (λ r. Counts clients (after_pass w r)) (should_stop w.pool) (ground arith)
          (rw e (
            checked (record w { phase = submitting }) _
              (λ s r.
                ground (arith, want_upscale-below w c e, inc_size-lt w.pool.counters.warming))))
    | inr e ↦
        if_cases (λ r. Counts clients (after_pass w r)) (should_stop w.pool) (ground arith) (rw e c)
  ]

  refused-Counts :
      (w : World) → w.phase ≡ submitting → Counts clients w → Counts clients (after_put w refused)
  unfolding add_spawner_failed
  refused-Counts w h c =
      checked (record w { phase = watching; fail_count = inc_size w.fail_count }) _
        (λ s r. ground (arith, dec_size-pos w.pool.counters.warming))

  spawns-Counts :
      (w : World) (outcome : Option ℕ)
      → 0 < w.tasks
      → Counts clients w
      → Counts clients (next w (spawns outcome))
  unfolding spawn_one
  spawns-Counts w none h c =
      checked (record w { tasks = w.tasks - 1; spawned = w.spawned ++ [] }) _
        (λ s r. ground (arith, dec_size-pos w.pool.counters.warming))
  spawns-Counts w (some machine) h c =
      checked (record w { tasks = w.tasks - 1; spawned = w.spawned ++ machine ∷ [] }) _
        (λ s r. ground (
          arith,
          dec_size-pos w.pool.counters.warming,
          length-append w.pool.idle_machines (machine ∷ []),
        ))

  -- Every event but a leaked submission keeps the counts.
  pub next-Counts :
      (w : World) (e : Event)
      → e ≢ submits leaked
      → Enabled clients w e
      → Counts clients w
      → Counts clients (next w e)
  next-Counts w enters n h c = enters-Counts w h c
  next-Counts w activates n h c = activates-Counts w h c
  next-Counts w deactivates n h c = deactivates-Counts w h c
  next-Counts w releases n h c = releases-Counts w h c
  next-Counts w controls n h c = controls-Counts w h c
  next-Counts w signals n h c = ground arith
  next-Counts w stops n h c = unfold stop_internal in ground arith
  next-Counts w (rounds expired) n h c = round-Counts w expired h c
  next-Counts w (submits queued) n h c = ground arith
  next-Counts w (submits refused) n h c = refused-Counts w h c
  next-Counts w (submits leaked) n h c = absurd (n refl)
  next-Counts w (spawns outcome) n h c = spawns-Counts w outcome h c

  pub Reach-Counts :
      {w v : World} {es : List Event}
      → Reach clients w es v
      → All (λ e. e ≢ submits leaked) es
      → Counts clients w
      → Counts clients v
  Reach-Counts here n c = c
  Reach-Counts (after r e h) n c = next-Counts _ e n.0 h (Reach-Counts r n.1 c)
