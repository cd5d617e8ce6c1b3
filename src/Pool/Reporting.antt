-- ===== src/Pool/Reporting.antt =====
-- The snapshots that `check_stats` takes for the callback.
use gar_virt.Prelude.{
  Bool-cases, if_cases, All, ℕ, ◌+◌, ◌≤◌, ◌<◌, ◌≡◌, refl, subst, ◌∙◌, ◌≢◌, inl, inr, Bool, true,
  false, none, some, List, [], ◌∷◌, arith,
}
use gar_virt.Prelude.Words.{size_mod}
use gar_virt.Pool.{
  Stats, Pool, init, set_stats_callback, should_stop, get_provisioned_count, current_stats,
  same_stats, report_stats, check_stats, acquire_enter, acquire_front, acquire_round, activate,
  deactivate, release, stop_internal, want_upscale, add_spawner, add_spawner_failed, control_pass,
  spawn_one,
}
use gar_virt.Pool.World.{
  queued, refused, leaked, World, enters, activates, deactivates, releases, controls, signals,
  stops, rounds, submits, spawns, Event, after_round, after_pass, next, here, after, Reach, start,
}
use gar_virt.Pool.Counting.{check_stats_cases, Counts, Reach-Counts}
use gar_virt.Pool.Cap.{Reach-SameConfig, start-Counts, provisioned-committed}

-- A snapshot that adds up and keeps to the cap.
pub record IsSound (max_concurrency : ℕ) (s : Stats) : Type 0 where
  pub adds_up : s.provisioned ≡ s.acquired + s.idle + s.warming
  pub capped : s.provisioned ≤ max_concurrency
  pub active_held : s.active ≤ s.acquired

abbrev pub Latest : Stats → List Stats → Type 0
Latest s [] = Unit {0}
Latest s (r ∷ rs) = r ≡ s

-- No snapshot is the same as the one before it.
abbrev pub Changing : List Stats → Type 0
Changing [] = Unit {0}
Changing (r ∷ []) = Unit {0}
Changing (r ∷ s ∷ rs) = (r ≢ s) × Changing (s ∷ rs)

record Reported (m : ℕ) (p : Pool) : Type 0 where
  callback : p.has_callback ≡ true
  latest : Latest p.stats p.snapshots
  changing : Changing p.snapshots
  sound : All (IsSound m) p.snapshots

same_stats_self : (s : Stats) → same_stats s s ≡ true
same_stats_self s = ground arith

Changing-cons :
    (s t : Stats) (rs : List Stats) → t ≢ s → Latest s rs → Changing rs → Changing (t ∷ rs)
Changing-cons s t [] n l c = tt
Changing-cons s t (r ∷ rs) n l c = ((λ e. n (e ∙ l)), c)

current_stats-frame :
    (p : Pool) (s : Stats) (r : List Stats)
    → current_stats (record p { stats = s; snapshots = r }) ≡ current_stats p
unfolding current_stats get_provisioned_count
current_stats-frame p s r = refl

current_stats-check_stats : (p : Pool) → current_stats (check_stats p) ≡ current_stats p
current_stats-check_stats p =
    check_stats_cases (λ q. current_stats q ≡ current_stats p) p (current_stats-frame p)

check_stats-Reported :
    (m : ℕ) (p : Pool) → Reported m p → IsSound m (current_stats p) → Reported m (check_stats p)
unfolding check_stats report_stats
check_stats-Reported m p r sound = elim (Bool-cases (same_stats p.stats (current_stats p))) [
  | inl e ↦ simp e r
  | inr e ↦
      simp (e, r.callback)
        (record {
          callback = refl;
          latest = refl;
          changing =
              Changing-cons p.stats (current_stats p) p.snapshots
                (λ same. cc (same_stats_self p.stats)) r.latest r.changing;
          sound = (sound, r.sound);
        })
]

module _ {m : ℕ} {p : Pool} (r : Reported m p) where
  -- A section that leaves the stats and the snapshots alone.
  same-Reported :
      (q : Pool)
      → q.has_callback ≡ p.has_callback
      → q.stats ≡ p.stats
      → q.snapshots ≡ p.snapshots
      → Reported m q
  same-Reported q c s t = record {
    callback = c ∙ r.callback;
    latest = rw (s, t) r.latest;
    changing = rw t r.changing;
    sound = rw t r.sound;
  }

  checked-Reported :
      (q : Pool)
      → q.has_callback ≡ p.has_callback
      → q.stats ≡ p.stats
      → q.snapshots ≡ p.snapshots
      → IsSound m (current_stats (check_stats q))
      → Reported m (check_stats q)
  checked-Reported q c s t sound =
      check_stats-Reported m q (same-Reported q c s t)
        (subst (IsSound m) (current_stats-check_stats q) sound)

  stop-Reported : Reported m (stop_internal p)
  unfolding stop_internal
  stop-Reported = if_cases (Reported m) p.stopped r (same-Reported _ refl refl refl)

module _ (m : ℕ) (w : World) (r : Reported m w.pool) where
  front-Reported :
      (expired : Bool) (xs : List ℕ)
      → IsSound m (current_stats (after_round w (acquire_front expired w.pool xs)).pool)
      → Reported m (after_round w (acquire_front expired w.pool xs)).pool
  unfolding acquire_front
  front-Reported true [] s = same-Reported r _ refl refl refl
  front-Reported false [] s = r
  front-Reported expired (machine ∷ rest) s = checked-Reported r _ refl refl refl s

  round-Reported :
      (expired : Bool)
      → IsSound m (current_stats (next w (rounds expired)).pool)
      → Reported m (next w (rounds expired)).pool
  unfolding acquire_round
  round-Reported expired =
      if_cases
        (λ a. IsSound m (current_stats (after_round w a).pool) → Reported m (after_round w a).pool)
        (should_stop w.pool) (λ s. same-Reported r _ refl refl refl)
        (front-Reported expired w.pool.idle_machines)

  controls-Reported :
      IsSound m (current_stats (next w controls).pool) → Reported m (next w controls).pool
  unfolding control_pass add_spawner
  controls-Reported =
      if_cases
        (λ a. IsSound m (current_stats (after_pass w a).pool) → Reported m (after_pass w a).pool)
        (should_stop w.pool) (λ s. stop-Reported r)
        (if_cases
          (λ a. IsSound m (current_stats (after_pass w a).pool) → Reported m (after_pass w a).pool)
          (want_upscale w.pool) (checked-Reported r _ refl refl refl) (λ s. r))

  next-Reported :
      (e : Event) → IsSound m (current_stats (next w e).pool) → Reported m (next w e).pool
  unfolding acquire_enter activate deactivate release add_spawner_failed spawn_one
  next-Reported enters s = checked-Reported r _ refl refl refl s
  next-Reported activates s = checked-Reported r _ refl refl refl s
  next-Reported deactivates s = same-Reported r _ refl refl refl
  next-Reported releases s = checked-Reported r _ refl refl refl s
  next-Reported controls s = controls-Reported s
  next-Reported signals s = same-Reported r _ refl refl refl
  next-Reported stops s = stop-Reported r
  next-Reported (rounds expired) s = round-Reported expired s
  next-Reported (submits queued) s = r
  next-Reported (submits refused) s = checked-Reported r _ refl refl refl s
  next-Reported (submits leaked) s = checked-Reported r _ refl refl refl s
  next-Reported (spawns none) s = checked-Reported r _ refl refl refl s
  next-Reported (spawns (some machine)) s = checked-Reported r _ refl refl refl s

Counts-IsSound :
    {clients : ℕ} (m : ℕ) (w : World)
    → Counts clients w
    → w.pool.max_concurrency ≡ m
    → IsSound m (current_stats w.pool)
unfolding current_stats
Counts-IsSound m w c e = ground (arith, provisioned-committed w c)

Reach-Reported :
    {clients : ℕ} {w v : World} {es : List Event}
    → Reach clients w es v
    → All (λ e. e ≢ submits leaked) es
    → Counts clients w
    → Reported w.pool.max_concurrency w.pool
    → Reported w.pool.max_concurrency v.pool
Reach-Reported here n c r = r
Reach-Reported {w = w} (after {v = v} reach e h) n c r =
    next-Reported w.pool.max_concurrency v (Reach-Reported reach n.1 c r) e (
      Counts-IsSound _ (next v e) (Reach-Counts (after reach e h) n c)
        (Reach-SameConfig (after reach e h)).1)

-- Over every interleaving in which no submission leaks its task, from a pool that was just started:
-- each snapshot that is taken for the callback adds up (provisioned is acquired, idle and warming
-- together), keeps to `max_concurrency`, and has no more active than acquired machines; no snapshot is
-- the same as the one before it; and the latest is the one that the pool remembers.
pub snapshots-IsSound :
    (clients idle_target max_concurrency : ℕ) {es : List Event} {w : World}
    → clients + idle_target + max_concurrency < size_mod
    → Reach clients (start idle_target max_concurrency) es w
    → All (λ e. e ≢ submits leaked) es
    → All (IsSound max_concurrency) w.pool.snapshots
      × Changing w.pool.snapshots
      × Latest w.pool.stats w.pool.snapshots
unfolding init set_stats_callback
snapshots-IsSound clients idle_target max_concurrency sized reach n =
    let r =
      Reach-Reported reach n (start-Counts clients idle_target max_concurrency sized)
        (record { callback = refl; latest = tt; changing = tt; sound = tt }) in
    (r.sound, r.changing, r.latest)
