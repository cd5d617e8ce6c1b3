-- ===== src/Pool/Scaling.antt =====
-- How far the pool scales up: to `idle_target` machines beyond the active ones, and to no more than
-- `max_concurrency`; and that it does so.
use gar_virt.Prelude.{
  Bool-cases, length, length-append, ℕ, ◌+◌, ◌-◌, ◌<◌, min, ◌≡◌, refl, sym, ap, ◌∙◌, ◌↔◌, inl, inr,
  true, false, some, List, [], ◌∷◌, ◌++◌, append_assoc, append-nil, arith,
}
use gar_virt.Prelude.Words.{add_size-lt}
use gar_virt.Pool.{Pool, should_stop, want_upscale, add_spawner, control_pass, spawn_one}
use gar_virt.Pool.World.{
  watching, queued, World, controls, submits, spawns, Event, next, here, after, Reach,
}
use gar_virt.Pool.Counting.{check_stats_cases, committed, Counts, want_upscale-below, Reach-Counts}
use gar_virt.Pool.Cap.{SameConfig, provisioned-committed}

-- The number of machines that the pool aims at.
abbrev pub aim : World → ℕ
aim w = min (w.pool.idle_target + w.activated) w.pool.max_concurrency

-- As long as the counters are right: the pool wants another machine exactly if it has fewer than it
-- aims at, which is the idle target and the active machines together, or the cap if that is lower.
pub want_upscale_iff :
    {clients : ℕ} (w : World)
    → Counts clients w
    → (want_upscale w.pool ≡ true) ↔ (committed w < aim w)
want_upscale_iff w c = (λ h. omega (arith, want_upscale-below w c h), back)
  where
    back : committed w < aim w → want_upscale w.pool ≡ true
    back h =
        unfold want_upscale in
        ground
          (arith, provisioned-committed w c, add_size-lt w.pool.idle_target w.pool.counters.active)

-- One machine more: a pass of the control thread, the submission, and the task's success.
abbrev pub grow : ℕ → World → World
grow machine w = next (next (next w controls) (submits queued)) (spawns (some machine))

-- What `grow` does to a pool that is watching and wants a machine.
record Grown (machine : ℕ) (w v : World) : Type 0 where
  config : SameConfig w.pool v.pool
  runs : should_stop v.pool ≡ should_stop w.pool
  phase : v.phase ≡ watching
  holders : v.holders ≡ w.holders
  activated : v.activated ≡ w.activated
  waiters : v.waiters ≡ w.waiters
  tasks : v.tasks ≡ w.tasks
  idle : v.pool.idle_machines ≡ w.pool.idle_machines ++ machine ∷ []

spawned-Grown :
    (machine : ℕ) (w : World) (p : Pool)
    → SameConfig w.pool p
    → should_stop p ≡ should_stop w.pool
    → p.idle_machines ≡ w.pool.idle_machines
    → Grown machine w (
        next
          (record w { pool = p; phase = watching; fail_count = 0; tasks = w.tasks + 1 })
          (spawns (some machine)))
unfolding spawn_one should_stop
spawned-Grown machine w p same e f =
    check_stats_cases
      (λ q. Grown machine w (record w {
        pool = q;
        phase = watching;
        fail_count = 0;
        tasks = w.tasks + 1 - 1;
        spawned = w.spawned ++ machine ∷ [];
      }))
      _ (λ s r. ground arith)

grow-Grown :
    (machine : ℕ) (w : World)
    → should_stop w.pool ≡ false
    → want_upscale w.pool ≡ true
    → Grown machine w (grow machine w)
unfolding control_pass add_spawner should_stop
grow-Grown machine w runs wants =
    rw (runs, wants)
      (check_stats_cases
        (λ q. Grown machine w (
          next (record w { pool = q; phase = watching; fail_count = 0; tasks = w.tasks + 1 })
            (spawns (some machine))))
        _ (λ s r. spawned-Grown machine w _ (refl, refl) refl refl))

Grown-committed :
    (machine : ℕ) (w v : World)
    → w.phase ≡ watching
    → Grown machine w v
    → (committed v ≡ committed w + 1) × (aim v ≡ aim w)
Grown-committed machine w v e g =
    ground (arith, ap length g.idle, length-append w.pool.idle_machines (machine ∷ []))

grow-Reach :
    {clients : ℕ} (machine : ℕ) (w : World)
    → w.phase ≡ watching
    → should_stop w.pool ≡ false
    → want_upscale w.pool ≡ true
    → Reach clients w (spawns (some machine) ∷ submits queued ∷ controls ∷ []) (grow machine w)
unfolding control_pass
grow-Reach machine w watches runs wants =
    after (after (after here controls watches) (submits queued) (rw (runs, wants)))
      (spawns (some machine)) (omega arith)

Reach-trans :
    {clients : ℕ} {u v w : World} {es fs : List Event}
    → Reach clients u es v
    → Reach clients v fs w
    → Reach clients u (fs ++ es) w
Reach-trans r here = r
Reach-trans r (after s e h) = after (Reach-trans r s) e h

abbrev pub grow_all : List ℕ → World → World
grow_all [] w = w
grow_all (machine ∷ machines) w = grow_all machines (grow machine w)

-- The events of `grow_all`, latest first.
abbrev pub grow_events : List ℕ → List Event
grow_events [] = []
grow_events (machine ∷ machines) =
    grow_events machines ++ spawns (some machine) ∷ submits queued ∷ controls ∷ []

grow-Counts :
    {clients : ℕ} (machine : ℕ) (w : World)
    → w.phase ≡ watching
    → should_stop w.pool ≡ false
    → want_upscale w.pool ≡ true
    → Counts clients w
    → Counts clients (grow machine w)
grow-Counts machine w watches runs wants c =
    Reach-Counts (grow-Reach machine w watches runs wants) ((λ e. cc), ((λ e. cc), ((λ e. cc), tt)))
      c

-- From any state in which the counters are right, the control thread is between passes and the pool is
-- not to stop: if the spawner delivers just the machines that are missing to the pool's aim, the passes
-- of the control thread with their submissions and tasks are all possible, one after the other; they
-- end with as many machines as the pool aims at, the new ones idle behind the old in the order of their
-- delivery; and then the pool wants no more.
pub grow_all-fills :
    {clients : ℕ} (machines : List ℕ) (w : World)
    → Counts clients w
    → w.phase ≡ watching
    → should_stop w.pool ≡ false
    → committed w + length machines ≡ aim w
    → Reach clients w (grow_events machines) (grow_all machines w)
      × (committed (grow_all machines w) ≡ aim w)
      × ((grow_all machines w).pool.idle_machines ≡ w.pool.idle_machines ++ machines)
      × (want_upscale (grow_all machines w).pool ≡ false)
grow_all-fills [] w c watches runs e = (
  here,
  omega (arith, e),
  sym (append-nil w.pool.idle_machines),
  elim (Bool-cases (want_upscale w.pool)) [
    | inl wants ↦ absurd (omega (arith, (want_upscale_iff w c).0 wants, e))
    | inr no_more ↦ no_more
  ],
)
grow_all-fills (machine ∷ machines) w c watches runs e =
    let wants = (want_upscale_iff w c).1 (omega (arith, e)) in
    let g = grow-Grown machine w runs wants in
    let (one, same) = Grown-committed machine w (grow machine w) watches g in
    let (r, full, idle, done) =
      grow_all-fills machines (grow machine w) (grow-Counts machine w watches runs wants c) g.phase
        (g.runs ∙ runs) (rw (one, same) (omega (arith, e))) in
    (
      Reach-trans (grow-Reach machine w watches runs wants) r,
      full ∙ same,
      idle
          ∙ ap (λ xs. xs ++ machines) g.idle
          ∙ append_assoc w.pool.idle_machines (machine ∷ []) machines,
      done,
    )
