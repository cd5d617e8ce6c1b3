-- ===== src/Pool/Starving.antt =====
-- A pool whose idle target is zero. The target of `want_upscale` is the idle target and the active
-- machines together, and a machine has to be there before it can be active.
use gar_virt.Prelude.{
  Bool-cases, if_cases, length, All, ℕ, ◌+◌, ◌<◌, ◌≡◌, refl, ap, ◌≢◌, inl, inr, Bool, List, [], ◌∷◌,
  arith,
}
use gar_virt.Prelude.Words.{size_mod}
use gar_virt.Pool.{
  Pool, init, set_stats_callback, should_stop, check_stats, acquire_enter, acquire_front,
  acquire_round, activate, deactivate, release, stop_internal, want_upscale, control_pass,
}
use gar_virt.Pool.World.{
  leaked, World, enters, activates, deactivates, releases, controls, signals, stops, rounds,
  submits, spawns, Event, after_round, after_pass, next, Enabled, here, after, Reach, start,
}
use gar_virt.Pool.Counting.{check_stats_cases, committed, Counts, want_upscale-below, Reach-Counts}
use gar_virt.Pool.Cap.{start-Counts}

record Empty (w : World) : Type 0 where
  nothing : committed w ≡ 0
  target : w.pool.idle_target ≡ 0
  handed : w.handed ≡ []
  spawned : w.spawned ≡ []

checked-Empty :
    (w : World) (p : Pool)
    → Empty (record w { pool = p })
    → Empty (record w { pool = check_stats p })
checked-Empty w p h =
    check_stats_cases (λ q. Empty (record w { pool = q })) p
      (λ s r. record {
        nothing = h.nothing;
        target = h.target;
        handed = h.handed;
        spawned = h.spawned;
      })

module _ (clients : ℕ) (w : World) (h : Empty w) where
  front-Empty :
      (expired : Bool) (xs : List ℕ)
      → w.pool.idle_machines ≡ xs
      → Empty (after_round w (acquire_front expired w.pool xs))
  unfolding acquire_front
  front-Empty expired [] e = ground arith
  front-Empty expired (machine ∷ rest) e = absurd (omega (arith, ap length e, h.nothing))

  controls-Empty : Counts clients w → Empty (next w controls)
  unfolding control_pass stop_internal
  controls-Empty c = elim (Bool-cases (want_upscale w.pool)) [
    | inl e ↦ absurd (omega (arith, want_upscale-below w c e, h.nothing, h.target))
    | inr e ↦ rw e (if_cases (λ a. Empty (after_pass w a)) (should_stop w.pool) (ground arith) h)
  ]

  next-Empty : (e : Event) → Enabled clients w e → Counts clients w → Empty (next w e)
  unfolding acquire_enter acquire_round activate deactivate release stop_internal
  next-Empty enters _ c = checked-Empty (record w { waiters = w.waiters + 1 }) _ (ground arith)
  next-Empty activates a c = absurd (omega (arith, h.nothing))
  next-Empty deactivates a c = ground arith
  next-Empty releases a c = absurd (omega (arith, h.nothing))
  next-Empty controls a c = controls-Empty c
  next-Empty signals a c = ground arith
  next-Empty stops a c = ground arith
  next-Empty (rounds expired) a c =
      if_cases (λ r. Empty (after_round w r)) (should_stop w.pool) (ground arith)
        (front-Empty expired w.pool.idle_machines refl)
  next-Empty (submits s) a c = absurd (ground (arith, h.nothing))
  next-Empty (spawns outcome) a c = absurd (omega (arith, h.nothing))

Reach-Empty :
    {clients : ℕ} {w v : World} {es : List Event}
    → Reach clients w es v
    → All (λ e. e ≢ submits leaked) es
    → Counts clients w
    → Empty w
    → Empty v
Reach-Empty here n c h = h
Reach-Empty (after {v = v} r e a) n c h =
    next-Empty _ v (Reach-Empty r n.1 c h) e a (Reach-Counts r n.1 c)

-- With an idle target of zero, over every interleaving in which no submission leaks its task: the pool
-- never spawns a machine and no client ever gets one, whatever `max_concurrency` is and however many
-- clients wait.
pub zero_target_starves :
    (clients max_concurrency : ℕ) {es : List Event} {w : World}
    → clients + max_concurrency < size_mod
    → Reach clients (start 0 max_concurrency) es w
    → All (λ e. e ≢ submits leaked) es
    → (w.spawned ≡ []) × (w.handed ≡ []) × (committed w ≡ 0)
unfolding init set_stats_callback
zero_target_starves clients max_concurrency sized r n =
    let h =
      Reach-Empty r n (start-Counts clients 0 max_concurrency (omega (arith, sized)))
        (record { nothing = refl; target = refl; handed = refl; spawned = refl }) in
    (h.spawned, h.handed, h.nothing)
