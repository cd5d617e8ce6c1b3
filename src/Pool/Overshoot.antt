-- ===== src/Pool/Overshoot.antt =====
-- What a leaked submission does: `m_workers.put` queues the task before it starts a thread for it, and
-- if starting the thread throws, `add_spawner` takes its count back though the task is still to run.
use gar_virt.Prelude.{
  length, ℕ, zero, suc, ◌+◌, ◌<◌, ◌≡◌, refl, ap, ◌∙◌, true, false, List, [], ◌∷◌, arith,
}
use gar_virt.Prelude.Words.{size_mod, inc_size, dec_size}
use gar_virt.Pool.{
  should_stop, get_provisioned_count, want_upscale, add_spawner, add_spawner_failed, control_pass,
}
use gar_virt.Pool.World.{
  watching, submitting, leaked, World, controls, submits, Event, next, here, after, Reach,
}
use gar_virt.Pool.Counting.{check_stats_cases, committed}
use gar_virt.Pool.Cap.{SameConfig}

abbrev leak : World → World
leak w = next (next w controls) (submits leaked)

-- After a leak the pool counts what it counted before, and there is one task more.
record Leaked (w v : World) : Type 0 where
  config : SameConfig w.pool v.pool
  counters : v.pool.counters ≡ w.pool.counters
  idle : v.pool.idle_machines ≡ w.pool.idle_machines
  flags : (v.pool.stopped ≡ w.pool.stopped) × (v.pool.signalled ≡ w.pool.signalled)
  phase : v.phase ≡ watching
  holders : v.holders ≡ w.holders
  tasks : v.tasks ≡ w.tasks + 1

dec-inc_size : (a : ℕ) → a < size_mod → dec_size (inc_size a) ≡ a
unfolding inc_size dec_size
dec-inc_size a h = omega arith

leak-Leaked :
    (w : World)
    → w.pool.counters.warming < size_mod
    → should_stop w.pool ≡ false
    → want_upscale w.pool ≡ true
    → Leaked w (leak w)
unfolding control_pass add_spawner add_spawner_failed
leak-Leaked w fits runs wants =
    rw (runs, wants)
      (check_stats_cases
        (λ q. Leaked w (next (record w { pool = q; phase = submitting }) (submits leaked))) _
        (λ s r.
          check_stats_cases
            (λ q. Leaked w (record w {
              pool = q;
              phase = watching;
              fail_count = inc_size w.fail_count;
              tasks = w.tasks + 1;
            }))
            _ (λ s' r'. ground (arith, dec-inc_size w.pool.counters.warming))))

Leaked-want_upscale : {w v : World} → Leaked w v → want_upscale v.pool ≡ want_upscale w.pool
unfolding want_upscale get_provisioned_count
Leaked-want_upscale l = rw (l.counters, l.idle, l.config.0, l.config.1)

Leaked-should_stop : {w v : World} → Leaked w v → should_stop v.pool ≡ should_stop w.pool
unfolding should_stop
Leaked-should_stop l = rw (l.flags.0, l.flags.1)

abbrev pub leaks : ℕ → World → World
leaks zero w = w
leaks (suc k) w = leak (leaks k w)

abbrev pub leak_events : ℕ → List Event
leak_events zero = []
leak_events (suc k) = submits leaked ∷ controls ∷ leak_events k

leaks_keep :
    (k : ℕ) (w : World)
    → w.phase ≡ watching
    → w.pool.counters.warming < size_mod
    → should_stop w.pool ≡ false
    → want_upscale w.pool ≡ true
    → ((leaks k w).phase ≡ watching)
      × ((leaks k w).pool.counters ≡ w.pool.counters)
      × (should_stop (leaks k w).pool ≡ false)
      × (want_upscale (leaks k w).pool ≡ true)
      × (committed (leaks k w) ≡ committed w + k)
leaks_keep zero w watches fits runs wants = (watches, refl, runs, wants, omega arith)
leaks_keep (suc k) w watches fits runs wants =
    let (ph, co, st, up, total) = leaks_keep k w watches fits runs wants in
    let l = leak-Leaked (leaks k w) (rw co fits) st up in
    (
      l.phase,
      l.counters ∙ co,
      Leaked-should_stop l ∙ st,
      Leaked-want_upscale l ∙ up,
      Leaked-committed (leaks k w) (leak (leaks k w)) ph l
          ∙ ap (λ (n : ℕ). n + 1) total
          ∙ omega arith,
    )
  where
    Leaked-committed :
        (u v : World) → u.phase ≡ watching → Leaked u v → committed v ≡ committed u + 1
    Leaked-committed u v e l = ground (arith, ap length l.idle)

leaks-Reach :
    {clients : ℕ} (k : ℕ) (w : World)
    → w.phase ≡ watching
    → w.pool.counters.warming < size_mod
    → should_stop w.pool ≡ false
    → want_upscale w.pool ≡ true
    → Reach clients w (leak_events k) (leaks k w)
leaks-Reach zero w watches fits runs wants = here
leaks-Reach (suc k) w watches fits runs wants =
    let (ph, _, st, up, _) = leaks_keep k w watches fits runs wants in
    after (after (leaks-Reach k w watches fits runs wants) controls ph) (submits leaked)
      (unfold control_pass in rw (st, up))

-- From every state in which the control thread is between passes and the pool wants a machine and is
-- not to stop, and for every number `k`: `k` submissions in a row that leak their tasks are possible,
-- and leave `k` more machines on order than before, while the counters say what they said and the pool
-- still wants a machine. So the cap on machines does not hold where starting a worker thread fails.
pub leaks_exceed :
    {clients : ℕ} (k : ℕ) (w : World)
    → w.phase ≡ watching
    → w.pool.counters.warming < size_mod
    → should_stop w.pool ≡ false
    → want_upscale w.pool ≡ true
    → Reach clients w (leak_events k) (leaks k w)
      × (committed (leaks k w) ≡ committed w + k)
      × ((leaks k w).pool.counters ≡ w.pool.counters)
      × (want_upscale (leaks k w).pool ≡ true)
leaks_exceed k w watches fits runs wants =
    let (_, counters, _, up, total) = leaks_keep k w watches fits runs wants in
    (leaks-Reach k w watches fits runs wants, total, counters, up)
