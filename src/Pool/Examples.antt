-- ===== src/Pool/Examples.antt =====
-- Runs of the pool with an idle target of two, a cap of four and four clients.
use gar_virt.Prelude.{
  length, All, ℕ, ◌+◌, ◌≤◌, ◌≡◌, refl, ap, ◌≢◌, true, false, some, List, [], ◌∷◌, ◌++◌, arith,
}
use gar_virt.Prelude.Words.{add_size, inc_size, dec_size}
use gar_virt.Pool.{
  Stats, init, set_stats_callback, should_stop, get_provisioned_count, current_stats, report_stats,
  check_stats, acquire_enter, acquire_front, acquire_round, activate, stop_internal, want_upscale,
  add_spawner, control_pass, spawn_one,
}
use gar_virt.Pool.World.{
  submitting, queued, leaked, World, enters, activates, controls, signals, rounds, submits, spawns,
  Event, next, here, after, Reach, start,
}
use gar_virt.Pool.Counting.{pending, committed, Counts, Reach-Counts}
use gar_virt.Pool.Cap.{start-Counts, machines_capped}
use gar_virt.Pool.History.{handed_in_order}
use gar_virt.Pool.Delivery.{at_begin, runs, calls, Delivers, deliveries-IsSound}
use mathlib.Core.List.{Perm}
use gar_virt.Pool.Reporting.{IsSound, Latest, Changing}
use gar_virt.Pool.Scaling.{aim, grow_all, grow_events, grow_all-fills}
use gar_virt.Pool.Overshoot.{leaks, leak_events, leaks_exceed}
use gar_virt.Pool.Stopping.{stopped_for_good}
use gar_virt.Pool.Starving.{zero_target_starves}

-- A client waits, a machine is spawned, the client gets it and activates it; latest event first.
abbrev served_events : List Event
served_events = activates ∷ rounds false ∷ spawns (some 7) ∷ submits queued ∷ controls ∷ enters ∷ []

abbrev play : World → List Event → World
play w [] = w
play w (e ∷ es) = next (play w es) e

abbrev served : World
served = play (start 2 4) served_events

served-Reach : Reach 4 (start 2 4) served_events served
unfolding init set_stats_callback should_stop get_provisioned_count current_stats report_stats
    check_stats acquire_enter acquire_front acquire_round activate want_upscale add_spawner
    control_pass spawn_one add_size inc_size dec_size
served-Reach =
    after
      (after
        (after (after (after (after here enters (omega arith)) controls refl) (submits queued) refl)
          (spawns (some 7)) (omega arith))
        (rounds false) (omega arith))
      activates (omega arith)

no_leaks : All (λ e. e ≢ submits leaked) served_events
no_leaks = ((λ e. cc), ((λ e. cc), ((λ e. cc), ((λ e. cc), ((λ e. cc), ((λ e. cc), tt))))))

served-Counts : Counts 4 served
served-Counts = Reach-Counts served-Reach no_leaks (start-Counts 4 2 4 (omega arith))

served_counters :
    (served.pool.counters.active ≡ 1)
    × (served.handed ≡ 7 ∷ [])
    × (want_upscale served.pool ≡ true)
    × (length served.pool.snapshots ≡ 5)
unfolding init set_stats_callback should_stop get_provisioned_count current_stats report_stats
    check_stats acquire_enter acquire_front acquire_round activate want_upscale add_spawner
    control_pass spawn_one add_size inc_size dec_size
served_counters = (refl, refl, refl, refl)

machines_capped_example :
    (committed served ≤ 4)
    × (get_provisioned_count served.pool ≡ committed served)
    × (served.pool.counters.acquiring ≡ served.waiters)
    × (served.pool.counters.acquired ≡ served.holders)
    × (served.pool.counters.active ≡ served.activated)
    × (served.pool.counters.warming ≡ served.tasks + pending served.phase)
machines_capped_example = machines_capped 4 2 4 (omega arith) served-Reach no_leaks

handed_in_order_example : served.handed ++ served.pool.idle_machines ≡ served.spawned
handed_in_order_example = handed_in_order 4 2 4 served-Reach

abbrev fresh : World
fresh = start 2 4

fresh-Counts : Counts 4 fresh
fresh-Counts = start-Counts 4 2 4 (omega arith)

grow_all-fills_example :
    Reach 4 fresh (grow_events (7 ∷ 8 ∷ [])) (grow_all (7 ∷ 8 ∷ []) fresh)
    × (committed (grow_all (7 ∷ 8 ∷ []) fresh) ≡ aim fresh)
    × ((grow_all (7 ∷ 8 ∷ []) fresh).pool.idle_machines ≡ fresh.pool.idle_machines ++ 7 ∷ 8 ∷ [])
    × (want_upscale (grow_all (7 ∷ 8 ∷ []) fresh).pool ≡ false)
unfolding init set_stats_callback should_stop
grow_all-fills_example = grow_all-fills (7 ∷ 8 ∷ []) fresh fresh-Counts refl refl (omega arith)

leaks_exceed_example :
    Reach 4 fresh (leak_events 9) (leaks 9 fresh)
    × (committed (leaks 9 fresh) ≡ committed fresh + 9)
    × ((leaks 9 fresh).pool.counters ≡ fresh.pool.counters)
    × (want_upscale (leaks 9 fresh).pool ≡ true)
unfolding init set_stats_callback should_stop want_upscale get_provisioned_count add_size
leaks_exceed_example = leaks_exceed 9 fresh refl (omega arith) refl refl

-- A client waits and the control thread begins a spawn; the callback is told of the latter first.
abbrev busy : World
busy = next (next fresh enters) controls

abbrev told : List Stats
told = current_stats (next fresh enters).pool ∷ current_stats busy.pool ∷ []

busy-Delivers : Delivers 4 fresh (controls ∷ enters ∷ []) busy [] told
unfolding init set_stats_callback should_stop get_provisioned_count current_stats report_stats
    check_stats acquire_enter want_upscale add_spawner control_pass add_size inc_size
busy-Delivers =
    calls
      (calls (runs (runs at_begin enters (omega arith)) controls refl) []
        (current_stats (next fresh enters).pool ∷ []) (current_stats busy.pool) refl)
      [] [] (current_stats (next fresh enters).pool) refl

overtaken : ¬ Latest busy.pool.stats told
unfolding init set_stats_callback should_stop get_provisioned_count current_stats report_stats
    check_stats acquire_enter want_upscale add_spawner control_pass add_size inc_size
overtaken e = let warming : ◌≡◌ {A = ℕ} 0 1 = ap (λ s. s.warming) e in absurd (omega arith)

deliveries-IsSound_example :
    All (IsSound 4) told
    × Perm (told ++ []) busy.pool.snapshots
    × Changing busy.pool.snapshots
    × Latest busy.pool.stats busy.pool.snapshots
deliveries-IsSound_example =
    deliveries-IsSound 4 2 4 (omega arith) busy-Delivers ((λ e. cc), ((λ e. cc), tt))

abbrev halted : World
halted = next fresh signals

stopped_for_good_example :
    (should_stop (next halted controls).pool ≡ true)
    × ((next halted controls).phase ≢ submitting)
    × ((next halted controls).handed ≡ halted.handed)
    × ((next halted controls).tasks ≤ halted.tasks)
unfolding init set_stats_callback should_stop control_pass stop_internal
stopped_for_good_example =
    stopped_for_good {clients = 4} {w = halted} (after here controls refl) refl (λ e. cc)

zero_target_starves_example :
    ((next (start 0 4) enters).spawned ≡ [])
    × ((next (start 0 4) enters).handed ≡ [])
    × (committed (next (start 0 4) enters) ≡ 0)
zero_target_starves_example =
    zero_target_starves 4 4 (omega arith) (after here enters (omega arith)) ((λ e. cc), tt)
