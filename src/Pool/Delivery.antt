-- ===== src/Pool/Delivery.antt =====
-- What the callback for the stats is told. `report_stats` takes a snapshot, gives the mutex up and calls the
-- callback: the calls of different threads can run at once and overtake each other.
use gar_virt.Prelude.{
  if_cases, length, take, length-append, All, ℕ, suc, ◌+◌, ◌-◌, ◌<◌, ◌≡◌, refl, sym, ap, subst, ◌∙◌,
  ◌≢◌, Bool, true, false, none, some, List, [], ◌∷◌, ◌++◌, arith,
}
use gar_virt.Prelude.Words.{size_mod}
use mathlib.Core.List.{Perm, perm_middle}
use mathlib.Core.List.Perm
use gar_virt.Pool.{
  Stats, Pool, init, set_stats_callback, should_stop, current_stats, same_stats, report_stats,
  check_stats, acquire_enter, acquire_front, acquire_round, activate, deactivate, release,
  stop_internal, want_upscale, add_spawner, add_spawner_failed, control_pass, spawn_one,
}
use gar_virt.Pool.World.{
  queued, refused, leaked, World, enters, activates, deactivates, releases, controls, signals,
  stops, rounds, submits, spawns, Event, after_round, after_pass, next, Enabled, here, after, Reach,
  start,
}
use gar_virt.Pool.Reporting.{IsSound, Latest, Changing, snapshots-IsSound}

-- The snapshots that an event adds.
abbrev pub taken : World → Event → List Stats
taken w e =
    take (length (next w e).pool.snapshots - length w.pool.snapshots) (next w e).pool.snapshots

-- The histories, with the snapshots for which the callback is due and those that it was given, latest
-- first. Any snapshot that is due can be the next one.
pub data Delivers (clients : ℕ) (w : World)
    : List Event → World → List Stats → List Stats → Type 0 where
  at_begin : Delivers clients w [] w [] []
  runs :
      {es : List Event} {v : World} {due given : List Stats}
      → Delivers clients w es v due given
      → (e : Event) → Enabled clients v e
      → Delivers clients w (e ∷ es) (next v e) (taken v e ++ due) given
  calls :
      {es : List Event} {v : World} {due given : List Stats}
      → Delivers clients w es v due given
      → (before behind : List Stats) (s : Stats) → due ≡ before ++ s ∷ behind
      → Delivers clients w es v (before ++ behind) (s ∷ given)

Delivers-Reach :
    {clients : ℕ} {w v : World} {es : List Event} {due given : List Stats}
    → Delivers clients w es v due given
    → Reach clients w es v
Delivers-Reach at_begin = here
Delivers-Reach (runs d e h) = after (Delivers-Reach d) e h
Delivers-Reach (calls d before behind s same) = Delivers-Reach d

-- A pool with these snapshots and perhaps more.
abbrev Grown : List Stats → Pool → Type 0
Grown old p = (more : List Stats) × (p.snapshots ≡ more ++ old)

check_stats-Grown : (old : List Stats) (p : Pool) → p.snapshots ≡ old → Grown old (check_stats p)
unfolding check_stats report_stats
check_stats-Grown old p e =
    if_cases (Grown old) (same_stats p.stats (current_stats p)) ([], e)
      (if_cases (Grown old) p.has_callback (current_stats p ∷ [], ap (λ r. current_stats p ∷ r) e)
        ([], e))

module _ (w : World) where
  front-Grown :
      (expired : Bool) (xs : List ℕ)
      → Grown w.pool.snapshots (after_round w (acquire_front expired w.pool xs)).pool
  unfolding acquire_front
  front-Grown true [] = ([], refl)
  front-Grown false [] = ([], refl)
  front-Grown expired (machine ∷ rest) = check_stats-Grown _ _ refl

  round-Grown : (expired : Bool) → Grown w.pool.snapshots (next w (rounds expired)).pool
  unfolding acquire_round
  round-Grown expired =
      if_cases (λ a. Grown w.pool.snapshots (after_round w a).pool) (should_stop w.pool) ([], refl)
        (front-Grown expired w.pool.idle_machines)

  stop-Grown : Grown w.pool.snapshots (stop_internal w.pool)
  unfolding stop_internal
  stop-Grown = if_cases (Grown w.pool.snapshots) w.pool.stopped ([], refl) ([], refl)

  controls-Grown : Grown w.pool.snapshots (next w controls).pool
  unfolding control_pass add_spawner
  controls-Grown =
      if_cases (λ a. Grown w.pool.snapshots (after_pass w a).pool) (should_stop w.pool) stop-Grown
        (if_cases (λ a. Grown w.pool.snapshots (after_pass w a).pool) (want_upscale w.pool)
          (check_stats-Grown _ _ refl) ([], refl))

  next-Grown : (e : Event) → Grown w.pool.snapshots (next w e).pool
  unfolding acquire_enter activate deactivate release add_spawner_failed spawn_one
  next-Grown enters = check_stats-Grown _ _ refl
  next-Grown activates = check_stats-Grown _ _ refl
  next-Grown deactivates = ([], refl)
  next-Grown releases = check_stats-Grown _ _ refl
  next-Grown controls = controls-Grown
  next-Grown signals = ([], refl)
  next-Grown stops = stop-Grown
  next-Grown (rounds expired) = round-Grown expired
  next-Grown (submits queued) = ([], refl)
  next-Grown (submits refused) = check_stats-Grown _ _ refl
  next-Grown (submits leaked) = check_stats-Grown _ _ refl
  next-Grown (spawns none) = check_stats-Grown _ _ refl
  next-Grown (spawns (some machine)) = check_stats-Grown _ _ refl

  take-front :
      (more old : List Stats) → take (length (more ++ old) - length old) (more ++ old) ≡ more
  take-front [] old =
      let nothing : length old - length old ≡ 0 = omega arith in ap (λ n. take n old) nothing
  take-front (s ∷ more) old =
      let longer : suc (length (more ++ old)) - length old
          ≡ suc (length (more ++ old) - length old) =
        omega (arith, length-append more old) in
      ap (λ n. take n (s ∷ (more ++ old))) longer ∙ ap (λ l. s ∷ l) (take-front more old)

  next-taken : (e : Event) → (next w e).pool.snapshots ≡ taken w e ++ w.pool.snapshots
  next-taken e =
      let (more, grown) = next-Grown e in
      let all : taken w e ≡ more =
        ap (λ l. take (length l - length w.pool.snapshots) l) grown
        ∙ take-front more w.pool.snapshots in
      grown ∙ ap (λ l. l ++ w.pool.snapshots) (sym all)

-- Moving some elements to the front.
move_front : (xs ys zs : List Stats) → Perm (xs ++ (ys ++ zs)) (ys ++ (xs ++ zs))
move_front [] ys zs = Perm.refl (ys ++ zs)
move_front (x ∷ xs) ys zs =
    Perm.trans (Perm.cons x (move_front xs ys zs)) (Perm.symm (perm_middle ys (xs ++ zs)))

Delivers-Perm :
    {clients : ℕ} {w v : World} {es : List Event} {due given : List Stats}
    → w.pool.snapshots ≡ []
    → Delivers clients w es v due given
    → Perm (given ++ due) v.pool.snapshots
Delivers-Perm none_yet at_begin = rw none_yet (Perm.refl [])
Delivers-Perm none_yet (runs {v = v} {due = due} {given = given} d e h) =
    subst (λ l. Perm (given ++ (taken v e ++ due)) l) (sym (next-taken v e))
      (Perm.trans (move_front given (taken v e) due)
        (Perm.append_left (taken v e) (Delivers-Perm none_yet d)))
Delivers-Perm none_yet (calls {v = v} {due = due} {given = given} d before behind s same) =
    Perm.trans (Perm.symm (perm_middle given (before ++ behind))) (
      Perm.trans (Perm.append_left given (Perm.symm (perm_middle before behind)))
        (subst (λ l. Perm (given ++ l) v.pool.snapshots) same (Delivers-Perm none_yet d)))

All-parts : (P : Stats → Type 0) (xs ys : List Stats) → All P (xs ++ ys) → All P xs × All P ys
All-parts P [] ys h = (tt, h)
All-parts P (x ∷ xs) ys (h, hs) = let (front, behind) = All-parts P xs ys hs in ((h, front), behind)

All-both : (P : Stats → Type 0) (xs ys : List Stats) → All P xs → All P ys → All P (xs ++ ys)
All-both P [] ys hs hs' = hs'
All-both P (x ∷ xs) ys (h, hs) hs' = (h, All-both P xs ys hs hs')

module _ (clients idle_target max_concurrency : ℕ)
    (sized : clients + idle_target + max_concurrency < size_mod) where
  abbrev begun : World
  begun = start idle_target max_concurrency

  Delivers-IsSound :
      {es : List Event} {v : World} {due given : List Stats}
      → Delivers clients begun es v due given
      → All (λ e. e ≢ submits leaked) es
      → All (IsSound max_concurrency) due × All (IsSound max_concurrency) given
  Delivers-IsSound at_begin n = (tt, tt)
  Delivers-IsSound (runs {v = v} {due = due} d e h) n =
      let (due_sound, given_sound) = Delivers-IsSound d n.1 in
      let reach = after (Delivers-Reach d) e h in
      let (all_sound, changing, latest) =
        snapshots-IsSound clients idle_target max_concurrency sized reach n in
      let (new_sound, old_sound) =
        All-parts _ (taken v e) v.pool.snapshots
          (subst (All (IsSound max_concurrency)) (next-taken v e) all_sound) in
      (All-both _ (taken v e) due new_sound due_sound, given_sound)
  Delivers-IsSound (calls d before behind s same) n =
      let (due_sound, given_sound) = Delivers-IsSound d n in
      let (front_sound, rest_sound) =
        All-parts _ before (s ∷ behind) (subst (All (IsSound max_concurrency)) same due_sound) in
      (All-both _ before behind front_sound rest_sound.1, (rest_sound.0, given_sound))

-- Over every interleaving of the threads and the callback's calls in which no submission leaks its task,
-- from a pool that was just started: each snapshot that the callback is given adds up (provisioned is
-- acquired, idle and warming together), keeps to `max_concurrency`, and has no more active than
-- acquired machines; and the snapshots that it was given and those that are due are together the
-- ones that were taken, each as often, in an order that is not promised. In the order in which they
-- were taken, no snapshot is the same as the one before it, and the latest is the one that the pool
-- remembers.
pub deliveries-IsSound :
    (clients idle_target max_concurrency : ℕ) {es : List Event} {w : World} {due given : List Stats}
    → clients + idle_target + max_concurrency < size_mod
    → Delivers clients (start idle_target max_concurrency) es w due given
    → All (λ e. e ≢ submits leaked) es
    → All (IsSound max_concurrency) given
      × Perm (given ++ due) w.pool.snapshots
      × Changing w.pool.snapshots
      × Latest w.pool.stats w.pool.snapshots
unfolding init set_stats_callback
deliveries-IsSound clients idle_target max_concurrency sized d n =
    let (sound, changing, latest) =
      snapshots-IsSound clients idle_target max_concurrency sized (Delivers-Reach d) n in
    (
      (Delivers-IsSound clients idle_target max_concurrency sized d n).1,
      Delivers-Perm refl d,
      changing,
      latest,
    )
