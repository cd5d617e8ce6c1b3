-- ===== src/App/Iteration.antt =====
-- The iterations of the runner loop keep to the protocol.
use gar_virt.Prelude.{
  ◌==◌, Bool-cases, Bytes, ok, err, Result, ℕ, suc, ◌≡◌, refl, ◌⊎◌, inl, inr, Option, none, some,
  List, arith,
}
use gar_virt.Programs.{request, on_ok, and_then, run}
use gar_virt.Programs.Safety.{
  Holds, Trail, Safe, Safe-run, Safe-bind, and_then-Safe, if-Safe, Safe-weaken,
}
use gar_virt.App.{
  Error, Machine, SpawnResult, acquire, release, remove_runner, write_file, shell_exec, Event,
  Environment,
}
use gar_virt.App.Runner.{Runner, TaskParcel, connect}
use gar_virt.App.Task.{
  Library, Injectables, inject_runner_files, check_exit, execute_task_in_machine,
}
use gar_virt.App.Loop.{
  Config, fetch_task, create_runner, report_failure, run_task, with_runner, unregister,
  with_machine, acquired, runner_loop_iteration,
}
use gar_virt.App.Protocol.{
  outside, holding, leaving, registered, assigned, unreported, active, unsuccessful, finished,
  closing, stranded, left_behind, Phase, look, pass, receive_none, receive, give_back,
  give_back_unused, give_back_stranded, report_late, set_to_work, written, not_written, succeed,
  not_succeed, report, rest, unused, unreported_goes, unregistered, Step,
}
use gar_virt.App.Registering.{AtConnect, connect-Safe, AtAssigned, fetch_task-Safe}

abbrev AtWrite : ℕ → Machine → ℕ → ℕ → Result Error (Unit {0}) → Phase → Type 0
AtWrite n m r k (ok u) p = p ≡ active n m r k
AtWrite n m r k (err e) p = p ≡ unsuccessful m r k

abbrev AtExecuted : Machine → ℕ → ℕ → Result Error (Unit {0}) → Phase → Type 0
AtExecuted m r k (ok u) p = p ≡ finished m r k
AtExecuted m r k (err e) p = p ≡ unsuccessful m r k

-- At the end the machine is back, or was not taken, and the runner is removed, unless it was stranded.
abbrev pub AtEnd : Phase → Type 0
AtEnd p = (p ≡ outside) ⊎ ((r : ℕ) × (p ≡ left_behind r))

-- The runner can be removed, the machine released.
abbrev Removable : Machine → ℕ → Phase → Type 0
Removable m r p = (p ≡ registered m r) ⊎ ((k : ℕ) × (p ≡ unreported m r k)) ⊎ (p ≡ closing m r)

abbrev Releasable : Machine → Phase → Type 0
Releasable m p = (p ≡ holding m) ⊎ (p ≡ leaving m) ⊎ ((r : ℕ) × (p ≡ stranded m r))

removed :
    (m : Machine) (r : ℕ) (p : Phase) (res : Result Error (Unit {0}))
    → Removable m r p
    → Step p (remove_runner r) res (leaving m)
removed m r p res (inl at) = rw at (unused m r res)
removed m r p res (inr (inl (k, at))) = rw at (unreported_goes m r k res)
removed m r p res (inr (inr at)) = rw at (unregistered m r res)

write_file-Safe :
    (n : ℕ) (m : Machine) (r k : ℕ) (path content : Bytes)
    → Safe Step Unit (request (write_file m path content)) (active n m r k) (AtWrite (suc n) m r k)
write_file-Safe n m r k path content = go
  where
    go :
        (res : Result Error (Unit {0}))
        → (p : Phase) × Step (active n m r k) (write_file m path content) res p
          × AtWrite (suc n) m r k res p
    go (ok tt) = (active (suc n) m r k, written n m r k path content, refl)
    go (err e) = (unsuccessful m r k, not_written n m r k path content e, refl)

module _ (lib : Library) (config : Config) where
  inject-Safe :
      (m : Machine) (r k : ℕ) (injectables : Injectables lib)
      → Safe Step Unit (inject_runner_files lib m injectables) (active 0 m r k) (AtWrite 3 m r k)
  unfolding inject_runner_files
  inject-Safe m r k injectables =
      and_then-Safe Step Unit (AtWrite 1 m r k) (AtWrite 3 m r k) (request (write_file m _ _)) _ _
        (write_file-Safe 0 m r k _ _)
        (λ u p at. rw at (
          and_then-Safe Step Unit (AtWrite 2 m r k) (AtWrite 3 m r k) (request (write_file m _ _)) _
            _ (write_file-Safe 1 m r k _ _) (λ u p at. rw at (write_file-Safe 2 m r k _ _))
            (λ e p h. h)))
        (λ e p h. h)

  shell_exec-Safe :
      (m : Machine) (r k : ℕ) (cmd : List Bytes)
      → Safe Step Unit
          (and_then (request (shell_exec m cmd 10800)) (check_exit lib))
          (active 3 m r k)
          (AtExecuted m r k)
  shell_exec-Safe m r k cmd = go
    where
      go :
          (res : Result Error SpawnResult)
          → (p : Phase) × Step (active 3 m r k) (shell_exec m cmd 10800) res p
            × Safe Step Unit (on_ok (check_exit lib) res) p (AtExecuted m r k)
      go (err e) = (unsuccessful m r k, not_succeed m r k cmd 10800 (err e) (λ s h. cc), refl)
      go (ok s) = elim (Bool-cases (s.exit_code == 0)) [
        | inl zero_ ↦ (finished m r k, succeed m r k cmd 10800 s (ground arith), rw zero_ refl)
        | inr other ↦ (
          unsuccessful m r k,
          not_succeed m r k cmd 10800 (ok s)
              (λ t h z. let same_code : s.exit_code ≡ t.exit_code = cc in ground arith),
          rw other refl,
        )
      ]

  report-Safe :
      (m : Machine) (runner : Runner) (k : TaskParcel) (res : Result Error (Unit {0})) (p : Phase)
      → AtExecuted m runner.id k.id res p
      → Safe Step Unit
          (report_failure lib config runner k res)
          p
          (λ x p'. (x ≡ ok tt) × (p' ≡ finished m runner.id k.id))
  report-Safe m runner k (ok u) p at = (refl, at)
  report-Safe m runner k (err e) p at =
      rw at (λ r. (finished m runner.id k.id, report m runner.id k.id r, (refl, refl)))

  run_task-Safe :
      (m : Machine) (runner : Runner) (k : TaskParcel)
      → Safe Step Unit
          (run_task lib config m runner k)
          (assigned m runner.id k.id)
          (λ res p. (res ≡ ok tt) × (p ≡ closing m runner.id))
  unfolding run_task execute_task_in_machine
  run_task-Safe m runner k = λ _. (
    active 0 m runner.id k.id,
    set_to_work m runner.id k.id,
    Safe-bind Step Unit (AtExecuted m runner.id k.id) _
        (execute_task_in_machine lib k runner config.runner_exe_path m) _ _
        (and_then-Safe Step Unit (AtWrite 3 m runner.id k.id) (AtExecuted m runner.id k.id)
          (inject_runner_files lib m _) _ _ (inject-Safe m runner.id k.id _)
          (λ u p at. rw at (shell_exec-Safe m runner.id k.id _)) (λ e p h. h))
        (λ res p at.
          Safe-bind Step Unit (λ x p'. (x ≡ ok tt) × (p' ≡ finished m runner.id k.id)) _
            (report_failure lib config runner k res) _ _ (report-Safe m runner k res p at)
            (λ x p' (e, at').
              rw at' (λ _. (closing m runner.id, rest m runner.id k.id, (e, refl))))),
  )

  -- With the runner: it can be removed now.
  with_runner-Safe :
      (fuel : ℕ) (m : Machine) (runner : Runner)
      → Safe Step Unit
          (with_runner lib config fuel m runner)
          (registered m runner.id)
          (λ res p. Removable m runner.id p)
  unfolding with_runner
  with_runner-Safe fuel m runner = λ signalled. (
    registered m runner.id,
    look _ signalled,
    if-Safe Step Unit (λ _ p. Removable m runner.id p) signalled _ _ _ (λ _. inl refl)
        (λ _.
          and_then-Safe Step Unit (AtAssigned m runner.id) (λ _ p. Removable m runner.id p)
            (fetch_task fuel runner) _ _ (fetch_task-Safe fuel m runner)
            (λ k p at. rw at (λ late. (
              assigned m runner.id k.id,
              look _ late,
              if-Safe Step Unit (λ _ p'. Removable m runner.id p') late _ _ _
                  (λ _ r. (closing m runner.id, report_late m runner.id k.id r, inr (inr refl)))
                  (λ _.
                    Safe-weaken Step Unit (λ res p'. (res ≡ ok tt) × (p' ≡ closing m runner.id))
                      (λ _ p'. Removable m runner.id p') (run_task lib config m runner k) _
                      (run_task-Safe m runner k) (λ res p' (e, at'). inr (inr at'))),
            )))
            (λ e p h. elim h [ inl at ↦ inl at | inr unreported_ ↦ inr (inl unreported_) ])),
  )

  unregister-Safe :
      (fuel : ℕ) (m : Machine) (runner : Runner)
      → Safe Step Unit
          (unregister lib config fuel m runner)
          (registered m runner.id)
          (λ res p. p ≡ leaving m)
  unregister-Safe fuel m runner =
      Safe-bind Step Unit (λ _ p. Removable m runner.id p) _ (with_runner lib config fuel m runner)
        _ _ (with_runner-Safe fuel m runner)
        (λ res p at r. (leaving m, removed m runner.id p r at, refl))

  -- With the machine: it can be released now.
  with_machine-Safe :
      (fuel : ℕ) (m : Machine)
      → Safe Step Unit (with_machine lib config fuel m) (holding m) (λ res p. Releasable m p)
  unfolding with_machine create_runner
  with_machine-Safe fuel m = λ signalled. (
    holding m,
    look _ signalled,
    if-Safe Step Unit (λ _ p. Releasable m p) signalled _ _ _ (λ _. inl refl)
        (λ _.
          and_then-Safe Step Unit (AtConnect m) (λ _ p. Releasable m p) (connect _) _ _
            (connect-Safe _ m)
            (λ runner p at. rw at (
              Safe-weaken Step Unit (λ _ p'. p' ≡ leaving m) (λ _ p'. Releasable m p')
                (unregister lib config fuel m runner) _ (unregister-Safe fuel m runner)
                (λ res p' at'. inr (inl at'))))
            (λ e p h. elim h [ inl at ↦ inl at | inr stranded_ ↦ inr (inr stranded_) ])),
  )

  released :
      (m : Machine) (p : Phase)
      → Releasable m p
      → (p' : Phase) × Step p (release m) tt p' × AtEnd p'
  released m p (inl at) = (outside, rw at (give_back_unused m), inl refl)
  released m p (inr (inl at)) = (outside, rw at (give_back m), inl refl)
  released m p (inr (inr (r, at))) = (left_behind r, rw at (give_back_stranded m r), inr (r, refl))

  acquired-Safe :
      (fuel : ℕ) (res : Result Error (Option Machine))
      → (p : Phase) × Step outside (acquire 10800000) res p
        × Safe Step Unit (acquired lib config fuel res) p (λ _ p'. AtEnd p')
  acquired-Safe fuel (err e) = (
    outside,
    receive_none 10800000 (err e) (λ m h. cc),
    (λ signalled. (
      outside,
      look _ signalled,
      if-Safe Step Unit (λ _ p'. AtEnd p') signalled _ _ _ (λ _. inl refl)
          (λ _ t. (outside, pass _ 5000, inl refl)),
    )),
  )
  acquired-Safe fuel (ok none) = (
    outside,
    receive_none 10800000 (ok none) (λ m h. cc),
    (λ signalled. (
      outside,
      look _ signalled,
      if-Safe Step Unit (λ _ p'. AtEnd p') signalled _ _ _ (λ _. inl refl) (λ _. tt),
    )),
  )
  acquired-Safe fuel (ok (some m)) = (
    holding m,
    receive 10800000 m,
    Safe-bind Step Unit (λ _ p. Releasable m p) (λ _ p'. AtEnd p') (with_machine lib config fuel m)
        _ _ (with_machine-Safe fuel m) (λ res p at _. released m p at),
  )

  iteration-Safe :
      (fuel : ℕ) → Safe Step Unit (runner_loop_iteration lib config fuel) outside (λ _ p. AtEnd p)
  unfolding runner_loop_iteration
  iteration-Safe fuel = acquired-Safe fuel

  -- Whatever the environment answers, an iteration keeps to the protocol: each request is one that its
  -- phase allows. If it returns, the machine that it took is back in the pool, and the runner that it
  -- registered is removed, unless the forge registered it and then refused its declaration.
  pub iteration_keeps_protocol :
      (env : Environment) (past : List Event) (fuel : ℕ)
      → (p : Phase) × Trail Step outside (run env past (runner_loop_iteration lib config fuel)).0 p
        × Holds Unit (λ _ p'. AtEnd p') (run env past (runner_loop_iteration lib config fuel)).1 p
  iteration_keeps_protocol env past fuel =
      Safe-run Step Unit (λ _ p. AtEnd p) env past (runner_loop_iteration lib config fuel) outside
        (iteration-Safe fuel)
