-- ===== src/App/Loop.antt =====
-- `TemplateState`, modules/app/src/core.cpp: the loop of a runner thread. A `Deferred` is the
-- request behind the rest of its scope; the locals of a scope go in reverse order.
use gar_virt.Prelude.{
  if◌then◌else◌, Bytes, codes, ok, err, Result, ℕ, zero, suc, Option, none, some, List, ◌++◌,
}
use gar_virt.Programs.{ret, running, crashed, ◌>>=◌, request, and_then, on_option}
use gar_virt.App.{
  fetch_shutting_down, runner_shutting_down, Error, Machine, is_signalled, sleep_for, acquire,
  activate, deactivate, release, remove_runner, Prog,
}
use gar_virt.App.Runner.{Runner, TaskParcel, connect, fetch_task_internal, set_task_failed}
use gar_virt.App.Task.{Library, execute_task_in_machine}

-- The fields of the configuration that the loop reads.
pub record Config : Type 0 where
  pub name : Bytes
  pub forge_uri : Bytes
  pub labels : List Bytes
  pub version : Bytes
  pub runner_exe_path : Bytes

-- The loop of `fetch_task`, on fuel; `none` is the exit by the signal before there is a task.
unfoldable pub fetch_loop : ℕ → Runner → Prog (Result Error (Option TaskParcel))
fetch_loop zero runner = running
fetch_loop (suc fuel) runner = do
  signalled ← request is_signalled
  if signalled
      then ret (ok none)
      else and_then (fetch_task_internal runner) (
          on_option
            (do
              again ← request is_signalled
              if again
                  then fetch_loop fuel runner
                  else request (sleep_for 1000) >>= λ _. fetch_loop fuel runner)
            (λ task. do
              -- the condition of the loop, before it looks at the task
              _ ← request is_signalled
              ret (ok (some task))))

abbrev pub fetched : Option TaskParcel → Prog (Result Error TaskParcel)
fetched none = crashed
fetched (some task) = ret (ok task)

unfoldable pub fetch_task : ℕ → Runner → Prog (Result Error TaskParcel)
unfolding fetch_loop
fetch_task fuel runner = and_then (fetch_loop fuel runner) λ task. do
  signalled ← request is_signalled
  if signalled then ret (err fetch_shutting_down) else fetched task

unfoldable pub create_runner : Config → Machine → Prog (Result Error Runner)
unfolding connect
create_runner config machine = connect record {
  forge_uri = config.forge_uri;
  name = config.name ++ (codes "-" ++ machine.id);
  labels = config.labels;
  version = config.version;
}

module _ (lib : Library) (config : Config) where
  -- From `activate` to the end of the scope of the machine's second `Deferred`. An error of the
  -- execution is reported to the forge, and then `or_else` gives success.
  abbrev pub report_failure :
      Runner → TaskParcel → Result Error (Unit {0}) → Prog (Result Error (Unit {0}))
  report_failure runner task (ok u) = ret (ok tt)
  report_failure runner task (err e) = do _ ← set_task_failed runner task; ret (ok tt)

  unfoldable pub run_task : Machine → Runner → TaskParcel → Prog (Result Error (Unit {0}))
  unfolding execute_task_in_machine
  run_task machine runner task = do
    _ ← request (activate machine)
    res ← execute_task_in_machine lib task runner config.runner_exe_path machine
    exec_res ← report_failure runner task res
    _ ← request (deactivate machine)
    ret exec_res

  -- With the runner, until it goes.
  unfoldable pub with_runner : ℕ → Machine → Runner → Prog (Result Error (Unit {0}))
  unfolding fetch_task run_task
  with_runner fuel machine runner = do
    signalled ← request is_signalled
    if signalled
        then ret (err runner_shutting_down)
        else and_then (fetch_task fuel runner) λ task. do
          late ← request is_signalled
          if late
              then (set_task_failed runner task >>= λ _. ret (err runner_shutting_down))
              else run_task machine runner task

  abbrev pub unregister : ℕ → Machine → Runner → Prog (Result Error (Unit {0}))
  unregister fuel machine runner = do
    res ← with_runner fuel machine runner
    _ ← request (remove_runner runner.id)
    ret res

  -- With the machine, until it is released.
  unfoldable pub with_machine : ℕ → Machine → Prog (Result Error (Unit {0}))
  unfolding create_runner with_runner
  with_machine fuel machine = do
    signalled ← request is_signalled
    if signalled
        then ret (err runner_shutting_down)
        else and_then (create_runner config machine) (unregister fuel machine)

  -- The branch of a time-out calls `get_id` of no machine for its message.
  abbrev pub acquired : ℕ → Result Error (Option Machine) → Prog (Result Error (Unit {0}))
  acquired fuel (err e) = do
    signalled ← request is_signalled
    if signalled then ret (ok tt) else request (sleep_for 5000) >>= λ _. ret (ok tt)
  acquired fuel (ok none) = do
    signalled ← request is_signalled
    if signalled then ret (ok tt) else crashed
  acquired fuel (ok (some machine)) = do
    res ← with_machine fuel machine
    _ ← request (release machine)
    ret res

  unfoldable pub runner_loop_iteration : ℕ → Prog (Result Error (Unit {0}))
  unfolding with_machine
  runner_loop_iteration fuel = do
    machine_res ← request (acquire 10800000)
    acquired fuel machine_res

  -- `turns` bounds the iterations, `fuel` the rounds of each fetch.
  unfoldable pub runner_loop : ℕ → ℕ → Prog (Unit {0})
  unfolding runner_loop_iteration
  runner_loop zero fuel = running
  runner_loop (suc turns) fuel = do
    signalled ← request is_signalled
    if signalled then ret tt else runner_loop_iteration fuel >>= λ _. runner_loop turns fuel
