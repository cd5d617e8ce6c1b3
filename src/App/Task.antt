-- ===== src/App/Task.antt =====
-- `Injectables` and the execution of a task in a machine, modules/app/src/core.cpp, with
-- `Machine::make_temp_path` of modules/virt/src/machine.cpp.
use gar_virt.Prelude.{
  ◌==◌, if◌then◌else◌, Bytes, codes, length, ok, err, Result, ℕ, suc, Bool, Option, none, some,
  List, [], ◌∷◌, ◌++◌,
}
use gar_virt.Text.{is_same, string_compare_ci, string_replace}
use gar_virt.Programs.{ret, request, and_then}
use gar_virt.App.{nonzero_exit, Error, Machine, SpawnResult, write_file, shell_exec, Prog}
use gar_virt.App.Runner.{Runner, TaskParcel}

-- Code of other libraries: `std::toupper`, `operator/` of `std::filesystem::path` with
-- `generic_u8string`, the JSON text of the runner's state (id, uuid, token, address, labels) and the
-- host of a text that is a URI.
pub record Library : Type 0 where
  pub toupper : ℕ → ℕ
  pub path_join : Bytes → Bytes → Bytes
  pub serialize : ℕ → Bytes → Bytes → Bytes → List Bytes → Bytes
  pub uri_host : Bytes → Option Bytes

abbrev pub or_else : {A : Type 0} → Option A → A → A
or_else none a = a
or_else (some b) a = b

module _ (lib : Library) where
  abbrev pub is_os : Bytes → Bytes → Bool
  is_os os name = is_same (string_compare_ci lib.toupper os name)

  -- Fuel above the length of the path.
  unfoldable pub make_temp_path : Machine → Bytes → Bytes
  make_temp_path machine sub_path =
      let path = lib.path_join machine.temp_dir sub_path in
      let delimiter = if is_os machine.os (codes "windows") then codes "\\" else codes "/" in
      or_else (string_replace (suc (length path)) path (codes "/") delimiter) path

  pub record Injectables : Type 0 where
    pub runner_state_json : Bytes
    pub runner_config_yaml : Bytes
    pub encoded_task : Bytes

  unfoldable pub generate : Machine → TaskParcel → Runner → Injectables
  unfolding make_temp_path
  generate machine task runner = record {
    runner_state_json =
        lib.serialize runner.id runner.uuid runner.token runner.forge_uri runner.labels;
    runner_config_yaml =
        codes "runner:\n  file: " ++ (make_temp_path machine (codes ".runner") ++ codes "\n");
    encoded_task = task.data_;
  }

  unfoldable pub inject_runner_files : Machine → Injectables → Prog (Result Error (Unit {0}))
  unfolding make_temp_path
  inject_runner_files machine injectables =
      and_then
        (request (
          write_file machine (make_temp_path machine (codes "runner_config.yml"))
            injectables.runner_config_yaml))
        λ _.
          and_then
            (request (
              write_file machine (make_temp_path machine (codes ".runner"))
                injectables.runner_state_json))
            λ _. request (
              write_file machine (make_temp_path machine (codes "runner_task"))
                injectables.encoded_task)

  abbrev pub check_exit : SpawnResult → Prog (Result Error (Unit {0}))
  check_exit res = if res.exit_code == 0 then ret (ok tt) else ret (err nonzero_exit)

  abbrev pub task_command : Bytes → Machine → List Bytes
  task_command runner_exe_path machine =
      runner_exe_path
      ∷ codes "run-task"
      ∷ codes "--config"
      ∷ make_temp_path machine (codes "runner_config.yml")
      ∷ codes "--task"
      ∷ make_temp_path machine (codes "runner_task")
      ∷ []

  unfoldable pub execute_task_in_machine :
      TaskParcel → Runner → Bytes → Machine → Prog (Result Error (Unit {0}))
  unfolding generate inject_runner_files make_temp_path
  execute_task_in_machine task runner runner_exe_path machine =
      and_then (inject_runner_files machine (generate machine task runner)) λ _.
        and_then (request (shell_exec machine (task_command runner_exe_path machine) 10800))
          check_exit
