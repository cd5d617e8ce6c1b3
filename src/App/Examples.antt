-- ===== src/App/Examples.antt =====
-- Runs in concrete environments.
use gar_virt.Prelude.{
  ltb, if◌then◌else◌, Bytes, codes, length, ok, ℕ, ◌-◌, ◌≡◌, refl, Bool, true, false, ◌&&◌, none,
  some, [], ◌∷◌, ◌++◌, arith,
}
use gar_virt.Text.{string_compare_ci}
use gar_virt.Programs.{returned, still_running, run, ends}
use gar_virt.Programs.Safety.{Holds, Trail}
use gar_virt.App.{
  Machine, is_signalled, now, sleep_for, acquire, activate, deactivate, release,
  get_registration_token, post_ping, post_register, post_declare, post_fetch_task, post_update_task,
  remove_runner, write_file, shell_exec, spawn_in_backend, wait_for_guest_agent, Environment,
}
use gar_virt.App.Runner.{connect}
use gar_virt.App.Task.{Library, inject_runner_files, execute_task_in_machine}
use gar_virt.App.Loop.{
  Config, fetch_loop, fetch_task, create_runner, run_task, with_runner, with_machine,
  runner_loop_iteration,
}
use gar_virt.App.Protocol.{outside, Phase, Step}
use gar_virt.App.Iteration.{AtEnd, iteration_keeps_protocol}
use gar_virt.App.Network.{make_ping_command, wait_until_gitea_instance_available}
use gar_virt.App.Waiting.{Steady, waiting_hangs}

abbrev is_empty : Bytes → Bool
is_empty [] = true
is_empty (c ∷ cs) = false

abbrev lib : Library
lib = record {
  toupper = λ c. if ltb 96 c && ltb c 123 then c - 32 else c;
  path_join = λ a b. a ++ (codes "/" ++ b);
  serialize = λ id uuid token uri labels. id ∷ uuid;
  uri_host = λ uri. if is_empty uri then none else some uri;
}

abbrev config : Config
config = record {
  name = codes "gv";
  forge_uri = codes "forge";
  labels = codes "linux:host" ∷ [];
  version = codes "1";
  runner_exe_path = codes "runner";
}

abbrev machine : Machine
machine = record { id = codes "m1"; os = codes "Linux"; temp_dir = codes "tmp" }

-- A forge with one task, and machines whose commands end with `exit_code`.
abbrev answers : ℕ → Environment
answers exit_code past is_signalled = false
answers exit_code past now = length past
answers exit_code past (sleep_for t) = tt
answers exit_code past (acquire t) = ok (some machine)
answers exit_code past (activate m) = tt
answers exit_code past (deactivate m) = tt
answers exit_code past (release m) = tt
answers exit_code past get_registration_token = ok (codes "t")
answers exit_code past (post_ping d) = ok tt
answers exit_code past (post_register n t v ls) =
    ok record { id = 5; uuid = 1 ∷ []; token = 2 ∷ [] }
answers exit_code past (post_declare r v ls) = ok tt
answers exit_code past (post_fetch_task r) = ok (some record { id = 7; serialized = some (8 ∷ []) })
answers exit_code past (post_update_task r k) = ok tt
answers exit_code past (remove_runner r) = ok tt
answers exit_code past (write_file m path content) = ok tt
answers exit_code past (shell_exec m cmd t) = ok record { exit_code = exit_code; output = [] }
answers exit_code past (spawn_in_backend name) = ok machine
answers exit_code past (wait_for_guest_agent m t) = ok tt

iteration_keeps_protocol_example :
    (p : Phase) × Trail Step outside (run (answers 0) [] (runner_loop_iteration lib config 3)).0 p
    × Holds Unit (λ _ p'. AtEnd p') (run (answers 0) [] (runner_loop_iteration lib config 3)).1 p
iteration_keeps_protocol_example = iteration_keeps_protocol lib config (answers 0) [] 3

-- A task whose command fails is reported, and the iteration succeeds.
failing_task : (run (answers 1) [] (runner_loop_iteration lib config 3)).1 ≡ returned (ok tt)
unfolding run runner_loop_iteration with_machine create_runner connect with_runner fetch_task
    fetch_loop run_task execute_task_in_machine inject_runner_files
failing_task = refl

steady : Steady (answers 1) [] 0
steady later = omega arith

waiting_hangs_example :
    ends (answers 1) [] (wait_until_gitea_instance_available lib 20 machine (codes "forge") 120)
    ≡ still_running
unfolding make_ping_command string_compare_ci
waiting_hangs_example =
    waiting_hangs lib (answers 1) [] 20 machine (codes "forge") (codes "forge") 120
      (codes "ping" ∷ codes "-c" ∷ codes "1" ∷ codes "-W" ∷ codes "2" ∷ codes "forge" ∷ []) steady
      ((λ past. refl), (λ past m cmd t. (record { exit_code = 1; output = [] }, refl, refl)))
      (omega arith) refl refl
