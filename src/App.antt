-- ===== src/App.antt =====
-- modules/app/src/core.cpp, and what it calls of modules/gitea/src/runner.cpp: a function that talks to
-- its surroundings (the pool, the forge, a machine, the clock, the shutdown signal) is a program, whose
-- requests an environment answers. Log messages are left out.
pub mod Runner
pub mod Task
pub mod Loop
pub mod Protocol
pub mod Registering
pub mod Iteration
pub mod Network
pub mod Waiting
mod Examples
use gar_virt.Programs
use gar_virt.Prelude.{Bytes, Result, ℕ, Bool, Option, List}

-- The errors, one for each message of the source; `failed` is one that comes from elsewhere.
pub data Error : Type 0 where
  failed : Bytes → Error
  failed_to_ping failed_to_register failed_to_declare failed_to_fetch : Error → Error
  failed_to_encode : Error
  ping_not_implemented : Bytes → Error
  shutting_down : Error
  unknown_backend : Bytes → Error
  network_failed : Bytes → Error → Error
  ping_failed : Bytes → Bytes → Error → Error
  ping_timeout : Bytes → Bytes → Bytes → Error
  fetch_shutting_down runner_shutting_down nonzero_exit : Error

-- `virt::Machine`: what `get_id` and `info` give.
pub record Machine : Type 0 where
  pub id : Bytes
  pub os : Bytes
  pub temp_dir : Bytes

-- `virt::SpawnResult`; an exit code is the number of its word.
pub record SpawnResult : Type 0 where
  pub exit_code : ℕ
  pub output : Bytes

-- What a program asks of its surroundings. Times are in milliseconds, but for `shell_exec` and
-- `wait_for_guest_agent`, which take seconds.
pub data Request : Type 0 where
  is_signalled now : Request
  sleep_for : ℕ → Request
  acquire : ℕ → Request
  activate deactivate release : Machine → Request
  get_registration_token : Request
  post_ping : Bytes → Request
  post_register : Bytes → Bytes → Bytes → List Bytes → Request
  post_declare : ℕ → Bytes → List Bytes → Request
  post_fetch_task : ℕ → Request
  post_update_task : ℕ → ℕ → Request
  remove_runner : ℕ → Request
  write_file : Machine → Bytes → Bytes → Request
  shell_exec : Machine → List Bytes → ℕ → Request
  spawn_in_backend : Bytes → Request
  wait_for_guest_agent : Machine → ℕ → Request

-- The runner in the answer to a registration.
pub record Registered : Type 0 where
  pub id : ℕ
  pub uuid : Bytes
  pub token : Bytes

-- The task in the answer to a fetch, and what serializing it gives, if it does.
pub record FetchedTask : Type 0 where
  pub id : ℕ
  pub serialized : Option Bytes

abbrev pub Answer : Request → Type 0
Answer is_signalled = Bool
Answer now = ℕ
Answer (sleep_for t) = Unit {0}
Answer (acquire t) = Result Error (Option Machine)
Answer (activate m) = Unit {0}
Answer (deactivate m) = Unit {0}
Answer (release m) = Unit {0}
Answer get_registration_token = Result Error Bytes
Answer (post_ping data_) = Result Error (Unit {0})
Answer (post_register name token version labels) = Result Error Registered
Answer (post_declare runner version labels) = Result Error (Unit {0})
Answer (post_fetch_task runner) = Result Error (Option FetchedTask)
Answer (post_update_task runner task) = Result Error (Unit {0})
Answer (remove_runner runner) = Result Error (Unit {0})
Answer (write_file m path content) = Result Error (Unit {0})
Answer (shell_exec m cmd t) = Result Error SpawnResult
Answer (spawn_in_backend name) = Result Error Machine
Answer (wait_for_guest_agent m t) = Result Error (Unit {0})

-- The programs of the app, their events and environments.
abbrev pub Prog : Type 0 → Type 0
Prog A = Programs.Prog Request Answer A

abbrev pub Event : Type 0
Event = Programs.Event Request Answer

abbrev pub Environment : Type 0
Environment = Programs.Environment Request Answer
