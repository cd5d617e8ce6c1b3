-- ===== src/Libvirt/Guest.antt =====
-- `MachineImpl::write_file` and `MachineImpl::shell_exec`, modules/virt/src/libvirt/libvirt.cpp. `json` is
-- the JSON library; a null answer of the agent is nothing.
pub mod Files
pub mod Polling
pub mod Hanging
use gar_virt.Prelude.{
  ltb, leb, if◌then◌else◌, Bytes, codes, ok, err, Result, ℕ, zero, suc, ◌-◌, ◌%◌, Bool, true, false,
  Option, none, some, List, [], ◌∷◌, ◌++◌,
}
use gar_virt.Base64.{base64_encode, Base64Error, base64_decode}
use gar_virt.Numeric.{pos, negsuc, ℤ}
use gar_virt.Programs.{ret, running, ◌>>=◌, request, and_then, on_option}
use gar_virt.Libvirt.{
  open_failed, write_failed, exec_failed, status_failed, abnormal, exception, timeout_too_short,
  Error, default_time, blocking, seconds, Patience, agent_command, sleep_for, Prog, check,
}
use gar_virt.Libvirt.Json.{
  int64, string, array, Json, end_of_object, field, JsonObject, JsonLibrary, at_key, as_object,
  as_bool, as_int64, as_string, ◌&>◌, agent_request, to_list,
}
use gar_virt.Libvirt.Connection.{MachineImpl, get_domain}

abbrev pub open_request : Bytes → Json
open_request path =
    agent_request (codes "guest-file-open")
      (field (codes "path") (string path) (field (codes "mode") (string (codes "w")) end_of_object))

abbrev pub write_request : ℤ → Bytes → Json
write_request handle buffer =
    agent_request (codes "guest-file-write") (
      field (codes "handle") (int64 handle) (field (codes "buf-b64") (string buffer) end_of_object))

abbrev pub close_request : ℤ → Json
close_request handle =
    agent_request (codes "guest-file-close") (field (codes "handle") (int64 handle) end_of_object)

abbrev pub exec_request : Bytes → List Bytes → Json
exec_request exe args = agent_request (codes "guest-exec") (
    field (codes "path") (string exe) (
      field (codes "arg") (array (to_list args))
        (field (codes "capture-output") (string (codes "separated")) end_of_object)))

abbrev pub status_request : ℤ → Json
status_request pid =
    agent_request (codes "guest-exec-status") (field (codes "pid") (int64 pid) end_of_object)

abbrev pub returned_value : Json → Option Json
returned_value reply = as_object reply &> at_key (codes "return")

-- `libvirt::SpawnResult`; the exit code is an `int`.
pub record SpawnResult : Type 0 where
  pub exit_code : ℤ
  pub output : Bytes

-- `static_cast<int>` of an `int64_t`, by the lowest 32 bits.
abbrev pub of_word : ℕ → ℤ
of_word w = if ltb w 2147483648 then pos w else negsuc (4294967295 - w)

abbrev pub to_int : ℤ → ℤ
to_int (pos n) = of_word (n % 4294967296)
to_int (negsuc n) = of_word (4294967295 - n % 4294967296)

-- The base64 text of a field, decoded; an exception of the decoder is nothing.
abbrev pub of_result : Result Base64Error Bytes → Option Bytes
of_result (ok s) = some s
of_result (err e) = none

abbrev pub decoded : Json → Option Bytes
decoded value = as_string value &> λ text. of_result (base64_decode text)

-- The field of a status, if it is there: what it decodes to, or an exception.
abbrev pub optional_field : Option Json → Result (Unit {0}) (Option Bytes)
optional_field none = ok none
optional_field (some value) = elim (decoded value) [ none ↦ err tt | some s ↦ ok (some s) ]

abbrev pub separator : Bytes → Bytes
separator [] = []
separator (c ∷ output) = codes "; "

abbrev pub merge_output : Option Bytes → Option Bytes → Bytes
merge_output none none = []
merge_output (some s) none = s
merge_output none (some e) = codes "stderr: " ++ e
merge_output (some s) (some e) = s ++ (separator s ++ (codes "stderr: " ++ e))

-- The end of the loop of `shell_exec`, by the fields of the last status.
abbrev pub with_output :
    ℤ
    → Result (Unit {0}) (Option Bytes)
    → Result (Unit {0}) (Option Bytes)
    → Result Error SpawnResult
with_output code (err u) second = err exception
with_output code (ok out) (err u) = err exception
with_output code (ok out) (ok e) =
    ok record { exit_code = to_int code; output = merge_output out e }

abbrev pub with_code : Option Json → JsonObject → Result Error SpawnResult
with_code none status = err abnormal
with_code (some value) status = elim (as_int64 value) [
  | none ↦ err exception
  | some code ↦
      with_output code (optional_field (at_key (codes "out-data") status))
        (optional_field (at_key (codes "err-data") status))
]

unfoldable pub exit_result : JsonObject → Result Error SpawnResult
exit_result status = with_code (at_key (codes "exitcode") status) status

abbrev pub is_some : Option Bytes → Bool
is_some none = false
is_some (some s) = true

-- In seconds.
abbrev pub long_enough : Option ℕ → Bool
long_enough none = true
long_enough (some t) = leb 1 t

abbrev pub qemu_timeout : Option ℕ → Patience
qemu_timeout none = blocking
qemu_timeout (some t) = seconds (to_int (pos t))

module _ (json : JsonLibrary) where
  -- The handle in the answer to an open request; it is kept as an `int`.
  abbrev pub handle_of : Bytes → Option ℤ
  handle_of reply = json.parse reply &> returned_value &> as_int64 &> λ handle. some (to_int handle)

  abbrev pub pid_of : Bytes → Option ℤ
  pid_of reply = json.parse reply &> returned_value &> as_object &> at_key (codes "pid") &> as_int64

  abbrev pub status_of : Bytes → Option JsonObject
  status_of reply = json.parse reply &> returned_value &> as_object

  abbrev pub close_on : ℤ → Result Error ℕ → Prog (Unit {0})
  close_on handle (err e) = ret tt
  close_on handle (ok domain) =
      request (agent_command domain (json.serialize (close_request handle)) default_time) >>= λ _.
      ret tt

  -- The destructor of `file_closer` once there is a handle: an error of it is put where nobody reads it.
  unfoldable pub close_file : MachineImpl → ℤ → Prog (Unit {0})
  unfolding get_domain
  close_file machine handle = get_domain machine >>= close_on handle

  -- With the file open.
  abbrev pub write_open : MachineImpl → ℕ → Bytes → ℤ → Prog (Result Error (Unit {0}))
  write_open machine domain content handle = do
    written ← request (
        agent_command domain (json.serialize (write_request handle (base64_encode content)))
          default_time)
    _ ← close_file machine handle
    ret (check write_failed (is_some written))

  abbrev pub opened : MachineImpl → ℕ → Bytes → Option Bytes → Prog (Result Error (Unit {0}))
  opened machine domain content none = ret (err open_failed)
  opened machine domain content (some reply) =
      on_option (ret (err exception)) (write_open machine domain content) (handle_of reply)

  unfoldable pub write_file : MachineImpl → Bytes → Bytes → Prog (Result Error (Unit {0}))
  unfolding get_domain close_file
  write_file machine file_path content = and_then (get_domain machine) λ domain.
      request (agent_command domain (json.serialize (open_request file_path)) default_time)
      >>= opened machine domain content

  abbrev pub ended :
      Prog (Result Error SpawnResult) → JsonObject → Option Bool → Prog (Result Error SpawnResult)
  ended again status none = ret (err exception)
  ended again status (some true) = ret (exit_result status)
  ended again status (some false) = request (sleep_for 250) >>= λ _. again

  -- The body of the loop behind the agent's answer.
  abbrev pub polled :
      Prog (Result Error SpawnResult) → Option Bytes → Prog (Result Error SpawnResult)
  polled again none = ret (err status_failed)
  polled again (some reply) =
      on_option (ret (err exception))
        (λ status. ended again status (at_key (codes "exited") status &> as_bool)) (status_of reply)

  -- The loop of `shell_exec`, on fuel.
  unfoldable pub poll_loop : ℕ → ℕ → ℤ → Prog (Result Error SpawnResult)
  poll_loop zero domain pid = running
  poll_loop (suc fuel) domain pid =
      request (agent_command domain (json.serialize (status_request pid)) default_time)
      >>= polled (poll_loop fuel domain pid)

  abbrev pub exec_answered : ℕ → ℕ → Option Bytes → Prog (Result Error SpawnResult)
  exec_answered fuel domain none = ret (err exec_failed)
  exec_answered fuel domain (some reply) =
      on_option (ret (err exception)) (poll_loop fuel domain) (pid_of reply)

  abbrev pub executed : ℕ → ℕ → List Bytes → Option ℕ → Prog (Result Error SpawnResult)
  executed fuel domain [] timeout = ret (err exception)
  executed fuel domain (exe ∷ args) timeout =
      request (agent_command domain (json.serialize (exec_request exe args)) (qemu_timeout timeout))
      >>= exec_answered fuel domain

  -- The arguments of the command go behind its name; the first access to an empty command throws.
  unfoldable pub shell_exec :
      ℕ → MachineImpl → List Bytes → Option ℕ → Prog (Result Error SpawnResult)
  unfolding poll_loop get_domain
  shell_exec fuel machine cmd timeout =
      and_then (ret (check timeout_too_short (long_enough timeout)))
        λ _. and_then (get_domain machine) λ domain. executed fuel domain cmd timeout
