-- ===== src/App/Network.antt =====
-- `make_ping_command`, `wait_until_gitea_instance_available` and `spawn_machine`,
-- modules/app/src/core.cpp, with `create_backend` of modules/virt/src/factory.cpp.
use gar_virt.Prelude.{
  ltb, ◌==◌, if◌then◌else◌, Bytes, codes, ok, err, Result, ℕ, zero, suc, ◌+◌, ◌*◌, List, [], ◌∷◌,
}
use gar_virt.Text.{same_bytes}
use gar_virt.Programs.{ret, running, crashed, ◌>>=◌, request, on_ok, and_then, on_option}
use gar_virt.App.{
  ping_not_implemented, shutting_down, unknown_backend, network_failed, ping_failed, ping_timeout,
  Error, Machine, SpawnResult, is_signalled, now, sleep_for, shell_exec, spawn_in_backend,
  wait_for_guest_agent, Prog,
}
use gar_virt.App.Task.{Library, is_os}

-- The body of the loop behind the ping.
abbrev pub after_ping :
    Bytes
    → Machine
    → (Bytes → Prog (Result Error (Unit {0})))
    → Result Error SpawnResult
    → Prog (Result Error (Unit {0}))
after_ping host machine again (err e) = ret (err (ping_failed host machine.id e))
after_ping host machine again (ok res) =
    if res.exit_code == 0 then ret (ok tt) else request (sleep_for 2000) >>= λ _. again res.output

abbrev pub ping_once :
    Machine
    → List Bytes
    → ℕ
    → (Result Error SpawnResult → Prog (Result Error (Unit {0})))
    → Prog (Result Error (Unit {0}))
ping_once machine cmd timeout next = do
  signalled ← request is_signalled
  if signalled
      then ret (err shutting_down)
      else request (shell_exec machine cmd (if ltb timeout 10 then timeout else 10)) >>= next

-- The loop, on fuel. `timeout` is in seconds, the clock in milliseconds; the test is
-- `start_time - now < timeout`, with `now` on the other side. `output` is that of the last ping.
unfoldable pub ping_loop :
    ℕ → Machine → Bytes → List Bytes → ℕ → ℕ → Bytes → Prog (Result Error (Unit {0}))
ping_loop zero machine host cmd timeout start output = running
ping_loop (suc fuel) machine host cmd timeout start output = do
  time ← request now
  if ltb start (time + 1000 * timeout)
      then ping_once machine cmd timeout
          (after_ping host machine (ping_loop fuel machine host cmd timeout start))
      else ret (err (ping_timeout host machine.id output))

module _ (lib : Library) where
  unfoldable pub make_ping_command : Bytes → Bytes → Result Error (List Bytes)
  make_ping_command target_os host =
      if is_os lib target_os (codes "linux")
      then ok (codes "ping" ∷ codes "-c" ∷ codes "1" ∷ codes "-W" ∷ codes "2" ∷ host ∷ [])
      else if is_os lib target_os (codes "macos")
      then ok (codes "ping" ∷ codes "-c" ∷ codes "1" ∷ codes "-W" ∷ codes "2000" ∷ host ∷ [])
      else if is_os lib target_os (codes "windows")
      then ok (codes "ping" ∷ codes "-n" ∷ codes "1" ∷ codes "-w" ∷ codes "2" ∷ host ∷ [])
      else err (ping_not_implemented target_os)

  -- The result of `parse_uri` is dereferenced whether or not it holds a URI.
  unfoldable pub wait_until_gitea_instance_available :
      ℕ → Machine → Bytes → ℕ → Prog (Result Error (Unit {0}))
  unfolding ping_loop make_ping_command
  wait_until_gitea_instance_available fuel machine instance_url timeout =
      on_option crashed
        (λ host.
          on_ok (λ cmd. do start ← request now; ping_loop fuel machine host cmd timeout start [])
            (make_ping_command machine.os host))
        (lib.uri_host instance_url)

  abbrev pub create_backend : Bytes → Result Error (Unit {0})
  create_backend name =
      if same_bytes name (codes "libvirt") then ok tt else err (unknown_backend name)

  abbrev pub network_error : Machine → Result Error (Unit {0}) → Result Error (Unit {0})
  network_error machine (ok u) = ok u
  network_error machine (err e) = err (network_failed machine.id e)

  -- An early return drops the machine.
  unfoldable pub spawn_machine : ℕ → Bytes → Bytes → Prog (Result Error Machine)
  unfolding wait_until_gitea_instance_available
  spawn_machine fuel backend_type forge_uri = and_then (ret (create_backend backend_type)) λ _.
      and_then (request (spawn_in_backend backend_type)) λ machine.
        and_then (request (wait_for_guest_agent machine 120)) λ _.
          and_then
            (do
              res ← wait_until_gitea_instance_available fuel machine forge_uri 120
              ret (network_error machine res))
            λ _. ret (ok machine)
