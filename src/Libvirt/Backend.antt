-- ===== src/Libvirt/Backend.antt =====
-- The libvirt backend, modules/virt/src/libvirt/backend.cpp, with `MachineImpl::is_ready`.
pub mod Waiting
pub mod Destroying
use gar_virt.Prelude.{
  leb, if◌then◌else◌, Bytes, codes, ok, err, Result, ℕ, zero, suc, ◌+◌, ◌*◌, Bool, true, false,
  ◌||◌, Option, none, some, List, [], ◌∷◌, ◌++◌,
}
use gar_virt.Text.{is_same, string_compare_ci}
use gar_virt.Programs.{ret, call, running, crashed, ◌>>=◌, request, and_then}
use gar_virt.Libvirt.{
  decayed, exception, details_failed, shutting_down, agent_timeout, Error, track, sleep_for, now,
  is_signalled, read_quit, read_ready, read_file, Request, Prog, or_error,
}
use gar_virt.Libvirt.Json.{JsonLibrary, ◌&>◌}
use gar_virt.Libvirt.Connection.{MachineImpl, kill, destroy_machine}
use gar_virt.Libvirt.Guest.{SpawnResult, shell_exec}
use gar_virt.Libvirt.Hypervisor.{spawn, unregister_event_handlers, create}

abbrev pub ready_unless : Bytes → Bool → Prog (Result Error Bool)
ready_unless name true = ret (err (decayed name))
ready_unless name false = do ready ← request (read_ready name); ret (ok ready)

unfoldable pub is_ready : MachineImpl → Prog (Result Error Bool)
is_ready machine = request (read_quit machine.domain_name) >>= ready_unless machine.domain_name

-- The body of the loop of `wait_for_guest_agent`, from its end; `deadline` is the start with the time-out.
abbrev pub unless_late :
    ℕ → Bytes → Prog (Result Error (Unit {0})) → ℕ → Prog (Result Error (Unit {0}))
unless_late deadline name again time =
    if leb deadline time
    then ret (err (agent_timeout name))
    else (request (sleep_for 200) >>= λ _. again)

abbrev pub unless_ready :
    ℕ → Bytes → Prog (Result Error (Unit {0})) → Result Error Bool → Prog (Result Error (Unit {0}))
unless_ready deadline name again (err e) = ret (err e)
unless_ready deadline name again (ok true) = ret (ok tt)
unless_ready deadline name again (ok false) = request now >>= unless_late deadline name again

abbrev pub unless_signalled :
    ℕ → MachineImpl → Prog (Result Error (Unit {0})) → Bool → Prog (Result Error (Unit {0}))
unless_signalled deadline machine again true = ret (err shutting_down)
unless_signalled deadline machine again false =
    is_ready machine >>= unless_ready deadline machine.domain_name again

-- The loop, on fuel.
unfoldable pub wait_loop : ℕ → ℕ → MachineImpl → Prog (Result Error (Unit {0}))
unfolding is_ready
wait_loop zero deadline machine = running
wait_loop (suc fuel) deadline machine =
    request is_signalled >>= unless_signalled deadline machine (wait_loop fuel deadline machine)

-- The time-out is in seconds.
unfoldable pub wait_for_guest_agent : ℕ → MachineImpl → ℕ → Prog (Result Error (Unit {0}))
unfolding wait_loop
wait_for_guest_agent fuel machine timeout = do
  start ← request now
  wait_loop fuel (start + 1000 * timeout) machine

unfoldable pub terminate : MachineImpl → Prog (Result Error (Unit {0}))
unfolding kill
terminate machine = kill machine

-- The destructor of a machine, which keeps its hypervisor with the event handlers `ids`. The machine that
-- libvirt.cpp makes is destroyed at once, or with the map of the hypervisor if it is in that still. The
-- connection, which is closed behind all that, is left out.
unfoldable pub destroy_libvirt_machine : Bool → List ℕ → MachineImpl → Prog (Unit {0})
unfolding terminate destroy_machine unregister_event_handlers
destroy_libvirt_machine in_map ids machine = do
  _ ← terminate machine
  _ ← if in_map then ret tt else destroy_machine machine
  _ ← unregister_event_handlers machine.uri ids
  _ ← if in_map then destroy_machine machine else ret tt
  ret tt

-- What a program puts into the hypervisor's map, as machines of the hypervisor at `uri`.
abbrev pub tracked_by : Bytes → Request → List MachineImpl
tracked_by uri (track name key) = record { uri = uri; domain_name = name; volume_id = key } ∷ []
tracked_by uri q = []

abbrev pub keep_tracked : {A : Type 0} → Bytes → Prog A → Prog (A × List MachineImpl)
keep_tracked uri (ret a) = ret (a, [])
keep_tracked uri (call q k) =
    call q (λ r. do (a, tracked) ← keep_tracked uri (k r); ret (a, tracked_by uri q ++ tracked))
keep_tracked uri running = running
keep_tracked uri crashed = crashed

-- The destruction of the map.
abbrev pub destroy_all : List MachineImpl → Prog (Unit {0})
destroy_all [] = ret tt
destroy_all (machine ∷ machines) = destroy_machine machine >>= λ _. destroy_all machines

-- `LibvirtMachineTemplateDetails`.
pub record LibvirtMachineTemplateDetails : Type 0 where
  pub domain_template_path : Bytes
  pub volume_template_path : Bytes
  pub storage_pool_name : Bytes

-- What the code takes from other places: `std::toupper`, `YAML::Load` with the text of a key, where nothing is
-- an exception, and `is_relative` and `operator/` of `std::filesystem::path`.
pub record Surroundings : Type 0 where
  pub toupper : ℕ → ℕ
  pub yaml : Bytes → Bytes → Option Bytes
  pub is_relative : Bytes → Bool
  pub path_join : Bytes → Bytes → Bytes

module _ (sys : Surroundings) where
  abbrev pub is_os : Bytes → Bytes → Bool
  is_os target_os name = is_same (string_compare_ci sys.toupper target_os name)

  -- Nothing for another system.
  unfoldable pub add_command_output_redirection : Bytes → List Bytes → Option (List Bytes)
  add_command_output_redirection target_os args =
      if is_os target_os (codes "linux") || is_os target_os (codes "macos")
      then some (codes "sh" ∷ codes "-c" ∷ codes "exec \"$@\" >2&1" ∷ args)
      else if is_os target_os (codes "windows")
      then some (
          codes "powershell"
          ∷ codes "-NoProfile"
          ∷ codes "-NonInteractive"
          ∷ codes "-Command"
          ∷ codes "& @args 2>&1"
          ∷ args)
      else none

  -- `LibvirtMachine::shell_exec`, which computes a command with a redirection and runs the one it was given.
  unfoldable pub machine_shell_exec :
      JsonLibrary
      → ℕ
      → Bytes
      → MachineImpl
      → List Bytes
      → Option ℕ
      → Prog (Result Error SpawnResult)
  unfolding shell_exec add_command_output_redirection
  machine_shell_exec json fuel os machine cmd timeout =
      let fixed_cmd = add_command_output_redirection os cmd in
      shell_exec json fuel machine cmd timeout

  abbrev pub in_config_dir : Bytes → Bytes → Bytes
  in_config_dir config_dir path =
      if sys.is_relative path then sys.path_join config_dir path else path

  unfoldable pub load_template_details : Bytes → Bytes → Result Error LibvirtMachineTemplateDetails
  load_template_details details config_dir =
      let y = sys.yaml details in
      or_error details_failed (
        y (codes "domain_template_path") &> λ domain. y (codes "volume_template_path") &> λ volume.
        y (codes "storage_pool_name") &> λ pool. some record {
          domain_template_path = in_config_dir config_dir domain;
          volume_template_path = in_config_dir config_dir volume;
          storage_pool_name = pool;
        })

  unfoldable pub load_pool_details : Bytes → Result Error Bytes
  load_pool_details details = or_error details_failed (sys.yaml details (codes "hypervisor_uri"))

  -- `fs::read_file`; what it throws gets out of `spawn`.
  abbrev pub read_template : Bytes → Prog (Result Error Bytes)
  read_template path = request (read_file path) >>= λ text. ret (or_error exception text)

  -- With the hypervisor.
  unfoldable pub spawn_on : Bytes → LibvirtMachineTemplateDetails → Prog (Result Error MachineImpl)
  unfolding spawn
  spawn_on uri details = and_then (read_template details.volume_template_path) λ volume.
      and_then (read_template details.domain_template_path) λ domain.
        spawn uri
          record { volume = volume; domain = domain; storage_pool = details.storage_pool_name }

  -- The machine keeps the hypervisor; an error destroys it, with the machines that its map has by then.
  abbrev pub keep_hypervisor :
      Bytes
      → List ℕ
      → Result Error MachineImpl × List MachineImpl
      → Prog (Result Error (MachineImpl × List ℕ))
  keep_hypervisor uri ids (ok machine, tracked) = ret (ok (machine, ids))
  keep_hypervisor uri ids (err e, tracked) = do
    _ ← unregister_event_handlers uri ids
    _ ← destroy_all tracked
    ret (err e)

  unfoldable pub backend_spawn : Bytes → Bytes → Bytes → Prog (Result Error (MachineImpl × List ℕ))
  unfolding load_template_details load_pool_details create unregister_event_handlers spawn_on
      destroy_machine
  backend_spawn pool_details template_details config_dir =
      and_then (ret (load_pool_details pool_details)) λ uri.
        and_then (ret (load_template_details template_details config_dir)) λ details.
          and_then (create uri)
            λ ids. keep_tracked uri (spawn_on uri details) >>= keep_hypervisor uri ids
