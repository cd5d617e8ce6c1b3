-- ===== src/Libvirt/Examples.antt =====
-- Runs against a libvirt that answers everything, and a guest agent that answers with one text.
use gar_virt.Prelude.{
  ltb, if◌then◌else◌, Bytes, codes, length, All, Result, ℕ, zero, suc, ◌*◌, ◌≤◌, ◌<◌, ◌≡◌, refl,
  ◌≢◌, ◌↔◌, Bool, true, false, none, some, List, [], ◌∷◌, arith,
}
use gar_virt.Base64.RoundTrip.{IsByte}
use gar_virt.Numeric.{pos}
use gar_virt.Programs.{returned, still_running, run, ends}
use gar_virt.Programs.Safety.{Holds, Trail}
use gar_virt.Libvirt.{
  Error, read_conn, store_conn, open_conn, register_close, close_conn, lookup_volume, lookup_domain,
  lookup_pool, create_volume_xml, last_error, refresh_pool, volume_key, delete_volume, version,
  create_domain, set_lifecycle, resume_domain, destroy_domain, register_events, deregister_events,
  new_uuid, track, agent_command, sleep_for, now, is_signalled, read_quit, read_ready, get_loop,
  read_file, Environment,
}
use gar_virt.Libvirt.Json.{
  boolean, int64, object, Json, end_of_object, field, JsonObject, JsonLibrary,
}
use gar_virt.Libvirt.Connection.{MachineImpl}
use gar_virt.Libvirt.Guest.{SpawnResult, exit_result, write_file, poll_loop, shell_exec}
use gar_virt.Libvirt.Guest.Files.{before, Place, FileStep, AtEnd, write_file_keeps_protocol}
use gar_virt.Libvirt.Guest.Polling.{Waits, has_exited, StopsAt, poll_loop_lem}
use gar_virt.Libvirt.Guest.Hanging.{shell_exec_hangs}
use gar_virt.Libvirt.Hypervisor.{SpawnOptions, create}
use gar_virt.Libvirt.Hypervisor.Resources.{Resources, Effect, with_vol, with_dom, with_tracked}
use gar_virt.Libvirt.Backend.{wait_for_guest_agent, destroy_libvirt_machine}
use gar_virt.Libvirt.Backend.Destroying.{after, Works, destroying_gives_back}
use gar_virt.Libvirt.Backend.Waiting.{pauses, Ticking, Because, wait_for_guest_agent_returns}
use gar_virt.Libvirt.Hypervisor.Events.{
  stopped, crashed_event, agent_connected, find_tracked_machine_by_name, no_machines, emplace,
  spawned_machine, lifecycle_event, agent_event, Happening, handle_all, is_ready_by,
}
use gar_virt.Libvirt.Hypervisor.Lives.{gone, flags_of}
use gar_virt.Libvirt.Hypervisor.Tracking.{machine_keeps_its_life}
use gar_virt.Libvirt.Hypervisor.Creating.{Created, create_registers}

-- Every text parses as the same answer, to an open request, an exec request or a status request.
abbrev replying : Json → JsonLibrary
replying value = record {
  parse = λ text. some (object (field (codes "return") value end_of_object));
  serialize = λ value. [];
}

abbrev machine : MachineImpl
machine = record { uri = codes "qemu:///system"; domain_name = codes "vm"; volume_id = codes "key" }

-- A domain can be resumed or not.
abbrev answers : Bool → Environment
answers resumes past read_conn = none
answers resumes past (store_conn conn) = tt
answers resumes past (open_conn uri) = some 1
answers resumes past (register_close conn) = true
answers resumes past (close_conn conn) = tt
answers resumes past (lookup_volume conn key) = some 2
answers resumes past (lookup_domain conn name) = some 3
answers resumes past (lookup_pool conn name) = some 4
answers resumes past (create_volume_xml pool xml) = some 2
answers resumes past last_error = none
answers resumes past (refresh_pool pool) = tt
answers resumes past (volume_key volume) = some (codes "key")
answers resumes past (delete_volume volume) = true
answers resumes past (version conn) = 8001000
answers resumes past (create_domain conn xml reset_nvram) = some 3
answers resumes past (set_lifecycle domain lifecycle) = true
answers resumes past (resume_domain domain) = resumes
answers resumes past (destroy_domain domain) = true
answers resumes past (register_events conn kind) = some 5
answers resumes past (deregister_events conn id) = tt
answers resumes past new_uuid = codes "vm"
answers resumes past (track name key) = tt
answers resumes past (agent_command domain cmd timeout) = some []
answers resumes past (sleep_for t) = tt
answers resumes past now = length past
answers resumes past is_signalled = false
answers resumes past (read_quit name) = false
answers resumes past (read_ready name) = false
answers resumes past get_loop = true
answers resumes past (read_file path) = some (codes "<v/>")

-- The connection is there already.
abbrev connected : Environment
connected past read_conn = some 1
connected past q = answers true past q

abbrev handle_reply : JsonLibrary
handle_reply = replying (int64 (pos 1000))

abbrev content : Bytes
content = 104 ∷ 105 ∷ []

content-All : All IsByte content
content-All = omega arith

write_file_keeps_protocol_example :
    (p : Place) × Trail
      (FileStep handle_reply machine (codes "f") content)
      before
      (run (answers true) [] (write_file handle_reply machine (codes "f") content)).0
      p
    × Holds ⊥
        (AtEnd handle_reply machine (codes "f") content)
        (run (answers true) [] (write_file handle_reply machine (codes "f") content)).1
        p
write_file_keeps_protocol_example =
    write_file_keeps_protocol handle_reply machine (codes "f") content (answers true) [] content-All

-- A command that never exits.
abbrev endless : JsonObject
endless = field (codes "pid") (int64 (pos 7)) (field (codes "exited") (boolean false) end_of_object)

abbrev endless_reply : JsonLibrary
endless_reply = replying (object endless)

-- A command that has exited when its status is asked for the third time.
abbrev over : JsonObject
over =
    field (codes "exitcode") (int64 (pos 4)) (field (codes "exited") (boolean true) end_of_object)

abbrev status_for : Bytes → JsonObject
status_for [] = endless
status_for (c ∷ text) = over

abbrev patient_reply : JsonLibrary
patient_reply = record {
  parse = λ text. some (object (field (codes "return") (object (status_for text)) end_of_object));
  serialize = λ value. [];
}

abbrev patient : Environment
patient past (agent_command domain cmd timeout) =
    some (if ltb (length past) 4 then [] else (49 ∷ []))
patient past q = answers true past q

poll_loop_lem_example :
    ((result : Result Error SpawnResult)
      → (ends patient [] (poll_loop patient_reply 9 3 (pos 7)) ≡ returned result)
        ↔ ((k : ℕ) × (k < 9) × StopsAt patient_reply patient 3 (pos 7) [] result k))
    × ((ends patient [] (poll_loop patient_reply 9 3 (pos 7)) ≡ still_running)
        ↔ ((i : ℕ) → i < 9 → Waits patient_reply patient 3 (pos 7) [] i))
poll_loop_lem_example = poll_loop_lem patient_reply patient 3 (pos 7) [] 9

-- The third round is the one that ends the loop.
patient_stops : StopsAt patient_reply patient 3 (pos 7) [] (exit_result over) 2
patient_stops = (waits, has_exited (49 ∷ []) over refl refl)
  where
    waits : (i : ℕ) → i < 2 → Waits patient_reply patient 3 (pos 7) [] i
    waits zero lt = (endless, ([], refl, refl, refl))
    waits (suc zero) lt = (endless, ([], refl, refl, refl))
    waits (suc (suc i)) lt = absurd (omega arith)

patient_returns :
    ends patient [] (poll_loop patient_reply 9 3 (pos 7)) ≡ returned (exit_result over)
patient_returns =
    ((poll_loop_lem patient_reply patient 3 (pos 7) [] 9).0 (exit_result over)).1
      (2, omega arith, patient_stops)

shell_exec_hangs_example :
    ends connected []
      (shell_exec endless_reply 9 machine (codes "sleep" ∷ codes "inf" ∷ []) (some 5))
    ≡ still_running
shell_exec_hangs_example =
    shell_exec_hangs endless_reply connected machine (codes "sleep") (codes "inf" ∷ []) (some 5) []
      1 3 [] (pos 7) 9 refl
      record { connected = refl; domain_found = refl; answered = refl; identified = refl }
      (λ i. (endless, ([], refl, refl, refl)))

-- The machine that cannot be resumed stays.
abbrev nothing_made : Resources
nothing_made = record { volumes = []; domains = []; tracked = []; handlers = [] }

abbrev options : SpawnOptions
options = record { volume = codes "<v/>"; domain = codes "<d/>"; storage_pool = codes "default" }

-- A clock that only goes on in pauses; the agent never connects.
abbrev slow : Environment
slow past now = 200 * pauses past
slow past q = answers true past q

slow-Ticking : Ticking slow
slow-Ticking past (q, r) = omega arith

wait_for_guest_agent_returns_example :
    (r : Result Error (Unit {0})) × ((run slow [] (wait_for_guest_agent 11 machine 2)).1
      ≡ returned r)
    × Because 2000 (codes "vm") (run slow [] (wait_for_guest_agent 11 machine 2)).0 r
    × (pauses (run slow [] (wait_for_guest_agent 11 machine 2)).0 ≤ 10)
wait_for_guest_agent_returns_example =
    wait_for_guest_agent_returns slow [] 11 machine 2 slow-Ticking (omega arith)

-- A machine whose agent connects before it is stopped, after another one.
abbrev history_before : List Happening
history_before = spawned_machine (codes "a") ∷ []

abbrev history_behind : List Happening
history_behind =
    agent_event (some (codes "vm")) agent_connected
    ∷ lifecycle_event (some (codes "a")) stopped
    ∷ lifecycle_event (some (codes "vm")) crashed_event
    ∷ []

vm-absent : find_tracked_machine_by_name (codes "vm") (handle_all history_before no_machines) ≡ none
unfolding find_tracked_machine_by_name handle_all emplace
vm-absent = refl

machine_keeps_its_life_example :
    (is_ready_by (codes "vm") (
        (handle_all history_behind
            (emplace (codes "vm") (handle_all history_before no_machines))).flags
          (handle_all history_before no_machines).next_id)
      ≡ is_ready_by (codes "vm") (flags_of (gone true)))
    × (false ≡ true
        → find_tracked_machine_by_name (codes "vm") (
            handle_all history_behind
              (emplace (codes "vm") (handle_all history_before no_machines)))
          ≡ some (handle_all history_before no_machines).next_id)
    × (false ≡ false
        → (other : Bytes)
        → find_tracked_machine_by_name other (
            handle_all history_behind
              (emplace (codes "vm") (handle_all history_before no_machines)))
          ≢ some (handle_all history_before no_machines).next_id)
machine_keeps_its_life_example =
    machine_keeps_its_life history_before history_behind (codes "vm") vm-absent

connected-Works : Works connected machine 1 3 2
connected-Works = record {
  connected = λ past. refl;
  domain_found = λ past. refl;
  volume_found = λ past. refl;
  killed = λ past. refl;
  deleted = λ past. refl;
}

destroying_gives_back_example :
    ((run connected [] (destroy_libvirt_machine true (6 ∷ 5 ∷ []) machine)).1 ≡ returned tt)
    × ((after
          (run connected [] (destroy_libvirt_machine true (6 ∷ 5 ∷ []) machine)).0
          (with_tracked (codes "vm") (codes "key") (with_dom 3 (with_vol 2 nothing_made)))).domains
        ≡ [])
    × ((after
          (run connected [] (destroy_libvirt_machine true (6 ∷ 5 ∷ []) machine)).0
          (with_tracked (codes "vm") (codes "key") (with_dom 3 (with_vol 2 nothing_made)))).volumes
        ≡ [])
destroying_gives_back_example =
    destroying_gives_back connected machine 1 3 2 true (6 ∷ 5 ∷ []) [] nothing_made connected-Works
      tt tt

create_registers_example :
    (s' : Resources) × Trail Effect nothing_made
      (run (answers true) [] (create (codes "qemu:///system"))).0
      s'
    × Holds ⊥ (Created nothing_made) (run (answers true) [] (create (codes "qemu:///system"))).1 s'
create_registers_example = create_registers (codes "qemu:///system") nothing_made (answers true) []
