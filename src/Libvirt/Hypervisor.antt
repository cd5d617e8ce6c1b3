-- ===== src/Libvirt/Hypervisor.antt =====
-- `HypervisorImpl::create` and `HypervisorImpl::spawn`, modules/virt/src/libvirt/libvirt.cpp.
pub mod Resources
pub mod Spawning
pub mod Creating
pub mod Events
pub mod Lives
pub mod Owning
pub mod Tracking
use gar_virt.Prelude.{
  leb, if◌then◌else◌, Bytes, codes, length, ok, err, Result, ℕ, suc, Bool, true, false, Option,
  none, some, List, [], ◌∷◌, ◌++◌,
}
use gar_virt.Text.{string_replace}
use gar_virt.Programs.{ret, ◌>>=◌, request, and_then, on_option}
use gar_virt.Libvirt.{
  storage_vol_exist, other_code, ErrorCode, poweroff, reboot, crash, Lifecycle, lifecycle_events,
  agent_events, event_handler_failed, pool_missing, volume_failed, volume_key_failed, create_failed,
  lifecycle_failed, loop_failed, Error, lookup_pool, create_volume_xml, last_error, refresh_pool,
  volume_key, version, create_domain, set_lifecycle, register_events, deregister_events, new_uuid,
  track, get_loop, Prog, or_error, check,
}
use gar_virt.Libvirt.Connection.{get, MachineImpl, resume}

pub record SpawnOptions : Type 0 where
  pub volume : Bytes
  pub domain : Bytes
  pub storage_pool : Bytes

-- "${NAME}".
abbrev pub placeholder : Bytes → Bytes
placeholder name = codes "${" ++ (name ++ codes "}")

-- Fuel above the length of the text.
abbrev pub replace_all : Bytes → Bytes → Bytes → Bytes
replace_all text pattern replacement =
    elim (string_replace (suc (length text)) text pattern replacement) [
      | none ↦ text
      | some result ↦ result
    ]

unfoldable pub expand_libvirt_xml_template : Bytes → List (Bytes × Bytes) → Bytes
expand_libvirt_xml_template xml [] = xml
expand_libvirt_xml_template xml ((name, value) ∷ params) =
    expand_libvirt_xml_template (replace_all xml (placeholder name) value) params

abbrev pub volume_exists : Option ErrorCode → Bool
volume_exists none = false
volume_exists (some storage_vol_exist) = true
volume_exists (some other_code) = false

abbrev pub create_again : ℕ → Bytes → Option ErrorCode → Prog (Option ℕ)
create_again pool xml code =
    if volume_exists code
    then (request (refresh_pool pool) >>= λ _. request (create_volume_xml pool xml))
    else ret none

abbrev pub retry_volume : ℕ → Bytes → Option ℕ → Prog (Option ℕ)
retry_volume pool xml (some volume) = ret (some volume)
retry_volume pool xml none = request last_error >>= create_again pool xml

unfoldable pub create_volume : Bytes → Bytes → Bytes → Prog (Result Error ℕ)
unfolding get
create_volume uri volume_xml pool_name = and_then (get uri) λ conn.
    and_then
      (request (lookup_pool conn pool_name) >>= λ pool.
        ret (or_error (pool_missing pool_name) pool))
      λ pool.
        (request (create_volume_xml pool volume_xml) >>= retry_volume pool volume_xml) >>= λ volume.
        ret (or_error volume_failed volume)

abbrev pub lifecycles : List Lifecycle
lifecycles = poweroff ∷ reboot ∷ crash ∷ []

abbrev pub set_lifecycles : ℕ → Bytes → List Lifecycle → Prog (Result Error (Unit {0}))
set_lifecycles domain name [] = ret (ok tt)
set_lifecycles domain name (lifecycle ∷ rest) =
    and_then
      (request (set_lifecycle domain lifecycle) >>= λ fine.
        ret (check (lifecycle_failed lifecycle name) fine))
      λ _. set_lifecycles domain name rest

abbrev pub machine_of : Bytes → Bytes → Bytes → MachineImpl
machine_of uri name key = record { uri = uri; domain_name = name; volume_id = key }

-- From the domain on.
abbrev pub start_domain : Bytes → Bytes → Bytes → ℕ → Prog (Result Error MachineImpl)
start_domain uri name key domain = and_then (set_lifecycles domain name lifecycles) λ _. do
  _ ← request (track name key)
  and_then (resume (machine_of uri name key)) λ _. ret (ok (machine_of uri name key))

-- From the volume on; `start_reset_nvram` is set from version 8.1.0 of libvirt.
abbrev pub with_volume : Bytes → SpawnOptions → ℕ → Bytes → ℕ → Prog (Result Error MachineImpl)
with_volume uri options conn name volume =
    and_then (request (volume_key volume) >>= λ key. ret (or_error volume_key_failed key)) λ key. do
      v ← request (version conn)
      let xml = expand_libvirt_xml_template options.domain ((codes "DOMAIN_NAME", name) ∷ [])
      domain ← request (create_domain conn xml (leb 8001000 v))
      on_option (ret (err (create_failed name))) (start_domain uri name key) domain

unfoldable pub spawn : Bytes → SpawnOptions → Prog (Result Error MachineImpl)
unfolding get create_volume resume expand_libvirt_xml_template
spawn uri options = and_then (get uri) λ conn. do
  name ← request new_uuid
  and_then
      (create_volume uri
        (expand_libvirt_xml_template options.volume ((codes "DOMAIN_NAME", name) ∷ []))
        options.storage_pool)
      (with_volume uri options conn name)

abbrev pub deregister : ℕ → Result Error ℕ → Prog (Unit {0})
deregister id (ok conn) = request (deregister_events conn id)
deregister id (err e) = ret tt

-- For the ids latest first.
unfoldable pub unregister_event_handlers : Bytes → List ℕ → Prog (Unit {0})
unfolding get
unregister_event_handlers uri [] = ret tt
unregister_event_handlers uri (id ∷ ids) = do
  conn ← get uri
  _ ← deregister id conn
  unregister_event_handlers uri ids

-- `register_event_handlers` on a connection: the ids that were registered, latest first, and the error
-- if there is one.
abbrev pub register_second : ℕ → ℕ → Option ℕ → List ℕ × Result Error (Unit {0})
register_second conn first none = (first ∷ [], err event_handler_failed)
register_second conn first (some second) = (second ∷ first ∷ [], ok tt)

abbrev pub register_first : ℕ → Option ℕ → Prog (List ℕ × Result Error (Unit {0}))
register_first conn none = ret ([], err event_handler_failed)
register_first conn (some first) = do
  second ← request (register_events conn agent_events)
  ret (register_second conn first second)

abbrev pub register_on : Result Error ℕ → Prog (List ℕ × Result Error (Unit {0}))
register_on (err e) = ret ([], err e)
register_on (ok conn) = request (register_events conn lifecycle_events) >>= register_first conn

unfoldable pub register_event_handlers : Bytes → Prog (List ℕ × Result Error (Unit {0}))
unfolding get
register_event_handlers uri = get uri >>= register_on

-- The object, if it was made: the ids of its handlers. An error destroys what was made.
abbrev pub finish_create : Bytes → List ℕ × Result Error (Unit {0}) → Prog (Result Error (List ℕ))
finish_create uri (ids, ok u) = ret (ok ids)
finish_create uri (ids, err e) = unregister_event_handlers uri ids >>= λ _. ret (err e)

unfoldable pub create : Bytes → Prog (Result Error (List ℕ))
unfolding register_event_handlers unregister_event_handlers
create uri = do
  loop ← request get_loop
  if loop then (register_event_handlers uri >>= finish_create uri) else ret (err loop_failed)
