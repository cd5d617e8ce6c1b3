-- ===== src/Libvirt/Hypervisor/Events.antt =====
-- The handlers of libvirt's events in `HypervisorImpl`, with the flags of `MachineImpl`,
-- modules/virt/src/libvirt/libvirt.cpp. A handler runs with the mutex of the map held.
use gar_virt.Prelude.{
  ◌==◌, if◌then◌else◌, Bytes, ok, err, Result, ℕ, suc, Bool, true, false, Option, none, some, List,
  [], ◌∷◌,
}
use gar_virt.Text.{same_bytes}
use gar_virt.Libvirt.{decayed, Error}

-- The state of a lifecycle event and that of an agent event.
pub data LifecycleEvent : Type 0 where
  defined undefined_event started suspended resumed stopped shutdown pm_suspended crashed_event :
      LifecycleEvent

pub data AgentState : Type 0 where
  agent_connected agent_disconnected : AgentState

-- `m_quit` and `m_ready` of a machine.
pub record Flags : Type 0 where
  pub quit : Bool
  pub ready : Bool

-- The map, in which a machine is the number of its object, and the flags of the objects made, which outlive
-- their entries; `next_id` is the next object's.
pub record Tracker : Type 0 where
  pub machine_by_domain_name : List (Bytes × ℕ)
  pub flags : ℕ → Flags
  pub next_id : ℕ

abbrev pub find : Bytes → List (Bytes × ℕ) → Option ℕ
find name [] = none
find name ((other, id) ∷ entries) =
    let more = find name entries in if same_bytes name other then some id else more

abbrev pub erase : Bytes → List (Bytes × ℕ) → List (Bytes × ℕ)
erase name [] = []
erase name ((other, id) ∷ entries) =
    let more = erase name entries in if same_bytes name other then more else (other, id) ∷ more

unfoldable pub find_tracked_machine_by_name : Bytes → Tracker → Option ℕ
find_tracked_machine_by_name name t = find name t.machine_by_domain_name

-- The machine that `spawn` makes, and puts into the map unless the name is there.
abbrev pub no_flags : Flags
no_flags = record { quit = false; ready = false }

abbrev pub no_machines : Tracker
no_machines = record { machine_by_domain_name = []; flags = λ id. no_flags; next_id = 0 }

abbrev pub set_flags : ℕ → Flags → (ℕ → Flags) → ℕ → Flags
set_flags id f flags other = if other == id then f else flags other

abbrev pub emplaced : Bytes → Tracker → Option ℕ → Tracker
emplaced name t (some id) = t
emplaced name t none = record {
  machine_by_domain_name = (name, t.next_id) ∷ t.machine_by_domain_name;
  flags = set_flags t.next_id no_flags t.flags;
  next_id = suc t.next_id;
}

unfoldable pub emplace : Bytes → Tracker → Tracker
unfolding find_tracked_machine_by_name
emplace name t = emplaced name t (find_tracked_machine_by_name name t)

abbrev pub notify_bad_state : ℕ → Tracker → Tracker
notify_bad_state id t = record t {
  flags = set_flags id (record (t.flags id) { quit = true }) t.flags;
}

abbrev pub notify_ready : ℕ → Tracker → Tracker
notify_ready id t = record t { flags = set_flags id (record (t.flags id) { ready = true }) t.flags }

abbrev pub decay : Bytes → Tracker → Option ℕ → Tracker
decay name t none = t
decay name t (some id) = record (notify_bad_state id t) {
  machine_by_domain_name = erase name t.machine_by_domain_name;
}

abbrev pub is_harmless : LifecycleEvent → Bool
is_harmless started = true
is_harmless resumed = true
is_harmless defined = false
is_harmless undefined_event = false
is_harmless suspended = false
is_harmless stopped = false
is_harmless shutdown = false
is_harmless pm_suspended = false
is_harmless crashed_event = false

-- The name is that of the domain, if it has one.
unfoldable pub lifecycle_event_handler : Option Bytes → LifecycleEvent → Tracker → Tracker
unfolding find_tracked_machine_by_name
lifecycle_event_handler none event t = t
lifecycle_event_handler (some name) event t =
    if is_harmless event then t else decay name t (find_tracked_machine_by_name name t)

abbrev pub become_ready : Tracker → Option ℕ → Tracker
become_ready t none = t
become_ready t (some id) = notify_ready id t

unfoldable pub agent_lifecycle_event_handler : Option Bytes → AgentState → Tracker → Tracker
unfolding find_tracked_machine_by_name
agent_lifecycle_event_handler none state t = t
agent_lifecycle_event_handler (some name) agent_disconnected t = t
agent_lifecycle_event_handler (some name) agent_connected t =
    become_ready t (find_tracked_machine_by_name name t)

-- What happens to the map, one after the other.
pub data Happening : Type 0 where
  spawned_machine : Bytes → Happening
  lifecycle_event : Option Bytes → LifecycleEvent → Happening
  agent_event : Option Bytes → AgentState → Happening

abbrev pub handle : Happening → Tracker → Tracker
handle (spawned_machine name) t = emplace name t
handle (lifecycle_event name event) t = lifecycle_event_handler name event t
handle (agent_event name state) t = agent_lifecycle_event_handler name state t

unfoldable pub handle_all : List Happening → Tracker → Tracker
handle_all [] t = t
handle_all (h ∷ happenings) t = handle_all happenings (handle h t)

-- `MachineImpl::is_ready` of a machine with these flags.
unfoldable pub is_ready_by : Bytes → Flags → Result Error Bool
is_ready_by name f = if f.quit then err (decayed name) else ok f.ready
