-- ===== src/Libvirt/Hypervisor/Lives.antt =====
-- What the events of libvirt mean to one machine, as `lifecycle_event_handler` and
-- `agent_lifecycle_event_handler` of modules/virt/src/libvirt/libvirt.cpp intend them.
use gar_virt.Prelude.{if◌then◌else◌, Bytes, Bool, true, false, none, some, List, [], ◌∷◌}
use gar_virt.Text.{same_bytes}
use gar_virt.Libvirt.Hypervisor.Events.{
  agent_connected, agent_disconnected, Flags, no_flags, is_harmless, spawned_machine,
  lifecycle_event, agent_event, Happening,
}

-- The life of a machine; the flag says if its agent had connected.
pub data Life : Type 0 where
  booting attentive : Life
  gone : Bool → Life

abbrev pub flags_of : Life → Flags
flags_of booting = no_flags
flags_of attentive = record { quit = false; ready = true }
flags_of (gone b) = record { quit = true; ready = b }

abbrev pub die : Life → Life
die booting = gone false
die attentive = gone true
die (gone b) = gone b

abbrev pub wake : Life → Life
wake booting = attentive
wake attentive = attentive
wake (gone b) = gone b

-- What an event for a name means to a machine.
abbrev pub advance : Bytes → Happening → Life → Life
advance name (spawned_machine other) life = life
advance name (lifecycle_event none event) life = life
advance name (lifecycle_event (some other) event) life =
    if same_bytes name other then (if is_harmless event then life else die life) else life
advance name (agent_event none state) life = life
advance name (agent_event (some other) agent_disconnected) life = life
advance name (agent_event (some other) agent_connected) life =
    if same_bytes name other then wake life else life

abbrev pub advance_all : Bytes → List Happening → Life → Life
advance_all name [] life = life
advance_all name (h ∷ happenings) life = advance_all name happenings (advance name h life)

abbrev pub is_alive : Life → Bool
is_alive booting = true
is_alive attentive = true
is_alive (gone b) = false
