-- ===== src/Libvirt/Hypervisor/Spawning.antt =====
-- What a spawn leaves behind.
use gar_virt.Prelude.{Bytes, ok, err, Result, ℕ, ◌≡◌, ◌⊎◌}
use gar_virt.Libvirt.{
  connect_failed, close_callback_failed, domain_missing, pool_missing, volume_failed,
  volume_key_failed, create_failed, resume_failed, lifecycle_failed, Error,
}
use gar_virt.Libvirt.Connection.{MachineImpl}
use gar_virt.Libvirt.Hypervisor.Resources.{Resources, with_vol, with_dom, AllMade, SomeAllMade}

-- What is left behind a spawn, by its result.
abbrev pub Left : Bytes → Resources → Result Error MachineImpl → Resources → Type 0
Left uri s (ok m) s' = (m.uri ≡ uri) × AllMade s m.domain_name m.volume_id s'
Left uri s (err connect_failed) s' = (s' ≡ s) ⊎ SomeAllMade s s'
Left uri s (err close_callback_failed) s' = (s' ≡ s) ⊎ SomeAllMade s s'
Left uri s (err (pool_missing name)) s' = s' ≡ s
Left uri s (err volume_failed) s' = s' ≡ s
Left uri s (err volume_key_failed) s' = (volume : ℕ) × (s' ≡ with_vol volume s)
Left uri s (err (create_failed name)) s' = (volume : ℕ) × (s' ≡ with_vol volume s)
Left uri s (err (lifecycle_failed lifecycle name)) s' =
    (volume domain : ℕ) × (s' ≡ with_dom domain (with_vol volume s))
Left uri s (err (domain_missing name)) s' = SomeAllMade s s'
Left uri s (err (resume_failed name)) s' = SomeAllMade s s'
Left uri s (err e) s' = ⊥
