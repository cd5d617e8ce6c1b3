-- ===== src/Libvirt/Connection.antt =====
-- `ConnectionImpl`, and what `MachineImpl` does by means of it, modules/virt/src/libvirt/libvirt.cpp.
use gar_virt.Prelude.{Bytes, ok, err, Result, ℕ, Bool, true, false}
use gar_virt.Programs.{ret, ◌>>=◌, request, and_then, on_option}
use gar_virt.Libvirt.{
  connect_failed, close_callback_failed, volume_missing, domain_missing, resume_failed, kill_failed,
  Error, read_conn, store_conn, open_conn, register_close, close_conn, lookup_volume, lookup_domain,
  delete_volume, resume_domain, destroy_domain, Prog, or_error, check,
}

-- `ConnectionImpl::connect`.
abbrev pub connect : Bytes → Prog (Result Error ℕ)
connect uri = do opened ← request (open_conn uri); ret (or_error connect_failed opened)

-- `register_event_handlers`, and what becomes of the connection.
abbrev pub keep_registered : ℕ → Bool → Prog (Result Error ℕ)
keep_registered conn true = do _ ← request (store_conn conn); ret (ok conn)
keep_registered conn false = do _ ← request (close_conn conn); ret (err close_callback_failed)

abbrev pub connect_and_register : Bytes → Prog (Result Error ℕ)
connect_and_register uri =
    and_then (connect uri) λ conn. request (register_close conn) >>= keep_registered conn

-- The mutex is held from the first request to the last.
unfoldable pub get : Bytes → Prog (Result Error ℕ)
get uri = request read_conn >>= on_option (connect_and_register uri) (λ conn. ret (ok conn))

-- The names of a machine: the URI of its connection, its domain and the key of its volume.
pub record MachineImpl : Type 0 where
  pub uri : Bytes
  pub domain_name : Bytes
  pub volume_id : Bytes

unfoldable pub get_volume : MachineImpl → Prog (Result Error ℕ)
unfolding get
get_volume machine = and_then (get machine.uri) λ conn. do
  volume ← request (lookup_volume conn machine.volume_id)
  ret (or_error (volume_missing machine.volume_id) volume)

unfoldable pub get_domain : MachineImpl → Prog (Result Error ℕ)
unfolding get
get_domain machine = and_then (get machine.uri) λ conn. do
  domain ← request (lookup_domain conn machine.domain_name)
  ret (or_error (domain_missing machine.domain_name) domain)

unfoldable pub resume : MachineImpl → Prog (Result Error (Unit {0}))
unfolding get_domain
resume machine = and_then (get_domain machine) λ domain. do
  fine ← request (resume_domain domain)
  ret (check (resume_failed machine.domain_name) fine)

unfoldable pub kill : MachineImpl → Prog (Result Error (Unit {0}))
unfolding get_domain
kill machine = and_then (get_domain machine) λ domain. do
  fine ← request (destroy_domain domain)
  ret (check (kill_failed machine.domain_name) fine)

abbrev pub delete_found : Result Error ℕ → Prog (Unit {0})
delete_found (ok volume) = request (delete_volume volume) >>= λ _. ret tt
delete_found (err e) = ret tt

-- The destructor; that the deletion failed is ignored.
unfoldable pub destroy_machine : MachineImpl → Prog (Unit {0})
unfolding get_volume
destroy_machine machine = get_volume machine >>= delete_found
