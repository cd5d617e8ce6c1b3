-- ===== src/Libvirt.antt =====
-- modules/virt/src/libvirt: the layer over the libvirt library. A function that calls libvirt, or reads what
-- other threads write, is a program; the environment answers for libvirt, for the guest agent behind it
-- and for the other threads. A handle of libvirt is a number; giving handles back is left out, but for
-- connections.
pub mod EventLoop
pub mod Json
pub mod Connection
pub mod Guest
pub mod Hypervisor
pub mod Backend
mod Examples
use gar_virt.Programs
use gar_virt.Numeric.{ℤ}
use gar_virt.Prelude.{Bytes, ok, err, Result, ℕ, Bool, true, false, Option, none, some}

-- The code of libvirt's last error: `VIR_ERR_STORAGE_VOL_EXIST`, or another.
pub data ErrorCode : Type 0 where
  storage_vol_exist other_code : ErrorCode

-- The lifecycle of a domain for which an action is set, and the kinds of event handlers.
pub data Lifecycle : Type 0 where
  poweroff reboot crash : Lifecycle

pub data EventKind : Type 0 where
  lifecycle_events agent_events : EventKind

-- The errors, one for each message; `exception` is what a `catch` makes of an exception.
pub data Error : Type 0 where
  connect_failed close_callback_failed event_handler_failed : Error
  volume_missing domain_missing : Bytes → Error
  pool_missing : Bytes → Error
  volume_failed volume_key_failed : Error
  create_failed resume_failed kill_failed : Bytes → Error
  lifecycle_failed : Lifecycle → Bytes → Error
  decayed : Bytes → Error
  open_failed write_failed exec_failed status_failed abnormal exception : Error
  timeout_too_short : Error
  loop_failed details_failed : Error
  shutting_down : Error
  agent_timeout : Bytes → Error

-- How long an agent command may take: `VIR_DOMAIN_QEMU_AGENT_COMMAND_DEFAULT`, `..._BLOCK`, or seconds.
pub data Patience : Type 0 where
  default_time blocking : Patience
  seconds : ℤ → Patience

-- What a program asks for. `read_conn` and `store_conn` are `ConnectionImpl::m_conn` under its mutex,
-- `track` puts a machine into the map of the hypervisor, `read_quit` and `read_ready` are the flags of a
-- machine. Times are in milliseconds.
pub data Request : Type 0 where
  read_conn : Request
  store_conn : ℕ → Request
  open_conn : Bytes → Request
  register_close close_conn : ℕ → Request
  lookup_volume lookup_domain lookup_pool : ℕ → Bytes → Request
  create_volume_xml : ℕ → Bytes → Request
  last_error : Request
  refresh_pool : ℕ → Request
  volume_key : ℕ → Request
  delete_volume : ℕ → Request
  version : ℕ → Request
  create_domain : ℕ → Bytes → Bool → Request
  set_lifecycle : ℕ → Lifecycle → Request
  resume_domain destroy_domain : ℕ → Request
  register_events : ℕ → EventKind → Request
  deregister_events : ℕ → ℕ → Request
  new_uuid : Request
  track : Bytes → Bytes → Request
  agent_command : ℕ → Bytes → Patience → Request
  sleep_for : ℕ → Request
  now is_signalled : Request
  read_quit read_ready : Bytes → Request
  get_loop : Request
  read_file : Bytes → Request

-- A handle that is null, an id or a result that is negative, is nothing or `false`.
abbrev pub Answer : Request → Type 0
Answer read_conn = Option ℕ
Answer (store_conn conn) = Unit {0}
Answer (open_conn uri) = Option ℕ
Answer (register_close conn) = Bool
Answer (close_conn conn) = Unit {0}
Answer (lookup_volume conn key) = Option ℕ
Answer (lookup_domain conn name) = Option ℕ
Answer (lookup_pool conn name) = Option ℕ
Answer (create_volume_xml pool xml) = Option ℕ
Answer last_error = Option ErrorCode
Answer (refresh_pool pool) = Unit {0}
Answer (volume_key volume) = Option Bytes
Answer (delete_volume volume) = Bool
Answer (version conn) = ℕ
Answer (create_domain conn xml reset_nvram) = Option ℕ
Answer (set_lifecycle domain lifecycle) = Bool
Answer (resume_domain domain) = Bool
Answer (destroy_domain domain) = Bool
Answer (register_events conn kind) = Option ℕ
Answer (deregister_events conn id) = Unit {0}
Answer new_uuid = Bytes
Answer (track name key) = Unit {0}
Answer (agent_command domain cmd timeout) = Option Bytes
Answer (sleep_for t) = Unit {0}
Answer now = ℕ
Answer is_signalled = Bool
Answer (read_quit name) = Bool
Answer (read_ready name) = Bool
Answer get_loop = Bool
Answer (read_file path) = Option Bytes

-- The programs of the layer, their events and environments.
abbrev pub Prog : Type 0 → Type 0
Prog A = Programs.Prog Request Answer A

abbrev pub Event : Type 0
Event = Programs.Event Request Answer

abbrev pub Environment : Type 0
Environment = Programs.Environment Request Answer

abbrev pub or_error : {A : Type 0} → Error → Option A → Result Error A
or_error e none = err e
or_error e (some a) = ok a

abbrev pub check : Error → Bool → Result Error (Unit {0})
check e true = ok tt
check e false = err e
