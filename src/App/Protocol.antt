-- ===== src/App/Protocol.antt =====
-- What an iteration of the runner loop owes: to the pool its machine back, to the forge the removal of
-- its runner and a result for each task.
use gar_virt.Prelude.{Bytes, ok, err, Result, ℕ, suc, ◌≡◌, Bool, true, false, Option, some, List}
use gar_virt.App.{
  Error, Machine, SpawnResult, is_signalled, sleep_for, acquire, activate, deactivate, release,
  get_registration_token, post_ping, post_register, post_declare, post_fetch_task, post_update_task,
  remove_runner, write_file, shell_exec, Request, Registered, FetchedTask, Answer,
}
use gar_virt.App.Runner.{TaskParcel, to_parcel}

-- How far an iteration is. `stranded` and `left_behind`: a runner was registered and will not be removed.
pub data Phase : Type 0 where
  outside : Phase
  holding leaving : Machine → Phase
  registered : Machine → ℕ → Phase
  fetched_one assigned unreported : Machine → ℕ → ℕ → Phase
  active : ℕ → Machine → ℕ → ℕ → Phase
  unsuccessful finished : Machine → ℕ → ℕ → Phase
  closing : Machine → ℕ → Phase
  stranded : Machine → ℕ → Phase
  left_behind : ℕ → Phase

-- What may be asked in a phase, and which phase the answer leads to. A phase between `holding` and
-- `registered` needs no name: the requests of a registration that fails leave nothing behind.
pub data Step : Phase → (q : Request) → Answer q → Phase → Type 0 where
  -- The signal is looked at and time passes.
  look : (p : Phase) (b : Bool) → Step p is_signalled b p
  pass : (p : Phase) (t : ℕ) → Step p (sleep_for t) tt p
  -- The pool.
  receive_none :
      (t : ℕ) (r : Result Error (Option Machine))
      → ((m : Machine) → ¬ (r ≡ ok (some m)))
      → Step outside (acquire t) r outside
  receive : (t : ℕ) (m : Machine) → Step outside (acquire t) (ok (some m)) (holding m)
  give_back : (m : Machine) → Step (leaving m) (release m) tt outside
  give_back_unused : (m : Machine) → Step (holding m) (release m) tt outside
  give_back_stranded : (m : Machine) (r : ℕ) → Step (stranded m r) (release m) tt (left_behind r)
  -- The registration of a runner.
  ask_token :
      (m : Machine) (r : Result Error Bytes) → Step (holding m) get_registration_token r (holding m)
  try_ping :
      (m : Machine) (d : Bytes) (r : Result Error (Unit {0}))
      → Step (holding m) (post_ping d) r (holding m)
  not_registered :
      (m : Machine) (n t v : Bytes) (ls : List Bytes) (e : Error)
      → Step (holding m) (post_register n t v ls) (err e) (holding m)
  register :
      (m : Machine) (n t v : Bytes) (ls : List Bytes) (r : Registered)
      → Step (holding m) (post_register n t v ls) (ok r) (registered m r.id)
  declared :
      (m : Machine) (r : ℕ) (v : Bytes) (ls : List Bytes)
      → Step (registered m r) (post_declare r v ls) (ok tt) (registered m r)
  not_declared :
      (m : Machine) (r : ℕ) (v : Bytes) (ls : List Bytes) (e : Error)
      → Step (registered m r) (post_declare r v ls) (err e) (stranded m r)
  -- Tasks.
  no_task :
      (m : Machine) (r : ℕ) (res : Result Error (Option FetchedTask))
      → ((k : TaskParcel) → ¬ (to_parcel res ≡ ok (some k)))
      → Step (registered m r) (post_fetch_task r) res (registered m r)
  got_task :
      (m : Machine) (r : ℕ) (res : Result Error (Option FetchedTask)) (k : TaskParcel)
      → to_parcel res ≡ ok (some k)
      → Step (registered m r) (post_fetch_task r) res (fetched_one m r k.id)
  accept : (m : Machine) (r k : ℕ) → Step (fetched_one m r k) is_signalled false (assigned m r k)
  drop_task :
      (m : Machine) (r k : ℕ) → Step (fetched_one m r k) is_signalled true (unreported m r k)
  report_late :
      (m : Machine) (r k : ℕ) (res : Result Error (Unit {0}))
      → Step (assigned m r k) (post_update_task r k) res (closing m r)
  -- The machine works.
  set_to_work : (m : Machine) (r k : ℕ) → Step (assigned m r k) (activate m) tt (active 0 m r k)
  written :
      (n : ℕ) (m : Machine) (r k : ℕ) (path content : Bytes)
      → Step (active n m r k) (write_file m path content) (ok tt) (active (suc n) m r k)
  not_written :
      (n : ℕ) (m : Machine) (r k : ℕ) (path content : Bytes) (e : Error)
      → Step (active n m r k) (write_file m path content) (err e) (unsuccessful m r k)
  succeed :
      (m : Machine) (r k : ℕ) (cmd : List Bytes) (t : ℕ) (s : SpawnResult)
      → s.exit_code ≡ 0
      → Step (active 3 m r k) (shell_exec m cmd t) (ok s) (finished m r k)
  not_succeed :
      (m : Machine) (r k : ℕ) (cmd : List Bytes) (t : ℕ) (res : Result Error SpawnResult)
      → ((s : SpawnResult) → res ≡ ok s → ¬ (s.exit_code ≡ 0))
      → Step (active 3 m r k) (shell_exec m cmd t) res (unsuccessful m r k)
  report :
      (m : Machine) (r k : ℕ) (res : Result Error (Unit {0}))
      → Step (unsuccessful m r k) (post_update_task r k) res (finished m r k)
  rest : (m : Machine) (r k : ℕ) → Step (finished m r k) (deactivate m) tt (closing m r)
  -- The runner goes.
  unused :
      (m : Machine) (r : ℕ) (res : Result Error (Unit {0}))
      → Step (registered m r) (remove_runner r) res (leaving m)
  unreported_goes :
      (m : Machine) (r k : ℕ) (res : Result Error (Unit {0}))
      → Step (unreported m r k) (remove_runner r) res (leaving m)
  unregistered :
      (m : Machine) (r : ℕ) (res : Result Error (Unit {0}))
      → Step (closing m r) (remove_runner r) res (leaving m)
