-- ===== src/Libvirt/Guest/Hanging.antt =====
-- The time-out of `shell_exec`.
use gar_virt.Prelude.{Bytes, ok, err, Result, ℕ, ◌≡◌, ap, ◌∙◌, true, Option, some, List, ◌∷◌}
use gar_virt.Numeric.{ℤ}
use gar_virt.Programs.{ret, still_running, ◌>>=◌, request, on_ok, and_then, on_option, run, ends}
use gar_virt.Libvirt.{
  domain_missing, exception, timeout_too_short, Error, read_conn, lookup_domain, agent_command,
  Request, Prog, Event, Environment, or_error, check,
}
use gar_virt.Libvirt.Json.{JsonLibrary}
use gar_virt.Libvirt.Connection.{connect_and_register, get, MachineImpl, get_domain}
use gar_virt.Libvirt.Guest.{
  exec_request, long_enough, qemu_timeout, pid_of, poll_loop, exec_answered, executed, shell_exec,
}
use gar_virt.Libvirt.Guest.Polling.{Waits, poll_loop_lem}

module _ (json : JsonLibrary) (env : Environment) (machine : MachineImpl) (exe : Bytes)
    (args : List Bytes) (timeout : Option ℕ) (past : List Event) (conn domain : ℕ) (reply : Bytes)
    (pid : ℤ) where
  abbrev pub exec : Request
  exec = agent_command domain (json.serialize (exec_request exe args)) (qemu_timeout timeout)

  -- What has happened before the command is sent, and before the first status is asked for.
  abbrev pub before_exec : List Event
  before_exec =
      let past1 = (read_conn, env past read_conn) ∷ past in
      (lookup_domain conn machine.domain_name, env past1 (lookup_domain conn machine.domain_name))
      ∷ past1

  abbrev pub before_polls : List Event
  before_polls = (exec, env before_exec exec) ∷ before_exec

  -- The connection is there, the domain is found, and the agent starts the command.
  pub record Started : Type 0 where
    pub connected : env past read_conn ≡ some conn
    pub domain_found :
        env ((read_conn, env past read_conn) ∷ past) (lookup_domain conn machine.domain_name)
        ≡ some domain
    pub answered : env before_exec exec ≡ some reply
    pub identified : pid_of json reply ≡ some pid

  get_domain-found :
      {B : Type 0} (k : Result Error ℕ → Prog B)
      → Started
      → ends env past (get_domain machine >>= k) ≡ ends env before_exec (k (ok domain))
  unfolding run get_domain get
  get_domain-found k s =
      ap
        (λ held. ends env ((read_conn, env past read_conn) ∷ past) (
          and_then (on_option (connect_and_register machine.uri) (λ c. ret (ok c)) held) (λ c. do
            found ← request (lookup_domain c machine.domain_name)
            ret (or_error (domain_missing machine.domain_name) found))
          >>= k))
        s.connected
      ∙ ap
          (λ found.
            ends env before_exec (ret (or_error (domain_missing machine.domain_name) found) >>= k))
          s.domain_found

  shell_exec-polls :
      (fuel : ℕ)
      → long_enough timeout ≡ true
      → Started
      → ends env past (shell_exec json fuel machine (exe ∷ args) timeout)
        ≡ ends env before_polls (poll_loop json fuel domain pid)
  unfolding run shell_exec
  shell_exec-polls fuel enough s =
      ap
        (λ b. ends env past (
          on_ok (λ _. and_then (get_domain machine) λ d. executed json fuel d (exe ∷ args) timeout)
            (check timeout_too_short b)))
        enough
      ∙ get_domain-found (on_ok (λ d. executed json fuel d (exe ∷ args) timeout)) s
      ∙ ap (λ r. ends env before_polls (exec_answered json fuel domain r)) s.answered
      ∙ ap
          (λ o.
            ends env before_polls (on_option (ret (err exception)) (poll_loop json fuel domain) o))
          s.identified

  -- The time-out of `shell_exec` is only that of the request that starts the command: once the agent has
  -- started it, with whatever time-out of a second at least, and as long as it says that the
  -- command has not exited, `shell_exec` is still running whatever fuel it has.
  pub shell_exec_hangs :
      (fuel : ℕ)
      → long_enough timeout ≡ true
      → Started
      → ((i : ℕ) → Waits json env domain pid before_polls i)
      → ends env past (shell_exec json fuel machine (exe ∷ args) timeout) ≡ still_running
  shell_exec_hangs fuel enough s waits =
      shell_exec-polls fuel enough s
      ∙ (poll_loop_lem json env domain pid before_polls fuel).1.1 (λ i _. waits i)
