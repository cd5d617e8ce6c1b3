-- ===== src/App/Waiting.antt =====
-- Waiting for the network of a machine.
use gar_virt.Prelude.{
  ltb, ◌==◌, if◌then◌else◌, Bytes, ok, Result, ℕ, zero, suc, ◌+◌, ◌*◌, ◌≤◌, ◌<◌, ◌≡◌, refl, ap,
  subst, ◌∙◌, Bool, true, false, some, List, [], ◌∷◌, ◌++◌, append_assoc, arith,
}
use gar_virt.Programs.{still_running, run, ends}
use gar_virt.App.{
  Error, Machine, SpawnResult, is_signalled, now, sleep_for, shell_exec, Prog, Event, Environment,
}
use gar_virt.App.Task.{Library}
use gar_virt.App.Network.{
  after_ping, ping_loop, make_ping_command, wait_until_gitea_instance_available,
}

-- The clock does not go back behind a moment.
abbrev pub Steady : Environment → List Event → ℕ → Type 0
Steady env past start = (later : List Event) → start ≤ env (later ++ past) now

-- Nobody asks to stop, and each ping ends with another exit code than 0.
abbrev pub Unreachable : Environment → Type 0
Unreachable env =
    ((past : List Event) → env past is_signalled ≡ false)
    × ((past : List Event) (m : Machine) (cmd : List Bytes) (t : ℕ)
        → (s : SpawnResult) × (env past (shell_exec m cmd t) ≡ ok s) × ((s.exit_code == 0) ≡ false))

Steady-more :
    (env : Environment) (past : List Event) (start : ℕ) (e : Event)
    → Steady env past start
    → Steady env (e ∷ past) start
Steady-more env past start e steady later =
    subst (λ p. start ≤ env p now) (append_assoc later (e ∷ []) past) (steady (later ++ e ∷ []))

run-if :
    {A : Type 0} (env : Environment) (past : List Event) (b c : Bool) (m n : Prog A)
    → b ≡ c
    → ends env past (if b then m else n) ≡ ends env past (if c then m else n)
run-if env past b c m n e = ap (λ d. ends env past (if d then m else n)) e

after_ping-fails :
    (env : Environment) (past : List Event) (host : Bytes) (machine : Machine)
    (again : Bytes → Prog (Result Error (Unit {0}))) (answer : Result Error SpawnResult)
    (s : SpawnResult)
    → answer ≡ ok s
    → (s.exit_code == 0) ≡ false
    → ends env past (after_ping host machine again answer)
      ≡ ends env ((sleep_for 2000, env past (sleep_for 2000)) ∷ past) (again s.output)
unfolding run
after_ping-fails env past host machine again answer s answered other =
    ap (λ a. ends env past (after_ping host machine again a)) answered
    ∙ run-if env past (s.exit_code == 0) false _ _ other

ping_loop-hangs :
    (env : Environment) (fuel : ℕ) (past : List Event) (machine : Machine) (host : Bytes)
    (cmd : List Bytes) (timeout start : ℕ) (output : Bytes)
    → Steady env past start
    → Unreachable env
    → 0 < timeout
    → ends env past (ping_loop fuel machine host cmd timeout start output) ≡ still_running
unfolding run ping_loop
ping_loop-hangs env zero past machine host cmd timeout start output steady unreachable h = refl
ping_loop-hangs env (suc fuel) past machine host cmd timeout start output steady (quiet, fails) h =
    let in_time : ltb start (env past now + 1000 * timeout) ≡ true =
      let later = steady [] in ground arith in
    let past1 = (now, env past now) ∷ past in
    let past2 = (is_signalled, env past1 is_signalled) ∷ past1 in
    let q = shell_exec machine cmd (if ltb timeout 10 then timeout else 10) in
    let past3 = (q, env past2 q) ∷ past2 in
    let (s, answered, other) = fails past2 machine cmd (if ltb timeout 10 then timeout else 10) in
    run-if env past1 _ true _ _ in_time
    ∙ run-if env past2 _ false _ _ (quiet past1)
    ∙ after_ping-fails env past3 host machine (ping_loop fuel machine host cmd timeout start) _ s
        answered other
    ∙ ping_loop-hangs env fuel _ machine host cmd timeout start s.output
        (Steady-more env _ start _ (
          Steady-more env _ start _
            (Steady-more env _ start _ (Steady-more env past start _ steady))))
        (quiet, fails) h

-- `wait_until_gitea_instance_available` has no time-out: for an address that parses, a system with a ping
-- command and a positive `timeout`, with a clock that does not go back, while nobody asks to stop
-- and no ping gets through, the loop is still running whatever fuel it has.
pub waiting_hangs :
    (lib : Library) (env : Environment) (past : List Event) (fuel : ℕ) (machine : Machine)
    (url host : Bytes) (timeout : ℕ) (cmd : List Bytes)
    → Steady env past (env past now)
    → Unreachable env
    → 0 < timeout
    → lib.uri_host url ≡ some host
    → make_ping_command lib machine.os host ≡ ok cmd
    → ends env past (wait_until_gitea_instance_available lib fuel machine url timeout)
      ≡ still_running
unfolding run wait_until_gitea_instance_available
waiting_hangs lib env past fuel machine url host timeout cmd steady unreachable h parses
      has_command =
    rw parses (
      rw has_command (
        ping_loop-hangs env fuel _ machine host cmd timeout (env past now) []
          (Steady-more env past (env past now) _ steady) unreachable h))
