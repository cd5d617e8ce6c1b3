-- ===== src/Libvirt/Backend/Waiting.antt =====
-- Waiting for the guest agent of a machine.
use gar_virt.Prelude.{
  leb, ◌==◌, if◌then◌else◌, Bytes, ok, err, Result, ℕ, zero, suc, ◌+◌, ◌*◌, ◌≤◌, ◌<◌, ◌≡◌, refl,
  Bool, true, false, List, [], ◌∷◌, ◌++◌, arith,
}
use gar_virt.Programs.{ret, returned, ◌>>=◌, request, run}
use gar_virt.Libvirt.{
  decayed, shutting_down, agent_timeout, Error, sleep_for, now, is_signalled, read_quit, read_ready,
  Request, Prog, Event, Environment,
}
use gar_virt.Libvirt.Connection.{MachineImpl}
use gar_virt.Libvirt.Backend.{
  ready_unless, is_ready, unless_late, unless_ready, unless_signalled, wait_loop,
  wait_for_guest_agent,
}

-- A request that is a pause of 200 ms, and the number of these in a sequence of events.
abbrev pub pause_of : Request → ℕ
pause_of (sleep_for t) = if t == 200 then 1 else 0
pause_of q = 0

abbrev pub pauses : List Event → ℕ
pauses [] = 0
pauses ((q, r) ∷ events) = pause_of q + pauses events

-- The clock does not go back, and passes 200 ms in each pause.
abbrev pub Ticking : Environment → Type 0
Ticking env =
    (past : List Event) (e : Event) → env past now + 200 * pause_of e.0 ≤ env (e ∷ past) now

-- The result of a wait is explained by its last events.
pub data Because (deadline : ℕ) (name : Bytes) : List Event → Result Error (Unit {0}) → Type 0 where
  was_ready : Because deadline name ((read_quit name, false) ∷ (read_ready name, true) ∷ []) (ok tt)
  was_signalled : Because deadline name ((is_signalled, true) ∷ []) (err shutting_down)
  has_decayed : Because deadline name ((read_quit name, true) ∷ []) (err (decayed name))
  was_late :
      (time : ℕ)
      → deadline ≤ time
      → Because deadline name
          ((read_ready name, false) ∷ (now, time) ∷ [])
          (err (agent_timeout name))
  earlier :
      (e : Event) (events : List Event) (r : Result Error (Unit {0}))
      → Because deadline name events r
      → Because deadline name (e ∷ events) r

module _ (env : Environment) (start timeout : ℕ) (machine : MachineImpl) where
  abbrev deadline : ℕ
  deadline = start + 1000 * timeout

  -- A run behind `k` pauses and the events `pre` returns, the last events explain the result, and there are
  -- not many pauses.
  abbrev Returns : List Event → List Event → ℕ → Prog (Result Error (Unit {0})) → Type 0
  Returns pre past k m =
      (r : Result Error (Unit {0})) × ((run env past m).1 ≡ returned r)
      × Because deadline machine.domain_name (pre ++ (run env past m).0) r
      × (start + 200 * (k + pauses (run env past m).0) < deadline + 200)

  -- The rounds before and behind the one that `again` stands for.
  module _ (again : Prog (Result Error (Unit {0}))) (k : ℕ)
      (before_late : start + 200 * k < deadline + 200)
      (next_round : (past : List Event)
        → start + 200 * suc k ≤ env past now
        → start + 200 * suc k < deadline + 200
        → Returns [] past (suc k) again)
      (ticking : Ticking env) where
    late-Returns :
        (past : List Event) (time : ℕ)
        → start + 200 * k ≤ time
        → time ≡ env past now
        → Returns
            ((read_ready machine.domain_name, false) ∷ (now, time) ∷ [])
            ((now, time) ∷ past)
            k
            (unless_late deadline machine.domain_name again time)
    unfolding run
    late-Returns past time passed same = go (leb deadline time) refl
      where
        pre : List Event
        pre = (read_ready machine.domain_name, false) ∷ (now, time) ∷ []

        pausing : Event
        pausing = (sleep_for 200, env ((now, time) ∷ past) (sleep_for 200))

        go :
            (late : Bool)
            → leb deadline time ≡ late
            → Returns pre ((now, time) ∷ past) k (
                if late
                then ret (err (agent_timeout machine.domain_name))
                else (request (sleep_for 200) >>= λ _. again))
        go true h = (
          err (agent_timeout machine.domain_name),
          refl,
          was_late time (ground arith),
          omega arith,
        )
        go false h =
            let in_time : time < deadline = ground arith in
            let tick = ticking past (now, time) in
            let tock = ticking ((now, time) ∷ past) pausing in
            let (r, e, why, few) =
              next_round (pausing ∷ (now, time) ∷ past) (omega arith) (omega arith) in
            (r, e, earlier _ _ _ (earlier _ _ _ (earlier _ _ _ why)), omega arith)

    ready-Returns :
        (past : List Event) (ready : Bool)
        → start + 200 * k ≤ env past now
        → Returns
            ((read_quit machine.domain_name, false) ∷ (read_ready machine.domain_name, ready) ∷ [])
            ((read_ready machine.domain_name, ready) ∷ past)
            k
            (unless_ready deadline machine.domain_name again (ok ready))
    unfolding run
    ready-Returns past true passed = (ok tt, refl, was_ready, omega arith)
    ready-Returns past false passed =
        let h = (read_ready machine.domain_name, false) ∷ past in
        let tick = ticking past (read_ready machine.domain_name, false) in
        let (r, e, why, few) = late-Returns h (env h now) (omega arith) refl in
        (r, e, earlier _ _ _ why, omega arith)

    quit-Returns :
        (past : List Event) (quit : Bool)
        → start + 200 * k ≤ env past now
        → Returns
            ((read_quit machine.domain_name, quit) ∷ [])
            ((read_quit machine.domain_name, quit) ∷ past)
            k
            (ready_unless machine.domain_name quit
              >>= unless_ready deadline machine.domain_name again)
    unfolding run
    quit-Returns past true passed =
        (err (decayed machine.domain_name), refl, has_decayed, omega arith)
    quit-Returns past false passed =
        let h = (read_quit machine.domain_name, false) ∷ past in
        let tick = ticking past (read_quit machine.domain_name, false) in
        let (r, e, why, few) =
          ready-Returns h (env h (read_ready machine.domain_name)) (omega arith) in
        (r, e, why, omega arith)

    round-Returns :
        (past : List Event) (signalled : Bool)
        → start + 200 * k ≤ env past now
        → Returns
            ((is_signalled, signalled) ∷ [])
            ((is_signalled, signalled) ∷ past)
            k
            (unless_signalled deadline machine again signalled)
    unfolding run is_ready
    round-Returns past true passed = (err shutting_down, refl, was_signalled, omega arith)
    round-Returns past false passed =
        let h = (is_signalled, false) ∷ past in
        let tick = ticking past (is_signalled, false) in
        let (r, e, why, few) =
          quit-Returns h (env h (read_quit machine.domain_name)) (omega arith) in
        (r, e, earlier _ _ _ why, omega arith)

  wait_loop-Returns :
      (fuel : ℕ) (past : List Event) (k : ℕ)
      → Ticking env
      → deadline + 200 ≤ start + 200 * (k + fuel)
      → start + 200 * k ≤ env past now
      → start + 200 * k < deadline + 200
      → Returns [] past k (wait_loop fuel deadline machine)
  unfolding run wait_loop
  wait_loop-Returns zero past k ticking enough passed few = absurd (omega arith)
  wait_loop-Returns (suc fuel) past k ticking enough passed few =
      let (r, e, why, few') =
        round-Returns (wait_loop fuel deadline machine) k few
          (λ past' passed' few'.
            wait_loop-Returns fuel past' (suc k) ticking (omega arith) passed' few')
          ticking past (env past is_signalled) passed in
      (r, e, why, omega arith)

-- `wait_for_guest_agent` keeps its time-out: with a clock that does not go back and passes 200 ms in each
-- pause, more rounds of fuel than the time-out has fifths of a second give a result, behind as many
-- pauses as that at most. The result is explained by the last events: a signal
-- to stop, a machine that has decayed, one that is ready, or one that is not ready when the
-- time-out is over.
pub wait_for_guest_agent_returns :
    (env : Environment) (past : List Event) (fuel : ℕ) (machine : MachineImpl) (timeout : ℕ)
    → Ticking env
    → 5 * timeout < fuel
    → (r : Result Error (Unit {0})) × ((run env past (wait_for_guest_agent fuel machine timeout)).1
        ≡ returned r)
      × Because
          (env past now + 1000 * timeout)
          machine.domain_name
          (run env past (wait_for_guest_agent fuel machine timeout)).0
          r
      × (pauses (run env past (wait_for_guest_agent fuel machine timeout)).0 ≤ 5 * timeout)
unfolding run wait_for_guest_agent
wait_for_guest_agent_returns env past fuel machine timeout ticking enough =
    let tick = ticking past (now, env past now) in
    let (r, e, why, few) =
      wait_loop-Returns env (env past now) timeout machine fuel ((now, env past now) ∷ past) 0
        ticking (omega arith) (omega arith) (omega arith) in
    (r, e, earlier _ _ _ why, omega arith)
