-- ===== src/Libvirt/Guest/Polling.antt =====
-- Waiting for a command in a guest.
use gar_virt.Prelude.{
  Bytes, codes, err, Result, ℕ, zero, suc, ◌+◌, ◌-◌, ◌<◌, ◌≡◌, refl, sym, ap, subst, ◌∙◌, ◌↔◌, ◌⊎◌,
  inl, inr, Bool, true, false, Option, none, some, List, ◌∷◌, arith,
}
use Prim.Native.Nat.add
use gar_virt.Numeric.{ℤ}
use gar_virt.Programs.{ret, returned, still_running, on_option, run, ends}
use gar_virt.Libvirt.{
  status_failed, exception, Error, default_time, agent_command, sleep_for, Request, Prog, Event,
  Environment,
}
use gar_virt.Libvirt.Json.{JsonObject, JsonLibrary, at_key, as_bool, ◌&>◌}
use gar_virt.Libvirt.Guest.{
  status_request, SpawnResult, exit_result, status_of, ended, polled, poll_loop,
}

below_suc : (i n : ℕ) → i < suc n → (i < n) ⊎ (i ≡ n)
below_suc i n lt = omega arith

returned_injective : {A : Type 0} {a b : A} → returned a ≡ returned b → a ≡ b
returned_injective e = cc e

-- A status of the agent that says whether the command has exited.
abbrev pub Says : JsonLibrary → Bool → Option Bytes → JsonObject → Type 0
Says json b r status =
    (reply : Bytes) × (r ≡ some reply)
    × (status_of json reply ≡ some status)
    × ((at_key (codes "exited") status &> as_bool) ≡ some b)

module _ (json : JsonLibrary) (env : Environment) (domain : ℕ) (pid : ℤ) where
  abbrev pub poll : Request
  poll = agent_command domain (json.serialize (status_request pid)) default_time

  -- What has happened after `i` rounds that end with a pause.
  abbrev pub history : List Event → ℕ → List Event
  history past zero = past
  history past (suc i) =
      let h = history past i in
      let h' = (poll, env h poll) ∷ h in (sleep_for 250, env h' (sleep_for 250)) ∷ h'

  -- In round `i` the command has not exited, or it has.
  abbrev pub Waits : List Event → ℕ → Type 0
  Waits past i = (status : JsonObject) × Says json false (env (history past i) poll) status

  -- The answer of a round behind which the loop has ended, and what the loop returns then.
  pub data EndsWith : Option Bytes → Result Error SpawnResult → Type 0 where
    no_answer : EndsWith none (err status_failed)
    unreadable :
        (reply : Bytes) → status_of json reply ≡ none → EndsWith (some reply) (err exception)
    says_nothing :
        (reply : Bytes) (status : JsonObject)
        → status_of json reply ≡ some status
        → (at_key (codes "exited") status &> as_bool) ≡ none
        → EndsWith (some reply) (err exception)
    has_exited :
        (reply : Bytes) (status : JsonObject)
        → status_of json reply ≡ some status
        → (at_key (codes "exited") status &> as_bool) ≡ some true
        → EndsWith (some reply) (exit_result status)

  polled-reply :
      (again : Prog (Result Error SpawnResult)) (reply : Bytes) (o : Option JsonObject)
      → status_of json reply ≡ o
      → polled json again (some reply)
        ≡ on_option
            (ret (err exception))
            (λ status. ended json again status (at_key (codes "exited") status &> as_bool))
            o
  polled-reply again reply o e =
      ap
        (on_option (ret (err exception))
          (λ status. ended json again status (at_key (codes "exited") status &> as_bool)))
        e

  polled-EndsWith :
      (again : Prog (Result Error SpawnResult)) (r : Option Bytes)
      (result : Result Error SpawnResult)
      → EndsWith r result
      → polled json again r ≡ ret result
  polled-EndsWith again r result no_answer = refl
  polled-EndsWith again r result (unreadable reply e) = polled-reply again reply none e
  polled-EndsWith again r result (says_nothing reply status e says) =
      polled-reply again reply (some status) e ∙ ap (ended json again status) says
  polled-EndsWith again r result (has_exited reply status e says) =
      polled-reply again reply (some status) e ∙ ap (ended json again status) says

  round-Waits :
      (past : List Event) (fuel : ℕ)
      → Waits past 0
      → ends env past (poll_loop json (suc fuel) domain pid)
        ≡ ends env (history past 1) (poll_loop json fuel domain pid)
  unfolding run poll_loop
  round-Waits past fuel (status, (reply, answered, parsed, says)) =
      let again = poll_loop json fuel domain pid in
      ap (λ r. ends env ((poll, env past poll) ∷ past) (polled json again r)) answered
      ∙ ap (ends env ((poll, env past poll) ∷ past))
          (polled-reply again reply (some status) parsed ∙ ap (ended json again status) says)

  round-EndsWith :
      (past : List Event) (fuel : ℕ) (result : Result Error SpawnResult)
      → EndsWith (env past poll) result
      → ends env past (poll_loop json (suc fuel) domain pid) ≡ returned result
  unfolding run poll_loop
  round-EndsWith past fuel result over =
      ap (ends env ((poll, env past poll) ∷ past))
        (polled-EndsWith (poll_loop json fuel domain pid) (env past poll) result over)

  history-shift : (past : List Event) (i : ℕ) → history (history past 1) i ≡ history past (suc i)
  history-shift past zero = refl
  history-shift past (suc i) = rw (history-shift past i) refl

  poll_loop-Waits :
      (k fuel : ℕ) (past : List Event)
      → ((i : ℕ) → i < k → Waits past i)
      → ends env past (poll_loop json (k + fuel) domain pid)
        ≡ ends env (history past k) (poll_loop json fuel domain pid)
  poll_loop-Waits zero fuel past waits = rw (add.zero fuel) refl
  poll_loop-Waits (suc k) fuel past waits = rw (add.suc k fuel) (
      round-Waits past (k + fuel) (waits 0 (omega arith))
      ∙ poll_loop-Waits k fuel (history past 1)
          (λ i lt. rw (history-shift past i) (waits (suc i) (omega arith)))
      ∙ ap (λ h. ends env h (poll_loop json fuel domain pid)) (history-shift past k))

  -- What ends the loop in round `k`, with the result.
  abbrev pub StopsAt : List Event → Result Error SpawnResult → ℕ → Type 0
  StopsAt past result k =
      ((i : ℕ) → i < k → Waits past i) × EndsWith (env (history past k) poll) result

  stops :
      (past : List Event) (fuel k : ℕ) (result : Result Error SpawnResult)
      → k < fuel
      → StopsAt past result k
      → ends env past (poll_loop json fuel domain pid) ≡ returned result
  stops past fuel k result enough (waits, over) =
      let split : fuel ≡ k + suc (fuel - suc k) = omega arith in
      ap (λ f. ends env past (poll_loop json f domain pid)) split
      ∙ poll_loop-Waits k (suc (fuel - suc k)) past waits
      ∙ round-EndsWith (history past k) (fuel - suc k) result over

  goes_on :
      (past : List Event) (fuel : ℕ)
      → ((i : ℕ) → i < fuel → Waits past i)
      → ends env past (poll_loop json fuel domain pid) ≡ still_running
  goes_on past fuel waits =
      let all : fuel ≡ fuel + 0 = omega arith in
      ap (λ f. ends env past (poll_loop json f domain pid)) all
      ∙ poll_loop-Waits fuel 0 past waits
      ∙ (unfold run poll_loop in refl)

  -- Each answer makes the loop wait or ends it.
  classify :
      (r : Option Bytes)
      → ((status : JsonObject) × Says json false r status)
        ⊎ ((result : Result Error SpawnResult) × EndsWith r result)
  classify none = inr (err status_failed, no_answer)
  classify (some reply) = by_status (status_of json reply) refl
    where
      by_flag :
          (status : JsonObject)
          → status_of json reply ≡ some status
          → (b : Option Bool) → (at_key (codes "exited") status &> as_bool) ≡ b
          → ((status : JsonObject) × Says json false (some reply) status)
            ⊎ ((result : Result Error SpawnResult) × EndsWith (some reply) result)
      by_flag status e none says = inr (err exception, says_nothing reply status e says)
      by_flag status e (some false) says = inl (status, (reply, refl, e, says))
      by_flag status e (some true) says = inr (exit_result status, has_exited reply status e says)

      by_status :
          (o : Option JsonObject)
          → status_of json reply ≡ o
          → ((status : JsonObject) × Says json false (some reply) status)
            ⊎ ((result : Result Error SpawnResult) × EndsWith (some reply) result)
      by_status none e = inr (err exception, unreadable reply e)
      by_status (some status) e = by_flag status e (at_key (codes "exited") status &> as_bool) refl

  outcome :
      (past : List Event) (fuel : ℕ)
      → ((result : Result Error SpawnResult) × (k : ℕ) × (k < fuel) × StopsAt past result k)
        ⊎ ((i : ℕ) → i < fuel → Waits past i)
  outcome past zero = inr (λ i lt. absurd (omega arith))
  outcome past (suc fuel) = elim (outcome past fuel) [
    | inl (result, k, lt, stopped) ↦ inl (result, k, omega arith, stopped)
    | inr waits ↦ elim (classify (env (history past fuel) poll)) [
      | inr (result, over) ↦ inl (result, fuel, omega arith, (waits, over))
      | inl waits_now ↦ inr (λ i lt. elim (below_suc i fuel lt) [
        | inl lt' ↦ waits i lt'
        | inr e ↦ subst (Waits past) (sym e) waits_now
      ])
    ]
  ]

  -- How the loop of `shell_exec` ends, with whatever fuel. It returns a result exactly if one of the rounds
  -- that the fuel allows is the first in which the agent does not say that the command has not
  -- exited, and the result is that of this round: an error if there is no answer, an exception if
  -- the answer has no status or the status no flag, else the result in the status, which says that
  -- the command has exited. It is still running exactly if in all these rounds the agent says that
  -- the command has not exited.
  pub poll_loop_lem :
      (past : List Event) (fuel : ℕ)
      → ((result : Result Error SpawnResult)
          → (ends env past (poll_loop json fuel domain pid) ≡ returned result)
            ↔ ((k : ℕ) × (k < fuel) × StopsAt past result k))
        × ((ends env past (poll_loop json fuel domain pid) ≡ still_running)
            ↔ ((i : ℕ) → i < fuel → Waits past i))
  poll_loop_lem past fuel = (
    (λ result. (
      λ e. elim (outcome past fuel) [
        | inl (other, k, lt, stopped) ↦
            let same : other ≡ result =
              returned_injective (sym (stops past fuel k other lt stopped) ∙ e) in
            (k, lt, subst (λ r. StopsAt past r k) same stopped)
        | inr waits ↦ absurd (cc (e, goes_on past fuel waits))
      ],
      λ (k, lt, stopped). stops past fuel k result lt stopped,
    )),
    (
      (λ e. elim (outcome past fuel) [
        | inl (other, k, lt, stopped) ↦ absurd (cc (e, stops past fuel k other lt stopped))
        | inr waits ↦ waits
      ]),
      goes_on past fuel,
    ),
  )
