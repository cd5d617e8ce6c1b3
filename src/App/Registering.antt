-- ===== src/App/Registering.antt =====
-- How the registration of a runner and the fetch of its task keep to the protocol.
use gar_virt.Prelude.{
  if◌then◌else◌, Bytes, ok, err, Result, ℕ, zero, suc, ◌≡◌, refl, subst, ◌⊎◌, inl, inr, Bool, true,
  false, Option, none, some,
}
use gar_virt.Programs.{ret, request}
use gar_virt.Programs.Safety.{Safe, and_then-Safe, if-Safe, on_option-Safe}
use gar_virt.App.{
  failed_to_register, failed_to_declare, fetch_shutting_down, Error, Machine, is_signalled,
  get_registration_token, post_register, post_declare, post_fetch_task, Registered, FetchedTask,
}
use gar_virt.App.Runner.{
  RunnerOptions, Runner, TaskParcel, get_label_names, wrap_error, ping_internal, register_internal,
  declare_internal, connect, to_parcel, fetch_task_internal,
}
use gar_virt.App.Loop.{fetch_loop, fetched, fetch_task}
use gar_virt.App.Protocol.{
  holding, registered, fetched_one, assigned, unreported, stranded, Phase, look, pass, ask_token,
  try_ping, not_registered, register, declared, not_declared, no_task, got_task, accept, drop_task,
  Step,
}

-- Where a registration leaves the iteration, and where `connect` does.
abbrev AtRegister : Machine → Result Error Registered → Phase → Type 0
AtRegister m (ok r) p = p ≡ registered m r.id
AtRegister m (err e) p = p ≡ holding m

abbrev AtDeclare : Machine → ℕ → Result Error (Unit {0}) → Phase → Type 0
AtDeclare m r (ok u) p = p ≡ registered m r
AtDeclare m r (err e) p = p ≡ stranded m r

abbrev pub AtConnect : Machine → Result Error Runner → Phase → Type 0
AtConnect m (ok runner) p = p ≡ registered m runner.id
AtConnect m (err e) p = (p ≡ holding m) ⊎ ((r : ℕ) × (p ≡ stranded m r))

register-Safe :
    (options : RunnerOptions) (token : Bytes) (m : Machine)
    → Safe Step Unit (register_internal options token) (holding m) (AtRegister m)
register-Safe options token m = go
  where
    go :
        (r : Result Error Registered)
        → (p : Phase) × Step
            (holding m)
            (post_register options.name token options.version (get_label_names options.labels))
            r
            p
          × AtRegister m (wrap_error failed_to_register r) p
    go (ok r) = (registered m r.id, register m _ _ _ _ r, refl)
    go (err e) = (holding m, not_registered m _ _ _ _ e, refl)

declare-Safe :
    (options : RunnerOptions) (m : Machine) (r : ℕ)
    → Safe Step Unit (declare_internal options r) (registered m r) (AtDeclare m r)
declare-Safe options m r = go
  where
    go :
        (res : Result Error (Unit {0}))
        → (p : Phase) × Step
            (registered m r)
            (post_declare r options.version (get_label_names options.labels))
            res
            p
          × AtDeclare m r (wrap_error failed_to_declare res) p
    go (ok u) = (registered m r, declared m r _ _, refl)
    go (err e) = (stranded m r, not_declared m r _ _ e, refl)

pub connect-Safe :
    (options : RunnerOptions) (m : Machine)
    → Safe Step Unit (connect options) (holding m) (AtConnect m)
unfolding connect
connect-Safe options m =
    and_then-Safe Step Unit (λ _ p. p ≡ holding m) (AtConnect m) (request get_registration_token) _
      (holding m) (λ r. (holding m, ask_token m r, refl))
      (λ token p at. rw at (
        and_then-Safe Step Unit (λ _ p. p ≡ holding m) (AtConnect m) (ping_internal options) _
          (holding m) (λ r. (holding m, try_ping m options.name r, refl))
          (λ u p at. rw at (
            and_then-Safe Step Unit (AtRegister m) (AtConnect m) (register_internal options token) _
              (holding m) (register-Safe options token m)
              (λ r p at. rw at (
                and_then-Safe Step Unit (AtDeclare m r.id) (AtConnect m)
                  (declare_internal options r.id) _ (registered m r.id)
                  (declare-Safe options m r.id) (λ u p h. h) (λ e p h. inr (r.id, h))))
              (λ e p h. inl h)))
          (λ e p h. inl h)))
      (λ e p h. inl h)

-- Where a fetch leaves the iteration.
abbrev AtFetch : Machine → ℕ → Result Error (Option TaskParcel) → Phase → Type 0
AtFetch m r (ok (some task)) p = p ≡ fetched_one m r task.id
AtFetch m r (ok none) p = p ≡ registered m r
AtFetch m r (err e) p = p ≡ registered m r

fetch_task_internal-Safe :
    (m : Machine) (runner : Runner)
    → Safe Step Unit (fetch_task_internal runner) (registered m runner.id) (AtFetch m runner.id)
fetch_task_internal-Safe m runner = λ res. go res (to_parcel res) refl
  where
    go :
        (res : Result Error (Option FetchedTask)) (parcel : Result Error (Option TaskParcel))
        → to_parcel res ≡ parcel
        → (p : Phase) × Step (registered m runner.id) (post_fetch_task runner.id) res p
          × AtFetch m runner.id (to_parcel res) p
    go res (ok (some k)) e = (fetched_one m runner.id k.id, got_task m runner.id res k e, rw e refl)
    go res (ok none) e = (registered m runner.id, no_task m runner.id res (λ k h. cc), rw e refl)
    go res (err x) e = (registered m runner.id, no_task m runner.id res (λ k h. cc), rw e refl)

fetch_loop-Safe :
    (fuel : ℕ) (m : Machine) (runner : Runner)
    → Safe Step Unit (fetch_loop fuel runner) (registered m runner.id) (AtFetch m runner.id)
unfolding fetch_loop
fetch_loop-Safe zero m runner = tt
fetch_loop-Safe (suc fuel) m runner = λ signalled. (
  registered m runner.id,
  look _ signalled,
  if-Safe Step Unit (AtFetch m runner.id) signalled _ _ _ (λ _. refl)
      (λ _.
        and_then-Safe Step Unit (AtFetch m runner.id) (AtFetch m runner.id)
          (fetch_task_internal runner) _ _ (fetch_task_internal-Safe m runner)
          (λ res p at.
            on_option-Safe Step Unit (AtFetch m runner.id) res _ _ p
              (λ none_. rw (subst (λ o. AtFetch m runner.id (ok o) p) none_ at) (λ again. (
                registered m runner.id,
                look _ again,
                if-Safe Step Unit (AtFetch m runner.id) again _ _ _
                    (λ _. fetch_loop-Safe fuel m runner)
                    (λ _ t. (registered m runner.id, pass _ 1000, fetch_loop-Safe fuel m runner)),
              )))
              (λ k some_.
                let got = subst (λ o. AtFetch m runner.id (ok o) p) some_ at in
                rw got (λ seen. (fetched_one m runner.id k.id, look _ seen, refl))))
          (λ e p h. h)),
)

-- Where `fetch_task` does.
abbrev pub AtAssigned : Machine → ℕ → Result Error TaskParcel → Phase → Type 0
AtAssigned m r (ok k) p = p ≡ assigned m r k.id
AtAssigned m r (err e) p = (p ≡ registered m r) ⊎ ((k : ℕ) × (p ≡ unreported m r k))

pub fetch_task-Safe :
    (fuel : ℕ) (m : Machine) (runner : Runner)
    → Safe Step Unit (fetch_task fuel runner) (registered m runner.id) (AtAssigned m runner.id)
unfolding fetch_task
fetch_task-Safe fuel m runner =
    and_then-Safe Step Unit (AtFetch m runner.id) (AtAssigned m runner.id) (fetch_loop fuel runner)
      _ _ (fetch_loop-Safe fuel m runner) checked (λ e p h. inl h)
  where
    checked :
        (o : Option TaskParcel) (p : Phase)
        → AtFetch m runner.id (ok o) p
        → (signalled : Bool)
        → (p' : Phase) × Step p is_signalled signalled p'
          × Safe Step Unit
              (if signalled then ret (err fetch_shutting_down) else fetched o)
              p'
              (AtAssigned m runner.id)
    checked none p h true = (registered m runner.id, rw h (look _ true), inl refl)
    checked none p h false = (registered m runner.id, rw h (look _ false), tt)
    checked (some k) p h true =
        (unreported m runner.id k.id, rw h (drop_task m runner.id k.id), inr (k.id, refl))
    checked (some k) p h false = (assigned m runner.id k.id, rw h (accept m runner.id k.id), refl)
