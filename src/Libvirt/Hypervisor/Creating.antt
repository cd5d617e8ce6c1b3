-- ===== src/Libvirt/Hypervisor/Creating.antt =====
-- Which event handlers a hypervisor has.
use gar_virt.Prelude.{
  Bytes, ok, err, Result, ℕ, ◌≡◌, refl, sym, ap, subst, Option, none, some, List, [], ◌∷◌,
}
use gar_virt.Programs.{◌>>=◌, run}
use gar_virt.Programs.Safety.{Holds, Trail, Safe, Safe-run, Safe-bind, if-Safe}
use gar_virt.Libvirt.{
  lifecycle_events, agent_events, Error, register_events, deregister_events, Event, Environment,
}
use gar_virt.Libvirt.Connection.{get}
use gar_virt.Libvirt.Hypervisor.{
  deregister, unregister_event_handlers, register_second, register_first, register_on,
  register_event_handlers, finish_create, create,
}
use gar_virt.Libvirt.Hypervisor.Resources.{
  Resources, without_handler, effect, Effect, Conn, Kept, get-Kept,
}

-- With the handlers of one connection more.
abbrev pub with_handlers : ℕ → ℕ → ℕ → Resources → Resources
with_handlers conn first second s = record s {
  handlers =
      record { conn = conn; kind = agent_events; id = second }
      ∷ record { conn = conn; kind = lifecycle_events; id = first }
      ∷ s.handlers;
}

-- The same but for the handlers.
abbrev pub ButHandlers : Resources → Resources → Type 0
ButHandlers s s' = s' ≡ record s { handlers = s'.handlers }

abbrev pub Created : Resources → Result Error (List ℕ) → Resources → Type 0
Created s (ok ids) s' =
    (conn first second : ℕ) × (ids ≡ second ∷ first ∷ []) × (s' ≡ with_handlers conn first second s)
Created s (err e) s' = ButHandlers s s'

abbrev Registered : Resources → List ℕ × Result Error (Unit {0}) → Resources → Type 0
Registered s (ids, ok u) s' = Created s (ok ids) s'
Registered s (ids, err e) s' = ButHandlers s s'

module _ (uri : Bytes) (s : Resources) where
  deregister-Safe :
      (id : ℕ) (r : Result Error ℕ) (t : Resources)
      → ButHandlers s t
      → Safe Effect ⊥ (deregister id r) t (λ _ t'. ButHandlers s t')
  deregister-Safe id (err e) t same = same
  deregister-Safe id (ok conn) t same =
      λ r. (effect (deregister_events conn id) r t, refl, ap fewer same)
    where
      fewer : Resources → Resources
      fewer x = record x { handlers = without_handler conn id t.handlers }

  get-same :
      (r : Result Error ℕ) (t t' : Resources)
      → Kept Conn t r t'
      → ButHandlers s t
      → ButHandlers s t'
  get-same (ok conn) t t' at same = subst (ButHandlers s) (sym at) same
  get-same (err e) t t' (at, why) same = subst (ButHandlers s) (sym at) same

  unregister_event_handlers-Safe :
      (ids : List ℕ) (t : Resources)
      → ButHandlers s t
      → Safe Effect ⊥ (unregister_event_handlers uri ids) t (λ _ t'. ButHandlers s t')
  unfolding unregister_event_handlers
  unregister_event_handlers-Safe [] t same = same
  unregister_event_handlers-Safe (id ∷ ids) t same =
      Safe-bind Effect ⊥ (Kept Conn t) (λ _ t'. ButHandlers s t') (get uri) _ t (get-Kept uri t)
        (λ r t1 at.
          Safe-bind Effect ⊥ (λ _ t'. ButHandlers s t') (λ _ t'. ButHandlers s t') (deregister id r)
            _ t1 (deregister-Safe id r t1 (get-same r t t1 at same))
            (λ _ t2 same2. unregister_event_handlers-Safe ids t2 same2))

  register-Safe :
      (r : Result Error ℕ) (t : Resources)
      → Kept Conn s r t
      → Safe Effect ⊥ (register_on r) t (Registered s)
  register-Safe (err e) t (at, why) = rw at refl
  register-Safe (ok conn) t at = rw at go
    where
      go :
          (first : Option ℕ)
          → (s' : Resources) × Effect s (register_events conn lifecycle_events) first s'
            × Safe Effect ⊥ (register_first conn first) s' (Registered s)
      go none = (s, refl, refl)
      go (some first) = (
        record s {
          handlers = record { conn = conn; kind = lifecycle_events; id = first } ∷ s.handlers;
        },
        refl,
        second_,
      )
        where
          second_ :
              (second : Option ℕ)
              → (s' : Resources) × Effect
                  (record s {
                    handlers =
                        record { conn = conn; kind = lifecycle_events; id = first } ∷ s.handlers;
                  })
                  (register_events conn agent_events)
                  second
                  s'
                × Registered s (register_second conn first second) s'
          second_ none = (_, refl, refl)
          second_ (some second) =
              (with_handlers conn first second s, refl, (conn, first, second, refl, refl))

  finish-Safe :
      (r : List ℕ × Result Error (Unit {0})) (t : Resources)
      → Registered s r t
      → Safe Effect ⊥ (finish_create uri r) t (Created s)
  finish-Safe (ids, ok u) t at = at
  finish-Safe (ids, err e) t at =
      Safe-bind Effect ⊥ (λ _ t'. ButHandlers s t') (Created s) (unregister_event_handlers uri ids)
        _ t (unregister_event_handlers-Safe ids t at) (λ _ t' same. same)

  create-Safe : Safe Effect ⊥ (create uri) s (Created s)
  unfolding create register_event_handlers
  create-Safe = λ loop. (
    s,
    refl,
    if-Safe Effect ⊥ (Created s) loop (register_event_handlers uri >>= finish_create uri) _ s
        (λ _.
          Safe-bind Effect ⊥ (Registered s) (Created s) (register_event_handlers uri)
            (finish_create uri) s
            (Safe-bind Effect ⊥ (Kept Conn s) (Registered s) (get uri) register_on s
              (get-Kept uri s) register-Safe)
            finish-Safe)
        (λ _. refl),
  )

  -- Whatever libvirt answers, `create` returns. With success it has registered just two handlers of domain
  -- events, one of each kind and both with one connection, and their ids are those that it keeps; nothing
  -- else is made. An error leaves at most handlers.
  pub create_registers :
      (env : Environment) (past : List Event)
      → (s' : Resources) × Trail Effect s (run env past (create uri)).0 s'
        × Holds ⊥ (Created s) (run env past (create uri)).1 s'
  create_registers env past = Safe-run Effect ⊥ (Created s) env past (create uri) s create-Safe
