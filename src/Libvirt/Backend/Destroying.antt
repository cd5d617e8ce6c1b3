-- ===== src/Libvirt/Backend/Destroying.antt =====
-- What is left of a machine that is destroyed.
use gar_virt.Prelude.{
  ◌==◌, if◌then◌else◌, All, ok, Result, ℕ, ◌≡◌, refl, ap, ◌∙◌, Bool, true, false, some, List, [],
  ◌∷◌, arith,
}
use gar_virt.Programs.{ret, returned, Ending, ◌>>=◌, request, and_then, on_option, run}
use gar_virt.Libvirt.{
  volume_missing, domain_missing, kill_failed, Error, read_conn, lookup_volume, lookup_domain,
  delete_volume, destroy_domain, deregister_events, Request, Prog, Event, Environment, or_error,
  check,
}
use gar_virt.Libvirt.Connection.{
  connect_and_register, get, MachineImpl, get_volume, get_domain, kill, delete_found,
  destroy_machine,
}
use gar_virt.Libvirt.Hypervisor.{deregister, unregister_event_handlers}
use gar_virt.Libvirt.Hypervisor.Resources.{
  Resources, without, effect, with_vol, with_dom, with_tracked,
}
use gar_virt.Libvirt.Backend.{terminate, destroy_libvirt_machine}

-- The resources behind a sequence of events.
abbrev pub after : List Event → Resources → Resources
after [] s = s
after ((q, r) ∷ events) s = after events (effect q r s)

module _ (env : Environment) (machine : MachineImpl) (conn domain volume : ℕ) where
  -- The connection is there and stays, the machine's domain and volume are found, and libvirt removes them.
  pub record Works : Type 0 where
    pub connected : (past : List Event) → env past read_conn ≡ some conn
    pub domain_found :
        (past : List Event) → env past (lookup_domain conn machine.domain_name) ≡ some domain
    pub volume_found :
        (past : List Event) → env past (lookup_volume conn machine.volume_id) ≡ some volume
    pub killed : (past : List Event) → env past (destroy_domain domain) ≡ true
    pub deleted : (past : List Event) → env past (delete_volume volume) ≡ true

  -- The resources behind a run, and how it ends.
  abbrev pub outcome : {A : Type 0} → List Event → Resources → Prog A → Resources × Ending A
  outcome past s m = (after (run env past m).0 s, (run env past m).1)

  abbrev then_ : (q : Request) → List Event → List Event
  then_ q past = (q, env past q) ∷ past

  terminate-done :
      {B : Type 0} (past : List Event) (s : Resources) (k : Result Error (Unit {0}) → Prog B)
      → Works
      → (past' : List Event) × (outcome past s (terminate machine >>= k)
          ≡ outcome past' (record s { domains = without domain s.domains }) (k (ok tt)))
  unfolding run terminate kill get_domain get
  terminate-done past s k works =
      let p1 = then_ read_conn past in
      let p2 = then_ (lookup_domain conn machine.domain_name) p1 in
      let p3 = then_ (destroy_domain domain) p2 in
      let destroying : ℕ → Prog (Result Error (Unit {0})) = λ d.
        request (destroy_domain d) >>= λ fine. ret (check (kill_failed machine.domain_name) fine) in
      (
        p3,
        ap
              (λ held. outcome p1 s (
                and_then
                  (and_then (on_option (connect_and_register machine.uri) (λ c. ret (ok c)) held)
                    (λ c. request (lookup_domain c machine.domain_name) >>= λ found.
                      ret (or_error (domain_missing machine.domain_name) found)))
                  destroying
                >>= k))
              (works.connected past)
            ∙ ap
                (λ found. outcome p2 s (
                  and_then (ret (or_error (domain_missing machine.domain_name) found)) destroying
                  >>= k))
                (works.domain_found p1)
            ∙ ap
                (λ fine.
                  outcome p3 (effect (destroy_domain domain) fine s)
                    (k (check (kill_failed machine.domain_name) fine)))
                (works.killed p2),
      )

  destroy-done :
      {B : Type 0} (past : List Event) (s : Resources) (k : Unit {0} → Prog B)
      → Works
      → (past' : List Event) × (outcome past s (destroy_machine machine >>= k)
          ≡ outcome past' (record s { volumes = without volume s.volumes }) (k tt))
  unfolding run destroy_machine get_volume get
  destroy-done past s k works =
      let p1 = then_ read_conn past in
      let p2 = then_ (lookup_volume conn machine.volume_id) p1 in
      let p3 = then_ (delete_volume volume) p2 in
      (
        p3,
        ap
              (λ held. outcome p1 s (
                and_then (on_option (connect_and_register machine.uri) (λ c. ret (ok c)) held) (λ c.
                  request (lookup_volume c machine.volume_id) >>= λ found.
                  ret (or_error (volume_missing machine.volume_id) found))
                >>= delete_found
                >>= k))
              (works.connected past)
            ∙ ap
                (λ found.
                  outcome p2 s (
                    ret (or_error (volume_missing machine.volume_id) found) >>= delete_found >>= k))
                (works.volume_found p1)
            ∙ ap (λ fine. outcome p3 (effect (delete_volume volume) fine s) (k tt))
                (works.deleted p2),
      )

  -- The same volumes and domains.
  abbrev Same : Resources → Resources → Type 0
  Same s s' = (s'.volumes ≡ s.volumes) × (s'.domains ≡ s.domains)

  deregister-done :
      {B : Type 0} (past : List Event) (s : Resources) (ids : List ℕ) (k : Unit {0} → Prog B)
      → Works
      → (past' : List Event) × (s' : Resources) × Same s s'
        × (outcome past s (unregister_event_handlers machine.uri ids >>= k)
            ≡ outcome past' s' (k tt))
  unfolding run unregister_event_handlers get
  deregister-done past s [] k works = (past, s, (refl, refl), refl)
  deregister-done past s (id ∷ ids) k works =
      let p1 = then_ read_conn past in
      let p2 = then_ (deregister_events conn id) p1 in
      let (past', s', same, e) =
        deregister-done p2
          (effect (deregister_events conn id) (env p1 (deregister_events conn id)) s) ids k works in
      (
        past',
        s',
        same,
        ap
              (λ held. outcome p1 s (
                on_option (connect_and_register machine.uri) (λ c. ret (ok c)) held
                >>= (λ c. deregister id c >>= λ _. unregister_event_handlers machine.uri ids)
                >>= k))
              (works.connected past)
            ∙ e,
      )

  destroy_libvirt_machine-done :
      (in_map : Bool) (ids : List ℕ) (past : List Event) (s : Resources)
      → Works
      → (s' : Resources) × (outcome past s (destroy_libvirt_machine in_map ids machine)
          ≡ (s', returned tt))
        × Same
            (record s { volumes = without volume s.volumes; domains = without domain s.domains })
            s'
  unfolding run destroy_libvirt_machine
  destroy_libvirt_machine-done true ids past s works =
      let (past1, e1) = terminate-done past s _ works in
      let (past2, s2, (same_volumes, same_domains), e2) =
        deregister-done past1 (record s { domains = without domain s.domains }) ids _ works in
      let (past3, e3) = destroy-done past2 s2 _ works in
      (
        record s2 { volumes = without volume s2.volumes },
        e1 ∙ e2 ∙ e3,
        (ap (without volume) same_volumes, same_domains),
      )
  destroy_libvirt_machine-done false ids past s works =
      let (past1, e1) = terminate-done past s _ works in
      let (past2, e2) =
        destroy-done past1 (record s { domains = without domain s.domains }) _ works in
      let (past3, s3, same, e3) =
        deregister-done past2
          (record s { volumes = without volume s.volumes; domains = without domain s.domains }) ids
          _ works in
      (s3, e1 ∙ e2 ∙ e3, same)

-- A handle that is not among others.
abbrev pub NotAmong : ℕ → List ℕ → Type 0
NotAmong h = All (λ h'. (h == h') ≡ false)

without-NotAmong : (h : ℕ) (handles : List ℕ) → NotAmong h handles → without h handles ≡ handles
without-NotAmong h [] other = refl
without-NotAmong h (h' ∷ handles) (differs, others) =
    ap (λ b. if b then without h handles else h' ∷ without h handles) differs
    ∙ ap (λ l. h' ∷ l) (without-NotAmong h handles others)

without-new : (h : ℕ) (handles : List ℕ) → NotAmong h handles → without h (h ∷ handles) ≡ handles
without-new h handles other =
    let same_handle : (h == h) ≡ true = ground arith in
    ap (λ b. if b then without h handles else h ∷ without h handles) same_handle
    ∙ without-NotAmong h handles other

-- Destroying a machine gives back what its spawn has made: behind a spawn that has made a domain and a
-- volume with new handles, and with a libvirt that still finds them and removes them, the destructor
-- returns, and the domains and the volumes are those from before the spawn, whether the machine is in the
-- map of its hypervisor still or has been erased by an event.
pub destroying_gives_back :
    (env : Environment) (machine : MachineImpl) (conn domain volume : ℕ) (in_map : Bool)
    (ids : List ℕ) (past : List Event) (s : Resources)
    → Works env machine conn domain volume
    → NotAmong domain s.domains
    → NotAmong volume s.volumes
    → (let spawned =
          with_tracked machine.domain_name machine.volume_id
            (with_dom domain (with_vol volume s)) in
        let destroyed = run env past (destroy_libvirt_machine in_map ids machine) in
        (destroyed.1 ≡ returned tt)
        × ((after destroyed.0 spawned).domains ≡ s.domains)
        × ((after destroyed.0 spawned).volumes ≡ s.volumes))
destroying_gives_back env machine conn domain volume in_map ids past s works new_domain new_volume =
    let spawned =
      with_tracked machine.domain_name machine.volume_id (with_dom domain (with_vol volume s)) in
    let (s', done, (same_volumes, same_domains)) =
      destroy_libvirt_machine-done env machine conn domain volume in_map ids past spawned works in
    (
      ap (λ o. o.1) done,
      ap (λ o. o.0.domains) done ∙ same_domains ∙ without-new domain s.domains new_domain,
      ap (λ o. o.0.volumes) done ∙ same_volumes ∙ without-new volume s.volumes new_volume,
    )
