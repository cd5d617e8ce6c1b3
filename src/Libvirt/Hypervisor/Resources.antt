-- ===== src/Libvirt/Hypervisor/Resources.antt =====
-- What the steps of a spawn make, and what the connection and a resumption leave as it is.
use gar_virt.Prelude.{
  ◌==◌, if◌then◌else◌, Bytes, ok, err, Result, ℕ, ◌≡◌, refl, ◌⊎◌, inl, inr, Bool, true, false,
  Option, none, some, List, [], ◌∷◌,
}
use gar_virt.Programs.{ret, ◌>>=◌, request, on_ok}
use gar_virt.Programs.Safety.{Safe, and_then-Safe, on_option-Safe}
use gar_virt.Libvirt.{
  storage_vol_exist, other_code, ErrorCode, Lifecycle, EventKind, connect_failed,
  close_callback_failed, domain_missing, pool_missing, volume_failed, resume_failed,
  lifecycle_failed, Error, lookup_domain, lookup_pool, create_volume_xml, delete_volume,
  create_domain, set_lifecycle, resume_domain, destroy_domain, register_events, deregister_events,
  track, Request, Answer, or_error, check,
}
use gar_virt.Libvirt.Connection.{
  keep_registered, connect_and_register, get, MachineImpl, get_domain, resume,
}
use gar_virt.Libvirt.Hypervisor.{create_again, retry_volume, create_volume, set_lifecycles}

-- A handler of domain events: its connection, its kind and its id.
pub record Handler : Type 0 where
  pub conn : ℕ
  pub kind : EventKind
  pub id : ℕ

-- The volumes and domains that were made and not removed, the machines in the map of the hypervisor, and the
-- handlers of domain events that are registered.
pub record Resources : Type 0 where
  pub volumes : List ℕ
  pub domains : List ℕ
  pub tracked : List (Bytes × Bytes)
  pub handlers : List Handler

abbrev pub without : ℕ → List ℕ → List ℕ
without h [] = []
without h (h' ∷ handles) = if h == h' then without h handles else h' ∷ without h handles

abbrev pub without_handler : ℕ → ℕ → List Handler → List Handler
without_handler conn id [] = []
without_handler conn id (h ∷ handlers) =
    let rest = without_handler conn id handlers in
    if conn == h.conn then (if id == h.id then rest else h ∷ rest) else h ∷ rest

-- What a request with its answer does to them.
abbrev pub effect : (q : Request) → Answer q → Resources → Resources
effect (create_volume_xml pool xml) (some volume) s = record s { volumes = volume ∷ s.volumes }
effect (delete_volume volume) true s = record s { volumes = without volume s.volumes }
effect (create_domain conn xml reset) (some domain) s = record s { domains = domain ∷ s.domains }
effect (destroy_domain domain) true s = record s { domains = without domain s.domains }
effect (track name key) r s = record s { tracked = (name, key) ∷ s.tracked }
effect (register_events conn kind) (some id) s = record s {
  handlers = record { conn = conn; kind = kind; id = id } ∷ s.handlers;
}
effect (deregister_events conn id) r s = record s { handlers = without_handler conn id s.handlers }
effect q r s = s

abbrev pub Effect : Resources → (q : Request) → Answer q → Resources → Type 0
Effect s q r s' = s' ≡ effect q r s

abbrev pub with_vol : ℕ → Resources → Resources
with_vol volume s = record s { volumes = volume ∷ s.volumes }

abbrev pub with_dom : ℕ → Resources → Resources
with_dom domain s = record s { domains = domain ∷ s.domains }

abbrev pub with_tracked : Bytes → Bytes → Resources → Resources
with_tracked name key s = record s { tracked = (name, key) ∷ s.tracked }

-- Everything that a spawn makes.
abbrev pub AllMade : Resources → Bytes → Bytes → Resources → Type 0
AllMade s name key s' =
    (volume domain : ℕ) × (s' ≡ with_tracked name key (with_dom domain (with_vol volume s)))

abbrev pub SomeAllMade : Resources → Resources → Type 0
SomeAllMade s s' = (name key : Bytes) × AllMade s name key s'

-- The errors of `get`.
abbrev pub Conn : Error → Type 0
Conn e = (e ≡ connect_failed) ⊎ (e ≡ close_callback_failed)

abbrev pub Kept : {A : Type 0} → (Error → Type 0) → Resources → Result Error A → Resources → Type 0
Kept E s (ok a) s' = s' ≡ s
Kept E s (err e) s' = (s' ≡ s) × E e

pub get-Kept : (uri : Bytes) (s : Resources) → Safe Effect ⊥ (get uri) s (Kept Conn s)
unfolding get
get-Kept uri s =
    λ held. (s, refl, on_option-Safe Effect ⊥ (Kept Conn s) held _ _ s (λ _. opening) (λ c _. refl))
  where
    hooking :
        (conn : ℕ) (r : Bool)
        → (s' : Resources) × (s' ≡ s) × Safe Effect ⊥ (keep_registered conn r) s' (Kept Conn s)
    hooking conn true = (s, refl, (λ _. (s, refl, refl)))
    hooking conn false = (s, refl, (λ _. (s, refl, (refl, inr refl))))

    opening : Safe Effect ⊥ (connect_and_register uri) s (Kept Conn s)
    opening none = (s, refl, (refl, inl refl))
    opening (some conn) = (s, refl, hooking conn)

-- Where the creation of a volume leads.
abbrev pub VolumeError : Bytes → Error → Type 0
VolumeError pool e = Conn e ⊎ (e ≡ pool_missing pool) ⊎ (e ≡ volume_failed)

abbrev pub AtVolume : Bytes → Resources → Result Error ℕ → Resources → Type 0
AtVolume pool s (ok volume) s' = s' ≡ with_vol volume s
AtVolume pool s (err e) s' = (s' ≡ s) × VolumeError pool e

pub create_volume-Safe :
    (uri xml pool : Bytes) (s : Resources)
    → Safe Effect ⊥ (create_volume uri xml pool) s (AtVolume pool s)
unfolding create_volume
create_volume-Safe uri xml pool s =
    and_then-Safe Effect ⊥ (Kept Conn s) (AtVolume pool s) (get uri) _ s (get-Kept uri s)
      (λ conn s' at. rw at (looked conn)) (λ e s' (at, conn). (at, inl conn))
  where
    again :
        (p : ℕ) (r : Option ℕ)
        → (s' : Resources) × Effect s (create_volume_xml p xml) r s'
          × AtVolume pool s (or_error volume_failed r) s'
    again p none = (s, refl, (refl, inr (inr refl)))
    again p (some volume) = (with_vol volume s, refl, refl)

    recoded :
        (p : ℕ) (code : Option ErrorCode)
        → Safe Effect ⊥
            (create_again p xml code >>= λ volume. ret (or_error volume_failed volume))
            s
            (AtVolume pool s)
    recoded p none = (refl, inr (inr refl))
    recoded p (some storage_vol_exist) = λ _. (s, refl, again p)
    recoded p (some other_code) = (refl, inr (inr refl))

    made :
        (p : ℕ) (r : Option ℕ)
        → (s' : Resources) × Effect s (create_volume_xml p xml) r s'
          × Safe Effect ⊥
              (retry_volume p xml r >>= λ volume. ret (or_error volume_failed volume))
              s'
              (AtVolume pool s)
    made p none = (s, refl, (λ code. (s, refl, recoded p code)))
    made p (some volume) = (with_vol volume s, refl, refl)

    looked :
        (conn : ℕ) (r : Option ℕ)
        → (s' : Resources) × Effect s (lookup_pool conn pool) r s'
          × Safe Effect ⊥
              (on_ok
                (λ p. (request (create_volume_xml p xml) >>= retry_volume p xml) >>= λ volume.
                  ret (or_error volume_failed volume))
                (or_error (pool_missing pool) r))
              s'
              (AtVolume pool s)
    looked conn none = (s, refl, (refl, inr (inl refl)))
    looked conn (some p) = (s, refl, made p)

abbrev pub Lifecycles : Bytes → Error → Type 0
Lifecycles name e = (lifecycle : Lifecycle) × (e ≡ lifecycle_failed lifecycle name)

pub set_lifecycles-Safe :
    (domain : ℕ) (name : Bytes) (ls : List Lifecycle) (s : Resources)
    → Safe Effect ⊥ (set_lifecycles domain name ls) s (Kept (Lifecycles name) s)
set_lifecycles-Safe domain name [] s = refl
set_lifecycles-Safe domain name (l ∷ ls) s = go (set_lifecycles-Safe domain name ls s)
  where
    go :
        Safe Effect ⊥ (set_lifecycles domain name ls) s (Kept (Lifecycles name) s)
        → (r : Bool)
        → (s' : Resources) × Effect s (set_lifecycle domain l) r s'
          × Safe Effect ⊥
              (on_ok (λ _. set_lifecycles domain name ls) (check (lifecycle_failed l name) r))
              s'
              (Kept (Lifecycles name) s)
    go more true = (s, refl, more)
    go more false = (s, refl, (refl, (l, refl)))

abbrev pub ResumeError : Bytes → Error → Type 0
ResumeError name e = Conn e ⊎ (e ≡ domain_missing name) ⊎ (e ≡ resume_failed name)

pub resume-Safe :
    (m : MachineImpl) (s : Resources)
    → Safe Effect ⊥ (resume m) s (Kept (ResumeError m.domain_name) s)
unfolding resume get_domain
resume-Safe m s =
    and_then-Safe Effect ⊥ (Kept (ResumeError m.domain_name) s) (Kept (ResumeError m.domain_name) s)
      (get_domain m) _ s
      (and_then-Safe Effect ⊥ (Kept Conn s) (Kept (ResumeError m.domain_name) s) (get m.uri) _ s
        (get-Kept m.uri s) (λ conn s' at. rw at (found conn)) (λ e s' (at, c). (at, inl c)))
      (λ domain s' at. rw at (resumed domain)) (λ e s' at. at)
  where
    found :
        (conn : ℕ) (r : Option ℕ)
        → (s' : Resources) × Effect s (lookup_domain conn m.domain_name) r s'
          × Kept (ResumeError m.domain_name) s (or_error (domain_missing m.domain_name) r) s'
    found conn none = (s, refl, (refl, inr (inl refl)))
    found conn (some domain) = (s, refl, refl)

    resumed :
        (domain : ℕ) (r : Bool)
        → (s' : Resources) × Effect s (resume_domain domain) r s'
          × Kept (ResumeError m.domain_name) s (check (resume_failed m.domain_name) r) s'
    resumed domain true = (s, refl, refl)
    resumed domain false = (s, refl, (refl, inr (inr refl)))
