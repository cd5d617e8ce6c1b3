-- ===== src/Libvirt/Hypervisor/Tracking.antt =====
-- What the event handlers do to the machine of a name.
use gar_virt.Prelude.{
  ◌==◌, if◌then◌else◌, Bytes, ℕ, ◌≡◌, refl, sym, ap, subst, ◌∙◌, ◌≢◌, Bool, true, false, Option,
  none, some, List, [], ◌∷◌, arith,
}
use gar_virt.Text.{same_bytes}
use gar_virt.Text.Equality.{same_bytes_refl, same_bytes_sound}
use gar_virt.Libvirt.Hypervisor.Events.{
  agent_connected, agent_disconnected, Flags, Tracker, find, find_tracked_machine_by_name,
  no_machines, emplaced, emplace, notify_ready, decay, is_harmless, lifecycle_event_handler,
  become_ready, agent_lifecycle_event_handler, spawned_machine, lifecycle_event, agent_event,
  Happening, handle, handle_all, is_ready_by,
}
use gar_virt.Libvirt.Hypervisor.Lives.{
  booting, attentive, gone, Life, flags_of, die, wake, advance, advance_all, is_alive,
}
use gar_virt.Libvirt.Hypervisor.Owning.{
  Known, emplaced-Known, handle_all-Known, Inv, emplaced-Inv, decay-hits, decay-misses,
}

module _ (name : Bytes) (id : ℕ) where
  -- An event for a name that acts on what is found under it: what it does to the machine itself and to others
  -- is enough.
  event-Inv :
      (t : Tracker) (other : Bytes) (change : Life → Life) (act : Option ℕ → Tracker)
      → act none ≡ t
      → ((b : Bool) → change (gone b) ≡ gone b)
      → ((life : Life)
          → name ≡ other
          → is_alive life ≡ true
          → Inv name id life t
          → Inv name id (change life) (act (some id)))
      → ((life : Life) (i : ℕ)
          → i ≢ id
          → (is_alive life ≡ true → same_bytes name other ≡ false)
          → Inv name id life t
          → Inv name id life (act (some i)))
      → (life : Life) → Inv name id life t
      → Inv name id
          (if same_bytes name other then change life else life)
          (act (find other t.machine_by_domain_name))
  event-Inv t other change act nothing over hits misses life h =
      go (find other t.machine_by_domain_name) (same_bytes name other) refl refl life h
    where
      itself :
          (life : Life) (o : Option ℕ)
          → find other t.machine_by_domain_name ≡ o
          → same_bytes name other ≡ true
          → is_alive life ≡ true
          → Inv name id life t
          → Inv name id (change life) (act o)
      itself life o found mine alive h =
          let same_name = same_bytes_sound name other mine in
          let k = h.kept alive in
          let same_id : some id ≡ o = cc in
          subst (λ x. Inv name id (change life) (act x)) same_id (hits life same_name alive h)

      foreign :
          (life : Life) (i : ℕ)
          → find other t.machine_by_domain_name ≡ some i
          → (same_bytes name other ≡ true → is_alive life ≡ false)
          → Inv name id life t
          → i ≢ id
      foreign life i found dead h same_id =
          let (mine, alive) = h.own other (found ∙ ap some same_id) in
          let d = dead (ap (λ n. same_bytes name n) mine ∙ same_bytes_refl name) in cc

      go :
          (o : Option ℕ) (mine : Bool)
          → find other t.machine_by_domain_name ≡ o
          → same_bytes name other ≡ mine
          → (life : Life) → Inv name id life t
          → Inv name id (if mine then change life else life) (act o)
      go o true found mine booting h = itself booting o found mine refl h
      go o true found mine attentive h = itself attentive o found mine refl h
      go none true found mine (gone b) h =
          subst (Inv name id (change (gone b))) (sym nothing)
            (subst (λ l. Inv name id l t) (sym (over b)) h)
      go (some i) true found mine (gone b) h =
          subst (λ l. Inv name id l (act (some i))) (sym (over b))
            (misses (gone b) i (foreign (gone b) i found (λ _. refl) h) (λ e. absurd cc) h)
      go none false found mine life h = subst (Inv name id life) (sym nothing) h
      go (some i) false found mine life h =
          misses life i (foreign life i found (λ e. absurd cc) h) (λ _. mine) h

  reflag-Inv :
      (t : Tracker) (life life' : Life) (flags' : ℕ → Flags)
      → Inv name id life t
      → is_alive life ≡ is_alive life'
      → flags' id ≡ flags_of life'
      → Inv name id life' (record t { flags = flags' })
  reflag-Inv t life life' flags' h same_life flagged' = record {
    made = h.made;
    known = h.known;
    own = λ n e. let (mine, alive) = h.own n e in (mine, sym same_life ∙ alive);
    kept = λ alive. h.kept (same_life ∙ alive);
    flagged = flagged';
  }

  ready-Inv :
      (life : Life) (t : Tracker) (other : Bytes)
      → Inv name id life t
      → Inv name id
          (if same_bytes name other then wake life else life)
          (become_ready t (find other t.machine_by_domain_name))
  ready-Inv life t other h =
      event-Inv t other wake (become_ready t) refl (λ b. refl) hits misses life h
    where
      woken :
          (life : Life) (f : Flags)
          → is_alive life ≡ true
          → f ≡ flags_of life
          → record f { ready = true } ≡ flags_of (wake life)
      woken booting f alive e = rw e refl
      woken attentive f alive e = rw e refl
      woken (gone b) f alive e = absurd cc

      alive_too : (life : Life) → is_alive life ≡ is_alive (wake life)
      alive_too booting = refl
      alive_too attentive = refl
      alive_too (gone b) = refl

      hits :
          (life : Life)
          → name ≡ other
          → is_alive life ≡ true
          → Inv name id life t
          → Inv name id (wake life) (notify_ready id t)
      hits life same_name alive h = reflag-Inv t life (wake life) _ h (alive_too life) (
          let hit : (id == id) ≡ true = ground arith in
          rw hit (woken life (t.flags id) alive h.flagged))

      misses :
          (life : Life) (i : ℕ)
          → i ≢ id
          → (is_alive life ≡ true → same_bytes name other ≡ false)
          → Inv name id life t
          → Inv name id life (notify_ready i t)
      misses life i differs others h =
          reflag-Inv t life life _ h refl
            (let miss : (id == i) ≡ false = ground arith in rw miss h.flagged)

  decay-Inv :
      (life : Life) (t : Tracker) (other : Bytes)
      → Inv name id life t
      → Inv name id
          (if same_bytes name other then die life else life)
          (decay other t (find other t.machine_by_domain_name))
  decay-Inv life t other h =
      event-Inv t other die (decay other t) refl (λ b. refl)
        (λ life same_name alive h.
          subst (λ n. Inv name id (die life) (decay n t (some id))) same_name
            (decay-hits name id life t h))
        (λ life i differs others h. decay-misses name id life t other i differs others h) life h

  handle-Inv :
      (life : Life) (t : Tracker) (h : Happening)
      → Inv name id life t
      → Inv name id (advance name h life) (handle h t)
  unfolding emplace find_tracked_machine_by_name lifecycle_event_handler
      agent_lifecycle_event_handler
  handle-Inv life t (spawned_machine other) inv =
      emplaced-Inv name id life t other (find other t.machine_by_domain_name) refl inv
  handle-Inv life t (lifecycle_event none event) inv = inv
  handle-Inv life t (lifecycle_event (some other) event) inv = go (is_harmless event)
    where
      stays : (b : Bool) → Inv name id (if b then life else life) t
      stays true = inv
      stays false = inv

      go :
          (b : Bool)
          → Inv name id
              (if same_bytes name other then (if b then life else die life) else life)
              (if b then t else decay other t (find other t.machine_by_domain_name))
      go true = stays (same_bytes name other)
      go false = decay-Inv life t other inv
  handle-Inv life t (agent_event none state) inv = inv
  handle-Inv life t (agent_event (some other) agent_disconnected) inv = inv
  handle-Inv life t (agent_event (some other) agent_connected) inv = ready-Inv life t other inv

  handle_all-Inv :
      (life : Life) (t : Tracker) (later : List Happening)
      → Inv name id life t
      → Inv name id (advance_all name later life) (handle_all later t)
  unfolding handle_all
  handle_all-Inv life t [] inv = inv
  handle_all-Inv life t (h ∷ later) inv =
      handle_all-Inv (advance name h life) (handle h t) later (handle-Inv life t h inv)

  emplace-Inv :
      (t : Tracker)
      → Known t
      → find_tracked_machine_by_name name t ≡ none
      → id ≡ t.next_id
      → Inv name id booting (emplace name t)
  unfolding emplace find_tracked_machine_by_name
  emplace-Inv t known absent same_id =
      subst (λ o. Inv name id booting (emplaced name t o)) (sym absent)
        record {
          made = omega arith;
          known = emplaced-Known t name none known;
          own = λ n. own_in n (same_bytes n name) refl;
          kept = λ alive.
              ap (λ b. if b then some t.next_id else find name t.machine_by_domain_name)
                (same_bytes_refl name)
              ∙ ap some (sym same_id);
          flagged = let hit : (id == t.next_id) ≡ true = ground arith in rw hit refl;
        }
    where
      own_in :
          (n : Bytes) (b : Bool)
          → same_bytes n name ≡ b
          → (if b then some t.next_id else find n t.machine_by_domain_name) ≡ some id
          → (n ≡ name) × (is_alive booting ≡ true)
      own_in n true mine e = (same_bytes_sound n name mine, refl)
      own_in n false mine e = let k = known n id e in absurd (omega arith)

-- The handlers keep a machine's flags as its life says: for a machine that is made while its name is not
-- in the map, after any events and spawns before and behind that, the flags say that it is ready or
-- has decayed exactly as the events for its name since then do. An event but `started` or `resumed`
-- ends it; a connected agent makes it ready while it has not ended. It is under its name in the
-- map while it has not ended, and then under none.
pub machine_keeps_its_life :
    (past later : List Happening) (name : Bytes)
    → find_tracked_machine_by_name name (handle_all past no_machines) ≡ none
    → (is_ready_by name (
          (handle_all later (emplace name (handle_all past no_machines))).flags
            (handle_all past no_machines).next_id)
        ≡ is_ready_by name (flags_of (advance_all name later booting)))
      × (is_alive (advance_all name later booting) ≡ true
          → find_tracked_machine_by_name name
              (handle_all later (emplace name (handle_all past no_machines)))
            ≡ some (handle_all past no_machines).next_id)
      × (is_alive (advance_all name later booting) ≡ false
          → (other : Bytes)
          → find_tracked_machine_by_name other
              (handle_all later (emplace name (handle_all past no_machines)))
            ≢ some (handle_all past no_machines).next_id)
unfolding find_tracked_machine_by_name
machine_keeps_its_life past later name absent =
    let t = handle_all past no_machines in
    let known = handle_all-Known past no_machines (λ n i e. absurd cc) in
    let inv =
      handle_all-Inv name t.next_id booting (emplace name t) later
        (emplace-Inv name t.next_id t known absent refl) in
    (
      ap (is_ready_by name) inv.flagged,
      inv.kept,
      (λ dead other e. let (mine, alive) = inv.own other e in cc),
    )
