-- ===== src/Libvirt/Hypervisor/Owning.antt =====
-- The object of a machine in the map of `HypervisorImpl`.
use gar_virt.Prelude.{
  ◌==◌, if◌then◌else◌, Bytes, ℕ, suc, ◌<◌, ◌≡◌, refl, sym, ap, ◌∙◌, ◌≢◌, Bool, true, false, Option,
  none, some, List, [], ◌∷◌, arith,
}
use gar_virt.Text.{same_bytes}
use gar_virt.Text.Equality.{same_bytes_refl, same_bytes_sound}
use gar_virt.Libvirt.Hypervisor.Events.{
  agent_connected, agent_disconnected, Flags, Tracker, find, erase, find_tracked_machine_by_name,
  emplaced, emplace, decay, is_harmless, lifecycle_event_handler, become_ready,
  agent_lifecycle_event_handler, spawned_machine, lifecycle_event, agent_event, Happening, handle,
  handle_all,
}
use gar_virt.Libvirt.Hypervisor.Lives.{booting, attentive, gone, Life, flags_of, die, is_alive}

-- The ids of the entries are those of objects.
abbrev pub Known : Tracker → Type 0
Known t = (n : Bytes) (i : ℕ) → find n t.machine_by_domain_name ≡ some i → i < t.next_id

-- An entry that is erased is not found, the others are.
abbrev unless : Bool → Option ℕ → Option ℕ
unless b found = if b then none else found

unless-found : (i : ℕ) (b : Bool) (o : Option ℕ) → unless b o ≡ some i → o ≡ some i
unless-found i true o e = absurd cc
unless-found i false o e = e

find-erase :
    (n m : Bytes) (entries : List (Bytes × ℕ))
    → find n (erase m entries) ≡ unless (same_bytes n m) (find n entries)
find-erase n m [] = go (same_bytes n m)
  where
    go : (b : Bool) → none ≡ unless b none
    go true = refl
    go false = refl
find-erase n m ((o, i) ∷ entries) =
    go (same_bytes m o) (same_bytes n o) (same_bytes n m) refl refl refl (find-erase n m entries)
  where
    go :
        (mo no nm : Bool)
        → same_bytes m o ≡ mo
        → same_bytes n o ≡ no
        → same_bytes n m ≡ nm
        → find n (erase m entries) ≡ unless nm (find n entries)
        → find n (if mo then erase m entries else (o, i) ∷ erase m entries)
          ≡ unless nm (if no then some i else find n entries)
    go true true true emo eno enm ih = ih
    go true true false emo eno enm ih =
        let mo = same_bytes_sound m o emo in
        let no = same_bytes_sound n o eno in let all = same_bytes_refl n in absurd cc
    go true false true emo eno enm ih = ih
    go true false false emo eno enm ih = ih
    go false true true emo eno enm ih = let nm = same_bytes_sound n m enm in absurd cc
    go false true false emo eno enm ih = rw eno refl
    go false false true emo eno enm ih = rw eno ih
    go false false false emo eno enm ih = rw eno ih

pub emplaced-Known :
    (t : Tracker) (other : Bytes) (o : Option ℕ) → Known t → Known (emplaced other t o)
emplaced-Known t other (some j) known = known
emplaced-Known t other none known = λ n i. go n i (same_bytes n other)
  where
    go :
        (n : Bytes) (i : ℕ) (b : Bool)
        → (if b then some t.next_id else find n t.machine_by_domain_name) ≡ some i
        → i < suc t.next_id
    go n i true e = let fresh : t.next_id ≡ i = cc in omega arith
    go n i false e = let k = known n i e in omega arith

pub decay-Known : (t : Tracker) (other : Bytes) (o : Option ℕ) → Known t → Known (decay other t o)
decay-Known t other none known = known
decay-Known t other (some j) known = λ n i e.
    known n i (
      unless-found i (same_bytes n other) _ (sym (find-erase n other t.machine_by_domain_name) ∙ e))

handle-Known : (t : Tracker) (h : Happening) → Known t → Known (handle h t)
unfolding emplace find_tracked_machine_by_name lifecycle_event_handler agent_lifecycle_event_handler
handle-Known t (spawned_machine other) known =
    emplaced-Known t other (find other t.machine_by_domain_name) known
handle-Known t (lifecycle_event none event) known = known
handle-Known t (lifecycle_event (some other) event) known = go (is_harmless event)
  where
    go : (b : Bool) → Known (if b then t else decay other t (find other t.machine_by_domain_name))
    go true = known
    go false = decay-Known t other (find other t.machine_by_domain_name) known
handle-Known t (agent_event none state) known = known
handle-Known t (agent_event (some other) agent_disconnected) known = known
handle-Known t (agent_event (some other) agent_connected) known =
    go (find other t.machine_by_domain_name)
  where
    go : (o : Option ℕ) → Known (become_ready t o)
    go none = known
    go (some i) = known

pub handle_all-Known : (past : List Happening) (t : Tracker) → Known t → Known (handle_all past t)
unfolding handle_all
handle_all-Known [] t known = known
handle_all-Known (h ∷ past) t known = handle_all-Known past (handle h t) (handle-Known t h known)

module _ (name : Bytes) (id : ℕ) where
  -- The machine of the name is the object `id`, and in the map while it is alive.
  pub record Inv (life : Life) (t : Tracker) : Type 0 where
    pub made : id < t.next_id
    pub known : Known t
    pub own :
        (n : Bytes)
        → find n t.machine_by_domain_name ≡ some id
        → (n ≡ name) × (is_alive life ≡ true)
    pub kept : is_alive life ≡ true → find name t.machine_by_domain_name ≡ some id
    pub flagged : t.flags id ≡ flags_of life

  pub emplaced-Inv :
      (life : Life) (t : Tracker) (other : Bytes) (o : Option ℕ)
      → find other t.machine_by_domain_name ≡ o
      → Inv life t
      → Inv life (emplaced other t o)
  emplaced-Inv life t other (some i) found h = h
  emplaced-Inv life t other none found h = record {
    made = let m = h.made in omega arith;
    known = emplaced-Known t other none h.known;
    own = λ n. own_in n (same_bytes n other);
    kept = λ alive. kept_in alive (same_bytes name other) refl;
    flagged =
        let differs : (id == t.next_id) ≡ false = (let m = h.made in ground arith) in
        rw differs h.flagged;
  }
    where
      entries : List (Bytes × ℕ)
      entries = t.machine_by_domain_name

      own_in :
          (n : Bytes) (b : Bool)
          → (if b then some t.next_id else find n entries) ≡ some id
          → (n ≡ name) × (is_alive life ≡ true)
      own_in n true e = let same_id : t.next_id ≡ id = cc in let m = h.made in absurd (omega arith)
      own_in n false e = h.own n e

      kept_in :
          is_alive life ≡ true
          → (b : Bool) → same_bytes name other ≡ b
          → (if b then some t.next_id else find name entries) ≡ some id
      kept_in alive true e =
          let same_name = same_bytes_sound name other e in let k = h.kept alive in absurd cc
      kept_in alive false e = h.kept alive

  -- An end of the machine itself, and one of another.
  pub decay-hits :
      (life : Life) (t : Tracker) → Inv life t → Inv (die life) (decay name t (some id))
  decay-hits life t h = record {
    made = h.made;
    known = decay-Known t name (some id) h.known;
    own = λ n e. absurd (own_in n (same_bytes n name) refl (sym (find-erase n name entries) ∙ e));
    kept = λ alive. absurd (dies life alive);
    flagged =
        let hit : (id == id) ≡ true = ground arith in
        rw hit (flags_die life (t.flags id) h.flagged);
  }
    where
      entries : List (Bytes × ℕ)
      entries = t.machine_by_domain_name

      own_in :
          (n : Bytes) (b : Bool) → same_bytes n name ≡ b → unless b (find n entries) ≡ some id → ⊥
      own_in n true same_name e = cc
      own_in n false same_name e =
          let (mine, alive) = h.own n e in let all = same_bytes_refl name in cc

      dies : (life : Life) → is_alive (die life) ≡ true → ⊥
      dies booting e = cc
      dies attentive e = cc
      dies (gone b) e = cc

      flags_die :
          (life : Life) (f : Flags)
          → f ≡ flags_of life
          → record f { quit = true } ≡ flags_of (die life)
      flags_die booting f e = rw e refl
      flags_die attentive f e = rw e refl
      flags_die (gone b) f e = rw e refl

  pub decay-misses :
      (life : Life) (t : Tracker) (other : Bytes) (i : ℕ)
      → i ≢ id
      → (is_alive life ≡ true → same_bytes name other ≡ false)
      → Inv life t
      → Inv life (decay other t (some i))
  decay-misses life t other i differs others h = record {
    made = h.made;
    known = decay-Known t other (some i) h.known;
    own = λ n e.
        h.own n (unless-found id (same_bytes n other) _ (sym (find-erase n other entries) ∙ e));
    kept = λ alive.
        find-erase name other entries
        ∙ ap (λ b. unless b (find name entries)) (others alive)
        ∙ h.kept alive;
    flagged = let miss : (id == i) ≡ false = ground arith in rw miss h.flagged;
  }
    where
      entries : List (Bytes × ℕ)
      entries = t.machine_by_domain_name
