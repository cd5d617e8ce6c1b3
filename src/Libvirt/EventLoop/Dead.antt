-- ===== src/Libvirt/EventLoop/Dead.antt =====
-- An event loop whose thread has ended early.
use gar_virt.Prelude.{
  ltb, All, ℕ, zero, suc, ◌+◌, ◌-◌, ◌<◌, ◌≡◌, refl, sym, ap, subst, ◌∙◌, true, false, Option, some,
  List, [], ◌∷◌, arith,
}
use gar_virt.Libvirt.EventLoop.{
  stopped, dispatching, finished, EventLoop, run_dispatched, run_end, owner_turn, loop_turn,
  loop_next, next,
}
use gar_virt.Libvirt.EventLoop.Sharing.{
  get, Sharing, gets, drops, turns, Event, step, IsPossible, IsHeld, at_begin, onward, WhileHeld,
}

-- A loop that some hypervisors share.
abbrev pub shared : EventLoop → ℕ → List (Option EventLoop) → Sharing
shared l holders handed = record {
  weak_instance = some record { loop = l; holders = holders };
  handed = handed;
}

-- The loop behind its last section.
abbrev pub ended : EventLoop → EventLoop
ended l = record l { state = stopped; thread = finished }

-- Whoever has called `get` since then has been given the loop that has ended.
record StaysDead (l : EventLoop) (v : Sharing) : Type 0 where
  holders : ℕ
  given : List (Option EventLoop)
  is_shared : v ≡ shared (ended l) holders given
  held : 0 < holders
  all_ended : All (λ r. r ≡ some (ended l)) given

get-held :
    (l : EventLoop) (holders : ℕ) (create_res : Option EventLoop)
    → 0 < holders
    → get create_res (some record { loop = l; holders = holders })
      ≡ (some record { loop = l; holders = holders + 1 }, some l)
unfolding get
get-held l holders create_res held =
    let some_left : ltb 0 holders ≡ true = ground arith in rw some_left refl

event-StaysDead :
    (l : EventLoop) (holders : ℕ) (given : List (Option EventLoop)) (e : Event)
    → 0 < holders
    → All (λ r. r ≡ some (ended l)) given
    → IsPossible e (shared (ended l) holders given).weak_instance
    → IsHeld (step (shared (ended l) holders given) e).weak_instance
    → StaysDead l (step (shared (ended l) holders given) e)
unfolding next loop_next
event-StaysDead l holders given (gets create_res) held all_ended possible still =
    rw (get-held (ended l) holders create_res held) (record {
      holders = holders + 1;
      given = some (ended l) ∷ given;
      is_shared = refl;
      held = omega arith;
      all_ended = (refl, all_ended);
    })
event-StaysDead l holders given drops held all_ended possible still = record {
  holders = holders - 1;
  given = given;
  is_shared = refl;
  held = still;
  all_ended = all_ended;
}
event-StaysDead l holders given (turns (owner_turn b)) held all_ended (nobody, possible) still =
    absurd (omega arith)
event-StaysDead l holders given (turns (loop_turn b)) held all_ended possible still =
    absurd (possible refl)

WhileHeld-StaysDead :
    (l : EventLoop) (holders : ℕ) {es : List Event} {v : Sharing}
    → WhileHeld (shared (ended l) holders []) es v
    → 0 < holders
    → StaysDead l v
WhileHeld-StaysDead l holders at_begin held = record {
  holders = holders;
  given = [];
  is_shared = refl;
  held = held;
  all_ended = tt;
}
WhileHeld-StaysDead l holders (onward {v = u} r e possible still) held =
    let d = WhileHeld-StaysDead l holders r held in
    go d.held d.all_ended u d.is_shared possible still
  where
    go :
        {n : ℕ} {given : List (Option EventLoop)}
        → 0 < n
        → All (λ r. r ≡ some (ended l)) given
        → (u : Sharing) → u ≡ shared (ended l) n given
        → IsPossible e u.weak_instance
        → IsHeld (step u e).weak_instance
        → StaysDead l (step u e)
    go {n = n} {given = given} held all_ended u same =
        subst
          (λ x.
            IsPossible e x.weak_instance → IsHeld (step x e).weak_instance → StaysDead l (step x e))
          (sym same) (event-StaysDead l n given e held all_ended)

-- The loop behind a call of `virEventRunDefaultImpl` that fails.
abbrev pub failed : EventLoop → ℕ → Sharing
failed l holders =
    step (step (shared l holders []) (turns (loop_turn false))) (turns (loop_turn true))

failed-shared :
    (l : EventLoop) (holders : ℕ)
    → l.thread ≡ dispatching
    → failed l holders ≡ shared (ended l) holders []
unfolding next loop_next run_dispatched run_end
failed-shared l holders at = rw at refl

-- As many holders as that end.
abbrev pub drop_all : ℕ → Sharing → Sharing
drop_all zero w = w
drop_all (suc n) w = drop_all n (step w drops)

drop_all-shared :
    (l : EventLoop) (n : ℕ) (handed : List (Option EventLoop))
    → drop_all n (shared l n handed) ≡ shared l 0 handed
drop_all-shared l zero handed = refl
drop_all-shared l (suc n) handed =
    let one_less : suc n - 1 ≡ n = omega arith in
    ap (λ k. drop_all n (shared l k handed)) one_less ∙ drop_all-shared l n handed

-- Let some hypervisors share a loop, and `virEventRunDefaultImpl` fail in it. Whatever happens as long as at
-- least one of them holds the loop: each call of `get` hands out this loop, with its thread at its
-- end, even if a new loop could be made, and the weak pointer keeps it. Once all its holders are
-- gone the next call gives the new loop, which the weak pointer then keeps.
pub dead_loop_stays :
    (l another : EventLoop) (holders : ℕ) {es : List Event} {v : Sharing}
    → l.thread ≡ dispatching
    → 0 < holders
    → WhileHeld (failed l holders) es v
    → All (λ r. r ≡ some (ended l)) v.handed
      × ((n : ℕ) × (0 < n)
          × (v.weak_instance ≡ some record { loop = ended l; holders = n })
          × (step (drop_all n v) (gets (some another))
              ≡ shared another 1 (some another ∷ v.handed)))
dead_loop_stays l another holders {es = es} {v = v} at held r =
    let d =
      WhileHeld-StaysDead l holders (subst (λ w. WhileHeld w es v) (failed-shared l holders at) r)
        held in
    go d.holders d.given v d.is_shared d.held d.all_ended
  where
    gone :
        (n : ℕ) (given : List (Option EventLoop))
        → step (drop_all n (shared (ended l) n given)) (gets (some another))
          ≡ shared another 1 (some another ∷ given)
    gone n given =
        ap (λ w. step w (gets (some another))) (drop_all-shared (ended l) n given)
        ∙ (unfold get in refl)

    go :
        (n : ℕ) (given : List (Option EventLoop)) (v : Sharing)
        → v ≡ shared (ended l) n given
        → 0 < n
        → All (λ r. r ≡ some (ended l)) given
        → All (λ r. r ≡ some (ended l)) v.handed
          × ((n : ℕ) × (0 < n)
              × (v.weak_instance ≡ some record { loop = ended l; holders = n })
              × (step (drop_all n v) (gets (some another))
                  ≡ shared another 1 (some another ∷ v.handed)))
    go n given v same held all_ended = rw same (all_ended, (n, held, refl, gone n given))
