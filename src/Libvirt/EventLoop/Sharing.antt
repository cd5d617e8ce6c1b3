-- ===== src/Libvirt/EventLoop/Sharing.antt =====
-- `EventLoopImpl::get` of modules/virt/src/libvirt/libvirt.cpp, with the weak pointer that it keeps and the
-- hypervisors that share the loop.
use gar_virt.Prelude.{
  ltb, if◌then◌else◌, ℕ, ◌+◌, ◌-◌, ◌<◌, ◌≡◌, ◌≢◌, Option, none, some, List, [], ◌∷◌,
}
use gar_virt.Libvirt.EventLoop.{EventLoop, owner_turn, loop_turn, Turn, next}

-- A loop with the number of shared pointers to it.
pub record Shared : Type 0 where
  pub loop : EventLoop
  pub holders : ℕ

-- `weak_ptr::lock`, which gives no pointer to what nobody holds any more.
abbrev pub lock : Option Shared → Option Shared
lock none = none
lock (some s) = if ltb 0 s.holders then some record s { holders = s.holders + 1 } else none

-- `get`, with the weak pointer before and behind it; `create_res` is the result of `create`.
abbrev pub get_new : Option EventLoop → Option Shared → Option Shared × Option EventLoop
get_new none weak_instance = (weak_instance, none)
get_new (some l) weak_instance = (some record { loop = l; holders = 1 }, some l)

abbrev pub get_locked :
    Option Shared → Option EventLoop → Option Shared → Option Shared × Option EventLoop
get_locked (some s) create_res weak_instance = (some s, some s.loop)
get_locked none create_res weak_instance = get_new create_res weak_instance

unfoldable pub get : Option EventLoop → Option Shared → Option Shared × Option EventLoop
get create_res weak_instance = get_locked (lock weak_instance) create_res weak_instance

-- `handed` are the results of the calls of `get`, latest first.
pub record Sharing : Type 0 where
  pub weak_instance : Option Shared
  pub handed : List (Option EventLoop)

-- A call of `get`, the end of a hypervisor that holds the loop, a turn of the loop.
pub data Event : Type 0 where
  gets : Option EventLoop → Event
  drops : Event
  turns : Turn → Event

abbrev pub turned : Shared → Option EventLoop → Shared
turned s none = s
turned s (some l) = record s { loop = l }

abbrev pub on_shared : (Shared → Shared) → Option Shared → Option Shared
on_shared f none = none
on_shared f (some s) = some (f s)

abbrev pub step : Sharing → Event → Sharing
step w (gets create_res) =
    let (weak_instance, result) = get create_res w.weak_instance in
    record { weak_instance = weak_instance; handed = result ∷ w.handed }
step w drops = record w {
  weak_instance = on_shared (λ s. record s { holders = s.holders - 1 }) w.weak_instance;
}
step w (turns t) = record w {
  weak_instance = on_shared (λ s. turned s (next s.loop t)) w.weak_instance;
}

-- The destructor begins, as the owner's turn, when nobody holds the loop.
abbrev pub IsPossible : Event → Option Shared → Type 0
IsPossible (gets create_res) weak_instance = Unit {0}
IsPossible drops none = ⊥
IsPossible drops (some s) = 0 < s.holders
IsPossible (turns t) none = ⊥
IsPossible (turns (owner_turn b)) (some s) = (s.holders ≡ 0) × (next s.loop (owner_turn b) ≢ none)
IsPossible (turns (loop_turn b)) (some s) = next s.loop (loop_turn b) ≢ none

abbrev pub IsHeld : Option Shared → Type 0
IsHeld none = ⊥
IsHeld (some s) = 0 < s.holders

-- The histories in which somebody holds the loop all the time, latest event first.
pub data WhileHeld (w : Sharing) : List Event → Sharing → Type 0 where
  at_begin : WhileHeld w [] w
  onward :
      {es : List Event} {v : Sharing}
      → WhileHeld w es v
      → (e : Event) → IsPossible e v.weak_instance
      → IsHeld (step v e).weak_instance
      → WhileHeld w (e ∷ es) (step v e)
