-- ===== src/Libvirt/Json.antt =====
-- The JSON values of the guest agent's protocol, with the accesses that modules/virt/src/libvirt/libvirt.cpp
-- makes to them. An access that throws is nothing. Text and parsing are the JSON library's.
use gar_virt.Prelude.{if◌then◌else◌, Bytes, codes, Bool, Option, none, some, List, [], ◌∷◌}
use gar_virt.Text.{same_bytes}
use gar_virt.Numeric.{ℤ}

mutual
  pub data Json : Type 0 where
    null : Json
    boolean : Bool → Json
    int64 : ℤ → Json
    string : Bytes → Json
    array : JsonList → Json
    object : JsonObject → Json

  pub data JsonList : Type 0 where
    end_of_list : JsonList
    item : Json → JsonList → JsonList

  pub data JsonObject : Type 0 where
    end_of_object : JsonObject
    field : Bytes → Json → JsonObject → JsonObject

-- `boost::json::parse` and `serialize`.
pub record JsonLibrary : Type 0 where
  pub parse : Bytes → Option Json
  pub serialize : Json → Bytes

-- `contains` with `at`.
abbrev pub at_key : Bytes → JsonObject → Option Json
at_key key end_of_object = none
at_key key (field name value rest) =
    let more = at_key key rest in if same_bytes key name then some value else more

abbrev pub as_object : Json → Option JsonObject
as_object (object o) = some o
as_object null = none
as_object (boolean b) = none
as_object (int64 n) = none
as_object (string s) = none
as_object (array l) = none

abbrev pub as_bool : Json → Option Bool
as_bool (boolean b) = some b
as_bool null = none
as_bool (int64 n) = none
as_bool (string s) = none
as_bool (array l) = none
as_bool (object o) = none

abbrev pub as_int64 : Json → Option ℤ
as_int64 (int64 n) = some n
as_int64 null = none
as_int64 (boolean b) = none
as_int64 (string s) = none
as_int64 (array l) = none
as_int64 (object o) = none

abbrev pub as_string : Json → Option Bytes
as_string (string s) = some s
as_string null = none
as_string (boolean b) = none
as_string (int64 n) = none
as_string (array l) = none
as_string (object o) = none

infixl 5 ◌&>◌
-- The next access, if the one before did not throw.
abbrev pub ◌&>◌ : {A B : Type 0} → Option A → (A → Option B) → Option B
none &> f = none
some a &> f = f a

-- A command of the agent with its arguments.
abbrev pub agent_request : Bytes → JsonObject → Json
agent_request execute arguments = object (
    field (codes "execute") (string execute)
      (field (codes "arguments") (object arguments) end_of_object))

abbrev pub to_list : List Bytes → JsonList
to_list [] = end_of_list
to_list (s ∷ items) = item (string s) (to_list items)
