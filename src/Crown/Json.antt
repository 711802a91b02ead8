-- ===== src/Crown/Json.antt =====
-- `serde_json::Value` as the program holds it, and how the crate prints numbers and strings. An
-- object keeps its members in the order of insertion, and its keys are distinct.
use rcx_registry.Prelude.{
  ℕ, Bool, Option, none, some, List, [], ◌∷◌, Bytes, bytes_eq, if◌then◌else◌,
}

-- the three kinds of `serde_json::Number`; a `negative n` is -(n + 1), a float is its bit pattern
pub data JsonNumber : Type 0 where
  positive negative real : ℕ → JsonNumber

mutual
  pub data Json : Type 0 where
    null : Json
    bool : Bool → Json
    number : JsonNumber → Json
    string : Bytes → Json
    array : JsonItems → Json
    object : Members → Json

  pub data JsonItems : Type 0 where
    no_items : JsonItems
    item : Json → JsonItems → JsonItems

  pub data Members : Type 0 where
    no_members : Members
    member : Bytes → Json → Members → Members

abbrev pub member_list : Members → List (Bytes × Json)
member_list no_members = []
member_list (member k v ms) = (k, v) ∷ member_list ms

-- `Number::to_string`, and `serde_json::to_string` of a string
pub record JsonText : Type 0 where
  pub number_text : JsonNumber → Bytes
  pub quote : Bytes → Bytes

-- `Map::get`
unfoldable pub get_member : Bytes → Members → Option Json
get_member key no_members = none
get_member key (member k v ms) = if bytes_eq k key then some v else get_member key ms

-- `Value::get`, which finds a member of an object alone
unfoldable pub get_key : Bytes → Json → Option Json
unfolding get_member
get_key key (object ms) = get_member key ms
get_key key _ = none

-- `Value::as_str`
unfoldable pub as_str : Json → Option Bytes
as_str (string s) = some s
as_str _ = none
