-- ===== src/Json.antt =====
-- JSON values, as `serde_json::Value` presents them to src/message_format.rs and src/main.rs.
-- A number is an unsigned integer, which `as_u64` gives back, or one of the others (negative or
-- fractional), of which the code only asks the kind. An object is a list of entries with the
-- methods of `serde_json::Map` that the code calls: that map is ordered by key, so `insert` puts a
-- new key before the first larger one.
pub mod Laws
use Prim.Native.String.{compare as compare_text}
use context_guardian.Prelude.{
  ℕ, Ordering, String, Bool, true, false, ◌&&◌, not, Option, none, some, ◌==◌, eqb, if◌then◌else◌,
  ◌>>=◌, is_some,
}

pub data Number : Type 0 where
  unsigned : ℕ → Number
  signed_or_float : ℕ → Number

mutual
  pub data Value : Type 0 where
    null : Value
    boolean : Bool → Value
    number : Number → Value
    string : String → Value
    array : Items → Value
    object : Map → Value

  pub data Items : Type 0 where
    nil : Items
    cons : Value → Items → Items

  pub data Map : Type 0 where
    empty : Map
    entry : String → Value → Map → Map

-- `map.get(key)`
unfoldable pub lookup : String → Map → Option Value
lookup k empty = none
lookup k (entry j v m) = if j == k then some v else lookup k m

-- `map.insert(key, value)`
unfoldable pub insert : String → Value → Map → Map
insert k v empty = entry k v empty
insert k v (entry j w m) = elim (compare_text j k) [
  | Ordering.lt ↦ entry j w (insert k v m)
  | Ordering.eq ↦ entry k v m
  | Ordering.gt ↦ entry k v (entry j w m)
]

-- `*map.get_mut(key) = value`, where the key is there; else nothing changes.
unfoldable pub replace : String → Value → Map → Map
replace k v empty = empty
replace k v (entry j w m) = if j == k then entry j v m else entry j w (replace k v m)

-- `map.remove(key)`
unfoldable pub remove : String → Map → Map
remove k empty = empty
remove k (entry j v m) = if j == k then remove k m else entry j v (remove k m)

abbrev pub contains_key : String → Map → Bool
contains_key k m = is_some (lookup k m)

-- `value.get(key)`, which answers `None` for anything but an object.
abbrev pub get : String → Value → Option Value
get k (object m) = lookup k m
get k _ = none

abbrev pub as_str : Value → Option String
as_str (string s) = some s
as_str _ = none

abbrev pub as_object : Value → Option Map
as_object (object m) = some m
as_object _ = none

abbrev pub as_array : Value → Option Items
as_array (array xs) = some xs
as_array _ = none

abbrev pub as_u64 : Value → Option ℕ
as_u64 (number (unsigned n)) = some n
as_u64 _ = none

-- `map.get(key).and_then(Value::as_str)` and `value.get(key).and_then(Value::as_str)`
abbrev pub lookup_str : String → Map → Option String
lookup_str k m = do v ← lookup k m; as_str v

abbrev pub get_str : String → Value → Option String
get_str k value = do v ← get k value; as_str v

-- `text == Some(literal)`
abbrev pub is_text : String → Option String → Bool
is_text t none = false
is_text t (some s) = s == t

number_eq : Number → Number → Bool
number_eq (unsigned n) (unsigned m) = eqb n m
number_eq (signed_or_float n) (signed_or_float m) = eqb n m
number_eq _ _ = false

bool_eq : Bool → Bool → Bool
bool_eq true b = b
bool_eq false b = not b

-- `left == right`
unfoldable mutual
  unfolding number_eq bool_eq

  pub value_eq : Value → Value → Bool
  value_eq null null = true
  value_eq (boolean a) (boolean b) = bool_eq a b
  value_eq (number a) (number b) = number_eq a b
  value_eq (string a) (string b) = a == b
  value_eq (array xs) (array ys) = items_eq xs ys
  value_eq (object m) (object n) = map_eq m n
  value_eq _ _ = false

  pub items_eq : Items → Items → Bool
  items_eq nil nil = true
  items_eq (cons x xs) (cons y ys) = value_eq x y && items_eq xs ys
  items_eq _ _ = false

  pub map_eq : Map → Map → Bool
  map_eq empty empty = true
  map_eq (entry j v m) (entry k w n) = (j == k) && value_eq v w && map_eq m n
  map_eq _ _ = false
