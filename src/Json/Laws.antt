-- ===== src/Json/Laws.antt =====
-- The map laws that the proofs use with `lookup`, `insert` and `remove` shut, and that `==` on
-- values is equality.
use context_guardian.Prelude.{
  ◌≡◌, refl, String, true, false, ◌&&◌, &&-true, none, some, arith, ◌==◌, eq_iff, if◌then◌else◌,
  ◌>>=◌,
}
use context_guardian.Json.{
  unsigned, signed_or_float, Value, null, boolean, number, string, array, object, Items, nil, cons,
  Map, empty, entry, lookup, insert, remove, replace, value_eq, items_eq, map_eq,
}

pub lookup-insert :
    (k j : String) (v : Value) (m : Map)
    → lookup j (insert k v m) ≡ (if k == j then some v else lookup j m)
unfolding lookup insert
lookup-insert k j v empty = refl
lookup-insert k j v (entry i w m) =
    ground (arith, eq_iff k j, eq_iff i k, eq_iff i j, lookup-insert k j v m)

pub lookup-remove :
    (k j : String) (m : Map) → lookup j (remove k m) ≡ (if k == j then none else lookup j m)
unfolding lookup remove
lookup-remove k j empty = ground arith
lookup-remove k j (entry i w m) =
    ground (arith, eq_iff k j, eq_iff i k, eq_iff i j, lookup-remove k j m)

-- A write through `get_mut` changes the value of a key that is there, and no other.
pub lookup-replace :
    (k j : String) (v : Value) (m : Map)
    → lookup j (replace k v m) ≡ (if k == j then (do _ ← lookup k m; some v) else lookup j m)
unfolding lookup replace
lookup-replace k j v empty = ground arith
lookup-replace k j v (entry i w m) =
    ground (arith, eq_iff k j, eq_iff i k, eq_iff i j, lookup-replace k j v m)

-- Writing the value that is there changes nothing.
pub replace-lookup : (k : String) (v : Value) (m : Map) → lookup k m ≡ some v → replace k v m ≡ m
unfolding lookup replace
replace-lookup k v empty h = refl
replace-lookup k v (entry i w m) h = ground (arith, replace-lookup k v m)

pub ruleset map_laws = (lookup-insert, lookup-remove, lookup-replace)

mutual
  unfolding value_eq

  value_eq_sound_lem : (v w : Value) → value_eq v w ≡ true → v ≡ w
  value_eq_sound_lem null null h = refl
  value_eq_sound_lem (boolean true) (boolean b) h = ground arith
  value_eq_sound_lem (boolean false) (boolean b) h = ground arith
  value_eq_sound_lem (number (unsigned a)) (number (unsigned b)) h = ground arith
  value_eq_sound_lem (number (signed_or_float a)) (number (signed_or_float b)) h = ground arith
  value_eq_sound_lem (string a) (string b) h = ground (arith, eq_iff a b)
  value_eq_sound_lem (array xs) (array ys) h = λ i. array (items_eq_sound_lem xs ys h i)
  value_eq_sound_lem (object m) (object n) h = λ i. object (map_eq_sound_lem m n h i)
  value_eq_sound_lem _ _ h = cc

  items_eq_sound_lem : (xs ys : Items) → items_eq xs ys ≡ true → xs ≡ ys
  items_eq_sound_lem nil nil h = refl
  items_eq_sound_lem (cons x xs) (cons y ys) h =
      let (p, q) = &&-true (value_eq x y) (items_eq xs ys) h in
      λ i. cons (value_eq_sound_lem x y p i) (items_eq_sound_lem xs ys q i)
  items_eq_sound_lem _ _ h = cc

  map_eq_sound_lem : (m n : Map) → map_eq m n ≡ true → m ≡ n
  map_eq_sound_lem empty empty h = refl
  map_eq_sound_lem (entry j v m) (entry k w n) h =
      let (front, q) = &&-true ((j == k) && value_eq v w) (map_eq m n) h in
      let (same_key, p) = &&-true (j == k) (value_eq v w) front in
      λ i. entry ((eq_iff j k).0 same_key i) (value_eq_sound_lem v w p i) (map_eq_sound_lem m n q i)
  map_eq_sound_lem _ _ h = cc

-- Values that compare equal are equal.
pub value_eq_sound : (v w : Value) → value_eq v w ≡ true → v ≡ w
value_eq_sound v w h = value_eq_sound_lem v w h
