-- ===== src/Prelude/Keyed.antt =====
-- A map with text keys as a list of pairs, with the methods of `HashMap` that the Relay calls.
use context_guardian.Prelude.Tests.{if◌then◌else◌, is_some, Bool-cases}
use context_guardian.Prelude.Lists.{length}
use Prim.Native.Nat.{suc, ◌≤◌}
use Prim.Native.String.{String}
use mathlib.Core.Path.{◌≡◌, refl}
use mathlib.Core.Option.{Option, none, some}
use mathlib.Core.List.{List, [], ◌∷◌, map}
use mathlib.Core.Logic.{inl, inr}
use native.Mathlib.Omega.{arith}
use text.Mathlib.Text.{◌==◌}
use text.Mathlib.TextEquality.{eq_iff}

abbrev pub Assoc {ℓ} : Type ℓ → Type ℓ
Assoc A = List (String × A)

module _ {ℓ} {A : Type ℓ} where
  -- `map.get(key)`
  unfoldable pub find : String → Assoc A → Option A
  find k [] = none
  find k ((j, a) ∷ m) = if j == k then some a else find k m

  -- `map.insert(key, value)`
  unfoldable pub put : String → A → Assoc A → Assoc A
  put k a [] = (k, a) ∷ []
  put k a ((j, b) ∷ m) = if j == k then (j, a) ∷ m else (j, b) ∷ put k a m

  -- `map.remove(key)`
  unfoldable pub erase : String → Assoc A → Assoc A
  erase k [] = []
  erase k ((j, b) ∷ m) = if j == k then erase k m else (j, b) ∷ erase k m

  pub find-empty : (k : String) (a : A) → find k [] ≡ some a → ⊥
  unfolding find
  find-empty k a found = cc

  pub find-put :
      (k j : String) (a : A) (m : Assoc A)
      → find j (put k a m) ≡ (if k == j then some a else find j m)
  unfolding find put
  find-put k j a [] = refl
  find-put k j a ((i, b) ∷ m) = ground (arith, eq_iff k j, eq_iff i k, eq_iff i j, find-put k j a m)

  pub find-erase :
      (k j : String) (m : Assoc A) → find j (erase k m) ≡ (if k == j then none else find j m)
  unfolding find erase
  find-erase k j [] = ground arith
  find-erase k j ((i, b) ∷ m) = ground (arith, eq_iff k j, eq_iff i k, eq_iff i j, find-erase k j m)

  -- A new key makes the map one larger, and a key that is there does not.
  pub length-put :
      (k : String) (a : A) (m : Assoc A)
      → length (put k a m) ≡ (if is_some (find k m) then length m else suc (length m))
  unfolding find put
  length-put k a [] = refl
  length-put k a ((i, b) ∷ m) = ground (arith, length-put k a m)

  pub length-erase : (k : String) (m : Assoc A) → length (erase k m) ≤ length m
  unfolding erase
  length-erase k [] = omega arith
  length-erase k ((i, b) ∷ m) = ground (arith, length-erase k m)

  -- Taking out a key that was just put in, and was not there, gives the map back.
  pub erase-absent : (k : String) (m : Assoc A) → find k m ≡ none → erase k m ≡ m
  unfolding find erase
  erase-absent k [] h = refl
  erase-absent k ((i, b) ∷ m) h = ground (arith, erase-absent k m)

  pub erase-put : (k : String) (a : A) (m : Assoc A) → find k m ≡ none → erase k (put k a m) ≡ m
  unfolding find erase put
  erase-put k a [] h = ground (arith, eq_iff k k)
  erase-put k a ((i, b) ∷ m) h = ground (arith, erase-put k a m)

  pub put-put : (k : String) (a b : A) (m : Assoc A) → put k b (put k a m) ≡ put k b m
  unfolding put
  put-put k a b [] = ground (arith, eq_iff k k)
  put-put k a b ((i, c) ∷ m) = ground (arith, put-put k a b m)

  pub put-find : (k : String) (a : A) (m : Assoc A) → find k m ≡ some a → put k a m ≡ m
  unfolding find put
  put-find k a [] h = cc
  put-find k a ((i, b) ∷ m) h = ground (arith, put-find k a m)

-- The values of a map all changed by a function.
module _ {ℓ κ} {A : Type ℓ} {B : Type κ} (f : A → B) where
  abbrev pub map_values : Assoc A → Assoc B
  map_values m = map (λ (k, a). (k, f a)) m

  abbrev pub map_option : Option A → Option B
  map_option none = none
  map_option (some a) = some (f a)

  pub find-map_values : (k : String) (m : Assoc A) → find k (map_values m) ≡ map_option (find k m)
  unfolding find
  find-map_values k [] = refl
  find-map_values k ((j, a) ∷ m) = elim (Bool-cases (j == k)) [
    | inl same ↦ rw (same)
    | inr other ↦ rw (other) (find-map_values k m)
  ]
