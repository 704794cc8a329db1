-- ===== src/Prelude/Lists.antt =====
-- Lists measured by native numbers, predicates on all elements, and Boolean searches.
use context_guardian.Prelude.Tests.{Bool-cases}
use mathlib.Core.Logic.{inl, inr}
use Prim.Native.Nat.{ℕ, zero, suc, ◌+◌, ◌-◌, min}
use mathlib.Core.Path.{◌≡◌, refl}
use mathlib.Core.Bool.{Bool, true, false, ◌&&◌, ◌||◌}
use mathlib.Core.List.{List, [], ◌∷◌, ◌++◌, Memᴰ}
use native.Mathlib.Omega.{arith}

module _ {ℓ} {A : Type ℓ} where
  abbrev pub length : List A → ℕ
  length [] = 0
  length (x ∷ xs) = suc (length xs)

  abbrev pub take : ℕ → List A → List A
  take zero xs = []
  take (suc n) [] = []
  take (suc n) (x ∷ xs) = x ∷ take n xs

  abbrev pub drop : ℕ → List A → List A
  drop zero xs = xs
  drop (suc n) [] = []
  drop (suc n) (x ∷ xs) = drop n xs

  abbrev pub any : (A → Bool) → List A → Bool
  any p [] = false
  any p (x ∷ xs) = p x || any p xs

  abbrev pub all : (A → Bool) → List A → Bool
  all p [] = true
  all p (x ∷ xs) = p x && all p xs

  abbrev pub is_empty : List A → Bool
  is_empty [] = true
  is_empty (x ∷ xs) = false

  pub length-append : (xs ys : List A) → length (xs ++ ys) ≡ length xs + length ys
  length-append [] ys = omega arith
  length-append (x ∷ xs) ys = omega (arith, length-append xs ys)

  pub take-append-drop : (n : ℕ) (xs : List A) → take n xs ++ drop n xs ≡ xs
  take-append-drop zero xs = refl
  take-append-drop (suc n) [] = refl
  take-append-drop (suc n) (x ∷ xs) = λ i. x ∷ take-append-drop n xs i

  pub length-take : (n : ℕ) (xs : List A) → length (take n xs) ≡ min n (length xs)
  length-take zero xs = omega arith
  length-take (suc n) [] = omega arith
  length-take (suc n) (x ∷ xs) = omega (arith, length-take n xs)

  pub length-drop : (n : ℕ) (xs : List A) → length (drop n xs) ≡ length xs - n
  length-drop zero xs = omega arith
  length-drop (suc n) [] = omega arith
  length-drop (suc n) (x ∷ xs) = omega (arith, length-drop n xs)

module _ {ℓ κ} {A : Type ℓ} (P : A → Type κ) where
  abbrev pub All : List A → Type κ
  All [] = Unit
  All (x ∷ xs) = P x × All xs

  pub All-append : (xs ys : List A) → All xs → All ys → All (xs ++ ys)
  All-append [] ys hx hy = hy
  All-append (x ∷ xs) ys hx hy = (hx.0, All-append xs ys hx.1 hy)

  pub All-Memᴰ : (x : A) (xs : List A) → Memᴰ x xs → All xs → P x
  All-Memᴰ x [] there all = elim there [ ]
  All-Memᴰ x (y ∷ xs) (Memᴰ.head same) all = rw (same) all.0
  All-Memᴰ x (y ∷ xs) (Memᴰ.tail there) all = All-Memᴰ x xs there all.1

module _ {ℓ} {A : Type ℓ} (p : A → Bool) where
  pub all-append : (xs ys : List A) → all p (xs ++ ys) ≡ all p xs && all p ys
  all-append [] ys = refl
  all-append (x ∷ xs) ys = ground (arith, all-append xs ys)

  pub any-append : (xs ys : List A) → any p (xs ++ ys) ≡ any p xs || any p ys
  any-append [] ys = refl
  any-append (x ∷ xs) ys = ground (arith, any-append xs ys)

module _ {ℓ} {A : Type ℓ} where
  pub is_empty-append : (xs ys : List A) → is_empty (xs ++ ys) ≡ is_empty xs && is_empty ys
  is_empty-append [] ys = refl
  is_empty-append (x ∷ xs) ys = refl

  -- The two halves of a test that an appended list passes.
  pub is_empty-parts :
      (xs ys : List A) → is_empty (xs ++ ys) ≡ true → (is_empty xs ≡ true) × (is_empty ys ≡ true)
  is_empty-parts [] ys h = (refl, h)
  is_empty-parts (x ∷ xs) ys h = cc

  pub all-parts :
      (p : A → Bool) (xs ys : List A)
      → all p (xs ++ ys) ≡ true
      → (all p xs ≡ true) × (all p ys ≡ true)
  all-parts p [] ys h = (refl, h)
  all-parts p (x ∷ xs) ys h = ground (arith, all-parts p xs ys)

module _ {ℓ κ μ} {A : Type ℓ} (P : A → Type κ) (Q : A → Type μ) where
  pub All-implies : ((x : A) → P x → Q x) → (xs : List A) → All P xs → All Q xs
  All-implies step [] ps = tt
  All-implies step (x ∷ xs) ps = (step x ps.0, All-implies step xs ps.1)

-- What all elements pass, one that a search finds passes.
module _ {ℓ} {A : Type ℓ} (p q : A → Bool) where
  pub all-any :
      (xs : List A) → all p xs ≡ true → any q xs ≡ true → (x : A) × (p x ≡ true) × (q x ≡ true)
  all-any [] every some_one = cc
  all-any (x ∷ xs) every some_one = elim (Bool-cases (q x)) [
    | inl here ↦ (x, ground arith, here)
    | inr later ↦ all-any xs (ground arith) (ground arith)
  ]
