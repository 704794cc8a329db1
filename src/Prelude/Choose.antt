-- ===== src/Prelude/Choose.antt =====
-- Choices from a list: `filter`, `min_by_key` and `max_by_key`.
use Prim.Native.Nat.{ℕ, ◌≤◌}
use mathlib.Core.Path.{subst, ◌≡◌, refl, sym, ◌∙◌}
use mathlib.Core.Logic.{inl, inr}
use mathlib.Core.Bool.{Bool, true, false}
use mathlib.Core.Option.{Option, none, some}
use mathlib.Core.List.{List, [], ◌∷◌, Memᴰ}
use native.Mathlib.Omega.{arith}
use context_guardian.Prelude.Lists.{All, All-implies}
use context_guardian.Prelude.Tests.{
  leb, if◌then◌else◌, Bool-cases, Option-cases, none_apart, Bool-apart, ltb,
}

module _ {ℓ} {A : Type ℓ} (p : A → Bool) where
  unfoldable pub filter : List A → List A
  filter [] = []
  filter (x ∷ xs) = let rest = filter xs in if p x then x ∷ rest else rest

  -- What is kept passes the test and was there.
  kept_sound :
      (x y : A) (xs : List A)
      → (Memᴰ x (filter xs) → (p x ≡ true) × Memᴰ x xs)
      → p y ≡ true
      → Memᴰ x (y ∷ filter xs)
      → (p x ≡ true) × Memᴰ x (y ∷ xs)
  kept_sound x y xs sound kept (Memᴰ.head same) = (rw (same) kept, Memᴰ.head same)
  kept_sound x y xs sound kept (Memᴰ.tail later) = ((sound later).0, Memᴰ.tail (sound later).1)

  pub filter_sound : (x : A) (xs : List A) → Memᴰ x (filter xs) → (p x ≡ true) × Memᴰ x xs
  unfolding filter
  filter_sound x [] there = elim there [ ]
  filter_sound x (y ∷ xs) there = elim (Bool-cases (p y)) [
    | inl kept ↦ kept_sound x y xs (filter_sound x xs) kept (rw (kept) at there)
    | inr left ↦
        let (passed, was) = filter_sound x xs (rw (left) at there) in (passed, Memᴰ.tail was)
  ]

  pub All-filter {κ} :
      (P : A → Type κ) (xs : List A) → All P (filter xs) → All (λ x. p x ≡ true → P x) xs
  unfolding filter
  All-filter P [] ps = tt
  All-filter P (x ∷ xs) ps = elim (Bool-cases (p x)) [
    | inl kept ↦
        let both : P x × All P (filter xs) = rw (kept) at ps in
        ((λ passed. both.0), All-filter P xs both.1)
    | inr left ↦
        ((λ passed. absurd (Bool-apart (sym passed ∙ left))), All-filter P xs (rw (left) at ps))
  ]

module _ {ℓ} {A : Type ℓ} (prefer : A → A → Bool) where
  unfoldable pub choose : List A → Option A
  choose [] = none
  choose (x ∷ xs) = elim (choose xs) [
    | none ↦ some x
    | some y ↦ if prefer x y then some x else some y
  ]

  chosen_one : (x : A) (xs : List A) → (z : A) × (choose (x ∷ xs) ≡ some z)
  unfolding choose
  chosen_one x xs = elim (Option-cases (choose xs)) [
    | inl nothing ↦ rw (nothing) (x, refl)
    | inr (y, rest) ↦ elim (Bool-cases (prefer x y)) [
      | inl first ↦ rw (rest, first) (x, refl)
      | inr other ↦ rw (rest, other) (y, refl)
    ]
  ]

  the_choice : (x y : A) → some x ≡ some y → x ≡ y
  the_choice x y h = cc

  -- What is chosen was there, and is at least as good as all others.
  module _ {κ} (R : A → A → Type κ) (itself : (x : A) → R x x)
      (chain : (x y z : A) → R x y → R y z → R x z)
      (preferred : (x y : A) → prefer x y ≡ true → R x y)
      (refused : (x y : A) → prefer x y ≡ false → R y x) where
    pub choose_sound : (z : A) (xs : List A) → choose xs ≡ some z → Memᴰ z xs × All (R z) xs
    unfolding choose
    choose_sound z [] chosen = absurd (none_apart chosen)
    choose_sound z (x ∷ []) chosen =
        rw (sym (the_choice x z chosen)) (Memᴰ.head refl, (itself x, tt))
    choose_sound z (x ∷ y ∷ xs) chosen =
        let (w, rest) = chosen_one y xs in
        let (there, best) = choose_sound w (y ∷ xs) rest in
        elim (Bool-cases (prefer x w)) [
          | inl first ↦
              subst (λ v. Memᴰ v (x ∷ y ∷ xs) × All (R v) (x ∷ y ∷ xs))
                (the_choice x z (rw (choose, rest, first) at chosen))
                (
                  Memᴰ.head refl,
                  (
                    itself x,
                    All-implies (R w) (R x) (λ v. chain x w v (preferred x w first)) (y ∷ xs) best,
                  ),
                )
          | inr other ↦
              subst (λ v. Memᴰ v (x ∷ y ∷ xs) × All (R v) (x ∷ y ∷ xs))
                (the_choice w z (rw (choose, rest, other) at chosen))
                (Memᴰ.tail there, (refused x w other, best))
        ]

module _ {ℓ} {A : Type ℓ} (key : A → ℕ) where
  -- The first of the smallest, and the last of the largest.
  abbrev pub min_by_key : List A → Option A
  min_by_key = choose (λ x y. leb (key x) (key y))

  abbrev pub max_by_key : List A → Option A
  max_by_key = choose (λ x y. ltb (key y) (key x))

  pub min_by_key_sound :
      (z : A) (xs : List A) → min_by_key xs ≡ some z → Memᴰ z xs × All (λ x. key z ≤ key x) xs
  min_by_key_sound =
      choose_sound (λ x y. leb (key x) (key y)) (λ x y. key x ≤ key y) (λ x. omega arith)
        (λ x y z a b. omega arith) (λ x y h. ground arith) (λ x y h. ground arith)

  pub max_by_key_sound :
      (z : A) (xs : List A) → max_by_key xs ≡ some z → Memᴰ z xs × All (λ x. key x ≤ key z) xs
  max_by_key_sound =
      choose_sound (λ x y. ltb (key y) (key x)) (λ x y. key y ≤ key x) (λ x. omega arith)
        (λ x y z a b. omega arith) (λ x y h. ground arith) (λ x y h. ground arith)
