-- ===== src/Prelude/Slices.antt =====
-- Parts of lists, and the stable sort.
use Prim.Native.Nat.{ℕ, zero, suc, ◌+◌, ◌-◌, ◌≤◌, ◌<◌}
use mathlib.Core.Path.{◌≡◌, refl, sym, ap, ◌∙◌}
use mathlib.Core.Logic.{inl, inr}
use mathlib.Core.Bool.{false}
use mathlib.Core.List.{List, [], ◌∷◌, ◌++◌, Memᴰ}
use native.Mathlib.Omega.{arith}
use native.Mathlib.Nat.{zero-add}
use context_guardian.Prelude.Lists.{length, take, drop, All, length-drop}
use context_guardian.Prelude.Tests.{leb, if◌then◌else◌, Bool-cases}

-- `vec[from..to]`, which the code takes within bounds.
abbrev pub slice {ℓ} : {A : Type ℓ} → ℕ → ℕ → List A → List A
slice from to xs = take (to - from) (drop from xs)

-- `sort_by_key`, which is stable.
module _ {ℓ} {A : Type ℓ} (key : A → ℕ) where
  unfoldable pub insert_by_key : A → List A → List A
  insert_by_key x [] = x ∷ []
  insert_by_key x (y ∷ ys) = if leb (key x) (key y) then x ∷ y ∷ ys else y ∷ insert_by_key x ys

  unfoldable pub sort_by_key : List A → List A
  sort_by_key [] = []
  sort_by_key (x ∷ xs) = insert_by_key x (sort_by_key xs)

  pub All-insert_by_key {κ} :
      (P : A → Type κ) (x : A) (xs : List A) → P x → All P xs → All P (insert_by_key x xs)
  unfolding insert_by_key
  All-insert_by_key P x [] p ps = (p, tt)
  All-insert_by_key P x (y ∷ ys) p ps = elim (Bool-cases (leb (key x) (key y))) [
    | inl before ↦ rw (before, insert_by_key) (p, ps)
    | inr after ↦ rw (after, insert_by_key) (ps.0, All-insert_by_key P x ys p ps.1)
  ]

  pub All-sort_by_key {κ} : (P : A → Type κ) (xs : List A) → All P xs → All P (sort_by_key xs)
  unfolding sort_by_key
  All-sort_by_key P [] ps = tt
  All-sort_by_key P (x ∷ xs) ps =
      All-insert_by_key P x (sort_by_key xs) ps.0 (All-sort_by_key P xs ps.1)

  -- The list has a first element, with a key of at most the bound.
  abbrev pub StartsBy : ℕ → List A → Type 0
  StartsBy bound [] = ⊥
  StartsBy bound (x ∷ xs) = key x ≤ bound

  insert_by_key-StartsBy : (x : A) (xs : List A) → StartsBy (key x) (insert_by_key x xs)
  unfolding insert_by_key
  insert_by_key-StartsBy x [] = ground arith
  insert_by_key-StartsBy x (y ∷ ys) = elim (Bool-cases (leb (key x) (key y))) [
    | inl before ↦ rw (before, insert_by_key) (ground arith)
    | inr after ↦ rw (after, insert_by_key) (ground arith)
  ]

  insert_by_key_keeps :
      (bound : ℕ) (x : A) (xs : List A) → StartsBy bound xs → StartsBy bound (insert_by_key x xs)
  unfolding insert_by_key
  insert_by_key_keeps bound x [] low = absurd low
  insert_by_key_keeps bound x (y ∷ ys) low = elim (Bool-cases (leb (key x) (key y))) [
    | inl before ↦ rw (before, insert_by_key) (ground arith)
    | inr after ↦ rw (after, insert_by_key) low
  ]

  pub sort_by_key-StartsBy : (x : A) (xs : List A) → Memᴰ x xs → StartsBy (key x) (sort_by_key xs)
  unfolding sort_by_key
  sort_by_key-StartsBy x [] there = elim there [ ]
  sort_by_key-StartsBy x (y ∷ xs) (Memᴰ.head same) =
      rw (same) (insert_by_key-StartsBy y (sort_by_key xs))
  sort_by_key-StartsBy x (y ∷ xs) (Memᴰ.tail there) =
      insert_by_key_keeps (key x) y (sort_by_key xs) (sort_by_key-StartsBy x xs there)

  pub sort_by_key_swaps : (x y : A) → key y < key x → sort_by_key (x ∷ y ∷ []) ≡ y ∷ x ∷ []
  unfolding sort_by_key insert_by_key
  sort_by_key_swaps x y low =
      let placed : leb (key x) (key y) ≡ false = ground arith in rw (placed) refl

module _ {ℓ} {A : Type ℓ} where
  drop-nil : (n : ℕ) → drop {A = A} n [] ≡ []
  drop-nil zero = refl
  drop-nil (suc n) = refl

  pub drop-drop : (m n : ℕ) (xs : List A) → drop n (drop m xs) ≡ drop (m + n) xs
  drop-drop zero n xs = ap (λ k. drop k xs) (sym (zero-add n))
  drop-drop (suc m) n [] = drop-nil n ∙ sym (drop-nil (suc m + n))
  drop-drop (suc m) n (x ∷ xs) =
      let next : suc (m + n) ≡ suc m + n = omega arith in
      drop-drop m n xs ∙ ap (λ k. drop k (x ∷ xs)) next

  pub drop-append_length : (xs ys : List A) → drop (length xs) (xs ++ ys) ≡ ys
  drop-append_length [] ys = refl
  drop-append_length (x ∷ xs) ys = drop-append_length xs ys

  pub drop-append_le :
      (n : ℕ) (xs ys : List A) → n ≤ length xs → drop n (xs ++ ys) ≡ drop n xs ++ ys
  drop-append_le zero xs ys h = refl
  drop-append_le (suc n) [] ys h = absurd (omega arith)
  drop-append_le (suc n) (x ∷ xs) ys h = drop-append_le n xs ys (omega arith)

  pub take-append_length : (xs ys : List A) → take (length xs) (xs ++ ys) ≡ xs
  take-append_length [] ys = refl
  take-append_length (x ∷ xs) ys = λ i. x ∷ take-append_length xs ys i

  -- A part between two others.
  pub slice-append :
      (from : ℕ) (xs ys zs : List A)
      → from ≡ length xs
      → slice from (from + length ys) (xs ++ (ys ++ zs)) ≡ ys
  slice-append from xs ys zs at_start =
      let size : from + length ys - from ≡ length ys = omega arith in
      rw (size, at_start, drop-append_length xs (ys ++ zs)) (take-append_length ys zs)

  pub drop-append_both :
      (from : ℕ) (xs ys zs : List A)
      → from ≡ length xs
      → drop (from + length ys) (xs ++ (ys ++ zs)) ≡ zs
  drop-append_both from xs ys zs at_start =
      rw
        (
          at_start,
          sym (drop-drop (length xs) (length ys) (xs ++ (ys ++ zs))),
          drop-append_length xs (ys ++ zs),
        )
        (drop-append_length ys zs)

  pub slice-append_at :
      (from to : ℕ) (xs ys zs whole : List A)
      → from ≡ length xs
      → to ≡ from + length ys
      → whole ≡ xs ++ (ys ++ zs)
      → slice from to whole ≡ ys
  slice-append_at from to xs ys zs whole at_start at_end all_of_it =
      rw (at_end, all_of_it) (slice-append from xs ys zs at_start)

  pub take-append_le : (n : ℕ) (xs ys : List A) → n ≤ length xs → take n (xs ++ ys) ≡ take n xs
  take-append_le zero xs ys h = refl
  take-append_le (suc n) [] ys h = absurd (omega arith)
  take-append_le (suc n) (x ∷ xs) ys h = λ i. x ∷ take-append_le n xs ys (omega arith) i

  -- A part of the first of two lists.
  pub slice-append_le :
      (from to : ℕ) (xs ys : List A)
      → from ≤ to
      → to ≤ length xs
      → slice from to (xs ++ ys) ≡ slice from to xs
  slice-append_le from to xs ys order inside =
      rw (drop-append_le from xs ys (omega arith))
        (take-append_le (to - from) (drop from xs) ys (omega (arith, length-drop from xs)))
