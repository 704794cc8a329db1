-- ===== src/Capture/Differences/Paths.antt =====
-- The paths over which `schema_differences` of src/passive_capture.rs goes.
use context_guardian.Prelude.{
  String, Bool, ◌||◌, any, any-append, ◌∙◌, List, [], ◌∷◌, ◌++◌, inl, inr, ◌==◌, is_some, Assoc,
  find, All, All-append, Bool-cases, ◌≡◌, refl, eq_iff, arith,
}
use context_guardian.Capture.Schema.{SchemaField}
use context_guardian.Capture.Differences.{
  keys, insert_text, sort_texts, put_apart, dedup, all_paths, any, text_le,
}

module _ {κ} (P : String → Type κ) where
  insert_text-All : (x : String) (xs : List String) → P x → All P xs → All P (insert_text x xs)
  unfolding insert_text
  insert_text-All x [] p ps = (p, tt)
  insert_text-All x (y ∷ ys) p ps = elim (Bool-cases (text_le x y)) [
    | inl before ↦ rw (before, insert_text) (p, ps)
    | inr after ↦ rw (after, insert_text) (ps.0, insert_text-All x ys p ps.1)
  ]

  sort_texts-All : (xs : List String) → All P xs → All P (sort_texts xs)
  unfolding sort_texts
  sort_texts-All [] ps = tt
  sort_texts-All (x ∷ xs) ps = insert_text-All x (sort_texts xs) ps.0 (sort_texts-All xs ps.1)

  put_apart-All : (x : String) (xs : List String) → P x → All P xs → All P (put_apart x xs)
  unfolding put_apart
  put_apart-All x [] p ps = (p, tt)
  put_apart-All x (y ∷ ys) p ps = elim (Bool-cases (x == y)) [
    | inl same ↦ rw (put_apart, same) ps
    | inr other ↦ rw (put_apart, other) (p, ps)
  ]

  dedup-All : (xs : List String) → All P xs → All P (dedup xs)
  unfolding dedup
  dedup-All [] ps = tt
  dedup-All (x ∷ xs) ps = put_apart-All x (dedup xs) ps.0 (dedup-All xs ps.1)

module _ (p : String → Bool) where
  any-insert_text : (x : String) (xs : List String) → any p (insert_text x xs) ≡ p x || any p xs
  unfolding insert_text
  any-insert_text x [] = refl
  any-insert_text x (y ∷ ys) = elim (Bool-cases (text_le x y)) [
    | inl before ↦ rw (before) refl
    | inr after ↦ rw (after) (ground (arith, any-insert_text x ys))
  ]

  any-sort_texts : (xs : List String) → any p (sort_texts xs) ≡ any p xs
  unfolding sort_texts
  any-sort_texts [] = refl
  any-sort_texts (x ∷ xs) = ground (arith, any-insert_text x (sort_texts xs), any-sort_texts xs)

  any-put_apart : (x : String) (xs : List String) → any p (put_apart x xs) ≡ p x || any p xs
  unfolding put_apart
  any-put_apart x [] = refl
  any-put_apart x (y ∷ ys) = elim (Bool-cases (x == y)) [
    | inl same ↦ rw (same, (eq_iff x y).0 same) (ground arith)
    | inr other ↦ rw (other) refl
  ]

  any-dedup : (xs : List String) → any p (dedup xs) ≡ any p xs
  unfolding dedup
  any-dedup [] = refl
  any-dedup (x ∷ xs) = ground (arith, any-put_apart x (dedup xs), any-dedup xs)

-- Every key of one of the maps is among the paths, and nothing else.
pub any-all_paths :
    (p : String → Bool) (success failure : Assoc SchemaField)
    → any p (all_paths success failure) ≡ any p (keys success) || any p (keys failure)
any-all_paths p success failure =
    any-dedup p (sort_texts (keys success ++ keys failure))
    ∙ any-sort_texts p (keys success ++ keys failure)
    ∙ any-append p (keys success) (keys failure)

pub all_paths-All {κ} :
    (P : String → Type κ) (success failure : Assoc SchemaField)
    → All P (keys success)
    → All P (keys failure)
    → All P (all_paths success failure)
all_paths-All P success failure left right =
    dedup-All P (sort_texts (keys success ++ keys failure)) (
      sort_texts-All P (keys success ++ keys failure)
        (All-append P (keys success) (keys failure) left right))

-- A field that is found has its path among the keys.
pub any-keys :
    (path : String) (fields : Assoc SchemaField)
    → is_some (find path fields) ≡ any (λ key. key == path) (keys fields)
unfolding find
any-keys path [] = refl
any-keys path ((key, field) ∷ fields) = ground (arith, any-keys path fields)
