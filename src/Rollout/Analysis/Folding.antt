-- ===== src/Rollout/Analysis/Folding.antt =====
-- Which records src/main.rs folds away.
use context_guardian.Prelude.{
  ℕ, suc, ◌<◌, ◌≡◌, refl, ◌⊎◌, inl, inr, Bool, true, false, ◌&&◌, Option, none, some, List, [], ◌∷◌,
  arith, ltb, leb, if◌then◌else◌, Bool-cases, unwrap_or, &&-true,
}
use context_guardian.Json.{Value}
use context_guardian.Rollout.Analysis.{
  is_compacted_record, is_trigger, is_session_meta, latest_from, trigger_from, fold_start,
  fold_start_index, should_fold_line,
}

-- The record at an index passes a test, where the first record has the index `first`.
abbrev pub At : (Value → Bool) → ℕ → ℕ → List Value → Type 0
At p first index [] = ⊥
At p first index (value ∷ values) =
    ((index ≡ first) × (p value ≡ true)) ⊎ At p (suc first) index values

some_index : (i j : ℕ) → some i ≡ some j → i ≡ j
some_index i j h = cc

latest_from-At :
    (values : List Value) (first k : ℕ) (latest : Option ℕ)
    → latest_from first latest values ≡ some k
    → (latest ≡ some k) ⊎ At is_compacted_record first k values
unfolding latest_from
latest_from-At [] first k latest found = inl found
latest_from-At (value ∷ values) first k latest found =
    elim (latest_from-At values (suc first) k
      (if is_compacted_record value then some first else latest) found) [
        | inr later ↦ inr (inr later)
        | inl now ↦ elim (Bool-cases (is_compacted_record value)) [
          | inl here ↦ inr (inl (some_index k first (ground arith), here))
          | inr other ↦ inl (ground arith)
        ]
      ]

trigger_from-At :
    (trigger start : ℕ) (values : List Value) (first k : ℕ)
    → trigger_from trigger start first values ≡ some k
    → At (is_trigger trigger) first k values
unfolding trigger_from
trigger_from-At trigger start [] first k found = absurd cc
trigger_from-At trigger start (value ∷ values) first k found =
    elim (Bool-cases (leb start first && is_trigger trigger value)) [
      | inl here ↦ inl (
        some_index k first (ground arith),
        (&&-true (leb start first) (is_trigger trigger value) here).1,
      )
      | inr other ↦ inr (trigger_from-At trigger start values (suc first) k (ground arith))
    ]

folded :
    (full latest : Option ℕ) (index : ℕ) (value : Value)
    → should_fold_line index value (fold_start full latest) ≡ true
    → (start : ℕ) × (trigger : ℕ) × (latest ≡ some start)
      × (full ≡ some trigger)
      × (index < start)
      × (start < trigger)
      × (is_session_meta value ≡ false)
unfolding should_fold_line fold_start
folded none none index value folds = absurd cc
folded none (some start) index value folds = absurd cc
folded (some trigger) none index value folds = absurd cc
folded (some trigger) (some start) index value folds =
    elim (Bool-cases (ltb 0 start && ltb start trigger)) [
      | inr out_of_order ↦ absurd (never (ground arith))
      | inl in_order ↦ (start, trigger, refl, refl, ground arith, ground arith, ground arith)
    ]
  where
    never : false ≡ true → ⊥
    never h = cc

no_index : (k : ℕ) → none ≡ some k → ⊥
no_index k h = cc

-- A record is folded away only in front of a compacted record that is followed by a trigger, and is
-- not the session's head.
pub should_fold_line_sound :
    (values : List Value) (trigger index : ℕ) (value : Value)
    → should_fold_line index value (fold_start_index values trigger) ≡ true
    → (start : ℕ) × (full : ℕ) × (index < start)
      × (start < full)
      × At is_compacted_record 0 start values
      × At (is_trigger trigger) 0 full values
      × (is_session_meta value ≡ false)
unfolding fold_start_index
should_fold_line_sound values trigger index value folds =
    let latest = latest_from 0 none values in
    let (start, full, is_latest, is_full, before, after, no_head) =
      folded (trigger_from trigger (unwrap_or latest 0) 0 values) latest index value folds in
    (
      start,
      full,
      before,
      after,
      elim (latest_from-At values 0 start none is_latest) [
        | inl nowhere ↦ absurd (no_index start nowhere)
        | inr there ↦ there
      ],
      trigger_from-At trigger (unwrap_or latest 0) values 0 full is_full,
      no_head,
    )
