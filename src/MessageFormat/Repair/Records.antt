-- ===== src/MessageFormat/Repair/Records.antt =====
-- `diagnose_records` of src/message_format.rs over a whole rollout, and what its repairs give when
-- src/main.rs puts them in the place of the records.
use context_guardian.Prelude.{
  ℕ, ◌+◌, ◌<◌, Bool, true, false, not, ◌&&◌, List, [], ◌∷◌, ◌++◌, Option, none, some, ◌≡◌, refl,
  sym, ap, ◌∙◌, inl, inr, arith, is_empty, if◌then◌else◌, is_empty-append, all-parts, Bool-cases,
  unwrap_or, All, append_assoc, append-nil, eqb,
}
use context_guardian.Json.{Value, value_eq}
use context_guardian.MessageFormat.Issue.{
  FormatIssue, all_repaired, any_repaired, is_repaired, count_unrepaired,
}
use context_guardian.Json.Laws.{value_eq_sound}
use context_guardian.MessageFormat.Message.{Serde}
use context_guardian.MessageFormat.Record.{
  MessageDiagnosis, unrepaired_issues, diagnose_record, diagnose_next, diagnose_from,
  diagnose_records,
}
use context_guardian.MessageFormat.Shape.{is_record}
use context_guardian.MessageFormat.Repair.ResponsePayload.{issues_of, value_of}
use context_guardian.MessageFormat.Repair.Record.{
  is_empty-diagnose_record, is_record-diagnose_record,
}

-- `repaired_values.get(&index)`
unfoldable pub lookup_index : ℕ → List (ℕ × Value) → Option Value
lookup_index i [] = none
lookup_index i ((j, v) ∷ rest) = if eqb j i then some v else lookup_index i rest

-- The records with the repaired ones in their places, from the index `at`.
unfoldable pub apply_repairs : List (ℕ × Value) → ℕ → List Value → List Value
apply_repairs repairs at [] = []
apply_repairs repairs at (value ∷ values) =
    unwrap_or (lookup_index at repairs) value ∷ apply_repairs repairs (at + 1) values

all_repaired_of_count : (is : List FormatIssue) → count_unrepaired is ≡ 0 → all_repaired is ≡ true
unfolding count_unrepaired
all_repaired_of_count [] h = refl
all_repaired_of_count (i ∷ is) h = ground (arith, all_repaired_of_count is)

-- Issues that are all repaired, of which none is, are no issues.
is_empty_of_none :
    (is : List FormatIssue) → all_repaired is ≡ true → any_repaired is ≡ false → is_empty is ≡ true
is_empty_of_none [] h k = refl
is_empty_of_none (i ∷ is) h k = ground arith

module _ (serde : Serde) where
  -- Whether the loop keeps the value of a diagnosis.
  is_kept : ℕ → Value → Bool
  is_kept idx value =
      not (value_eq (value_of (diagnose_record serde idx value)) value)
      && any_repaired (issues_of (diagnose_record serde idx value))

  entry_of : ℕ → Value → List (ℕ × Value)
  entry_of idx value =
      if is_kept idx value then (idx, value_of (diagnose_record serde idx value)) ∷ [] else []

  entries_from : ℕ → List Value → List (ℕ × Value)
  entries_from idx [] = []
  entries_from idx (value ∷ values) = entry_of idx value ++ entries_from (idx + 1) values

  issues_from : ℕ → List Value → List FormatIssue
  issues_from idx [] = []
  issues_from idx (value ∷ values) =
      issues_of (diagnose_record serde idx value) ++ issues_from (idx + 1) values

  repairs-diagnose_next :
      (d : MessageDiagnosis) (idx : ℕ) (value : Value)
      → (diagnose_next serde d idx value).repaired_values ≡ d.repaired_values ++ entry_of idx value
  unfolding diagnose_next entry_of is_kept
  repairs-diagnose_next d idx value = elim (Bool-cases (is_kept idx value)) [
    | inl kept ↦ rw kept
    | inr dropped ↦ rw dropped (sym (append-nil d.repaired_values))
  ]

  -- The loop with its accumulators against these recursions.
  repairs-diagnose_from :
      (d : MessageDiagnosis) (idx : ℕ) (values : List Value)
      → (diagnose_from serde d idx values).repaired_values
        ≡ d.repaired_values ++ entries_from idx values
  unfolding diagnose_from entries_from
  repairs-diagnose_from d idx [] = sym (append-nil d.repaired_values)
  repairs-diagnose_from d idx (value ∷ values) =
      repairs-diagnose_from (diagnose_next serde d idx value) (idx + 1) values
      ∙ (ap (λ r. r ++ entries_from (idx + 1) values) (repairs-diagnose_next d idx value)
          ∙ append_assoc d.repaired_values (entry_of idx value) (entries_from (idx + 1) values))

  issues-diagnose_from :
      (d : MessageDiagnosis) (idx : ℕ) (values : List Value)
      → (diagnose_from serde d idx values).issues ≡ d.issues ++ issues_from idx values
  unfolding diagnose_from issues_from
  issues-diagnose_from d idx [] = sym (append-nil d.issues)
  issues-diagnose_from d idx (value ∷ values) =
      issues-diagnose_from (diagnose_next serde d idx value) (idx + 1) values
      ∙ (unfold diagnose_next in
          append_assoc d.issues (issues_of (diagnose_record serde idx value))
            (issues_from (idx + 1) values))

  -- An index below all entries is not among them.
  lookup_index-below :
      (i idx : ℕ) (values : List Value) → i < idx → lookup_index i (entries_from idx values) ≡ none
  unfolding lookup_index entries_from entry_of
  lookup_index-below i idx [] h = refl
  lookup_index-below i idx (value ∷ values) h =
      ground (arith, lookup_index-below i (idx + 1) values)

  apply_repairs-skip :
      (idx : ℕ) (v : Value) (rest : List (ℕ × Value)) (at : ℕ) (values : List Value)
      → idx < at
      → apply_repairs ((idx, v) ∷ rest) at values ≡ apply_repairs rest at values
  unfolding apply_repairs lookup_index
  apply_repairs-skip idx v rest at [] h = refl
  apply_repairs-skip idx v rest at (value ∷ values) h =
      ground (arith, apply_repairs-skip idx v rest (at + 1) values)

  -- What the loop keeps of a record whose issues were all repaired is well formed.
  repaired_or-IsRecord :
      (idx : ℕ) (value : Value)
      → all_repaired (issues_of (diagnose_record serde idx value)) ≡ true
      → is_record (if is_kept idx value then value_of (diagnose_record serde idx value) else value)
        ≡ true
  unfolding is_kept
  repaired_or-IsRecord idx value r = ground (
    arith,
    is_record-diagnose_record serde idx value,
    is_empty-diagnose_record serde idx value,
    is_empty_of_none (issues_of (diagnose_record serde idx value)) r,
    value_eq_sound (value_of (diagnose_record serde idx value)) value,
  )

  lookup_index-here :
      (idx : ℕ) (value : Value) (values : List Value)
      → unwrap_or (lookup_index idx (entries_from idx (value ∷ values))) value
        ≡ (if is_kept idx value then value_of (diagnose_record serde idx value) else value)
  unfolding lookup_index entries_from entry_of
  lookup_index-here idx value values = ground (arith, lookup_index-below idx (idx + 1) values)

  lookup_index-here_of :
      (idx : ℕ) (value : Value) (values : List Value)
      → all_repaired (issues_of (diagnose_record serde idx value)) ≡ true
      → is_record (unwrap_or (lookup_index idx (entries_from idx (value ∷ values))) value) ≡ true
  lookup_index-here_of idx value values r = rw lookup_index-here (repaired_or-IsRecord idx value r)

  apply_repairs-tail :
      (idx : ℕ) (value : Value) (values : List Value)
      → apply_repairs (entries_from idx (value ∷ values)) (idx + 1) values
        ≡ apply_repairs (entries_from (idx + 1) values) (idx + 1) values
  unfolding entries_from entry_of
  apply_repairs-tail idx value values = ground (
    arith,
    apply_repairs-skip idx (value_of (diagnose_record serde idx value))
        (entries_from (idx + 1) values) (idx + 1) values,
  )

  apply_repairs-AreRecords :
      (idx : ℕ) (values : List Value)
      → all_repaired (issues_from idx values) ≡ true
      → All (λ v. is_record v ≡ true) (apply_repairs (entries_from idx values) idx values)
  unfolding apply_repairs issues_from
  apply_repairs-AreRecords idx [] r = tt
  apply_repairs-AreRecords idx (value ∷ values) r =
      let (here, rest) =
        all-parts is_repaired (issues_of (diagnose_record serde idx value))
          (issues_from (idx + 1) values) r in
      (
        lookup_index-here_of idx value values here,
        rw (apply_repairs-tail idx value values) (apply_repairs-AreRecords (idx + 1) values rest),
      )

  issues_from-AreRecords :
      (idx : ℕ) (values : List Value)
      → All (λ v. is_record v ≡ true) values
      → is_empty (issues_from idx values) ≡ true
  unfolding issues_from
  issues_from-AreRecords idx [] h = refl
  issues_from-AreRecords idx (value ∷ values) (h, hs) =
      rw (is_empty-append, is_empty-diagnose_record serde idx value, h)
        (issues_from-AreRecords (idx + 1) values hs)

  issues-diagnose_records :
      (values : List Value) → (diagnose_records serde values).issues ≡ issues_from 0 values
  unfolding diagnose_records
  issues-diagnose_records values = issues-diagnose_from _ 0 values

  repairs-diagnose_records :
      (values : List Value)
      → (diagnose_records serde values).repaired_values ≡ entries_from 0 values
  unfolding diagnose_records
  repairs-diagnose_records values = repairs-diagnose_from _ 0 values

  -- Where a diagnosis leaves no issue unrepaired, the rollout with the repaired records in their
  -- places has only well-formed records.
  pub diagnose_records-AreRecords :
      (values : List Value)
      → unrepaired_issues (diagnose_records serde values) ≡ 0
      → All
          (λ v. is_record v ≡ true)
          (apply_repairs (diagnose_records serde values).repaired_values 0 values)
  unfolding unrepaired_issues
  diagnose_records-AreRecords values h = rw repairs-diagnose_records (
      apply_repairs-AreRecords 0 values (
        rw issues-diagnose_records at
          (all_repaired_of_count (diagnose_records serde values).issues h)))

  -- A second diagnosis of that rollout reports no issue at all.
  pub diagnose_records-settles :
      (values : List Value)
      → unrepaired_issues (diagnose_records serde values) ≡ 0
      → is_empty
          (diagnose_records serde
            (apply_repairs (diagnose_records serde values).repaired_values 0 values)).issues
        ≡ true
  diagnose_records-settles values h =
      rw issues-diagnose_records (issues_from-AreRecords 0 _ (diagnose_records-AreRecords values h))
