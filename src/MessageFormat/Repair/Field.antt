-- ===== src/MessageFormat/Repair/Field.antt =====
-- The laws of a diagnosis of one field of an object, from those of the diagnosis of its value.
use context_guardian.Prelude.{
  String, Bool, true, false, List, none, some, ◌≡◌, refl, inl, inr, ◌==◌, eq_refl, is_empty,
  Option-cases,
}
use context_guardian.Json.{Value, Map, lookup}
use context_guardian.MessageFormat.Issue.{FormatIssue, Diagnosed, all_repaired, with_field}
use context_guardian.Json.Laws.{lookup-replace, replace-lookup}
use context_guardian.MessageFormat.Shape.{some_and}

module _ (key : String) (missing : List FormatIssue) (f : Value → Diagnosed Value) (map : Map) where
  pub quiet-with_field :
      (P : Value → Bool)
      → is_empty missing ≡ false
      → ((v : Value) → is_empty (f v).1 ≡ P v)
      → is_empty (with_field key missing f map).1 ≡ some_and (lookup key map) P
  unfolding with_field
  quiet-with_field P reported quiet = elim (Option-cases (lookup key map)) [
    | inl absent ↦ rw (absent, with_field) reported
    | inr (v, present) ↦ rw (present, with_field) (quiet v)
  ]

  pub quiet-optional_field :
      (P : Value → Bool)
      → is_empty missing ≡ true
      → ((v : Value) → is_empty (f v).1 ≡ P v)
      → is_empty (with_field key missing f map).1
        ≡ (elim (lookup key map) [ none ↦ true | some v ↦ P v ])
  unfolding with_field
  quiet-optional_field P reported quiet = elim (Option-cases (lookup key map)) [
    | inl absent ↦ rw (absent, with_field) reported
    | inr (v, present) ↦ rw (present, with_field) (quiet v)
  ]

  pub unchanged-with_field :
      ((v : Value) → is_empty (f v).1 ≡ true → (f v).0 ≡ v)
      → is_empty (with_field key missing f map).1 ≡ true
      → (with_field key missing f map).0 ≡ map
  unfolding with_field
  unchanged-with_field unchanged = elim (Option-cases (lookup key map)) [
    | inl absent ↦ rw (absent, with_field) (λ _. refl)
    | inr (v, present) ↦
        rw (present, with_field) (λ q. rw (unchanged v q) (replace-lookup key v map present))
  ]

  pub mended-with_field :
      (P : Value → Bool)
      → all_repaired missing ≡ false
      → ((v : Value) → all_repaired (f v).1 ≡ true → P (f v).0 ≡ true)
      → all_repaired (with_field key missing f map).1 ≡ true
      → some_and (lookup key (with_field key missing f map).0) P ≡ true
  unfolding with_field
  mended-with_field P reported mended = elim (Option-cases (lookup key map)) [
    | inl absent ↦ rw (absent, with_field) (λ r. cc)
    | inr (v, present) ↦
        rw (present, with_field) (λ r. rw (lookup-replace, eq_refl, present) (mended v r))
  ]

  pub mended-optional_field :
      (P : Value → Bool)
      → ((v : Value) → all_repaired (f v).1 ≡ true → P (f v).0 ≡ true)
      → all_repaired (with_field key missing f map).1 ≡ true
      → (elim (lookup key (with_field key missing f map).0) [ none ↦ true | some v ↦ P v ]) ≡ true
  unfolding with_field
  mended-optional_field P mended = elim (Option-cases (lookup key map)) [
    | inl absent ↦ rw (absent, with_field) (λ r. rw absent)
    | inr (v, present) ↦
        rw (present, with_field) (λ r. rw (lookup-replace, eq_refl, present) (mended v r))
  ]

  -- The other fields keep their values.
  pub kept-with_field :
      (k : String) → (key == k) ≡ false → lookup k (with_field key missing f map).0 ≡ lookup k map
  unfolding with_field
  kept-with_field k other = elim (Option-cases (lookup key map)) [
    | inl absent ↦ rw (absent, with_field)
    | inr (v, present) ↦ rw (present, with_field) (rw (lookup-replace, other))
  ]
