-- ===== src/MessageFormat/Repair/Payload.antt =====
-- The payload of a record: its update, and the diagnosis of each kind of payload.
use context_guardian.Prelude.{
  ℕ, Bool, true, false, List, Option, none, some, ◌≡◌, refl, sym, ap, ◌∙◌, ◌⊎◌, inl, inr, is_empty,
  is_empty-append, ◌>>=◌, is_empty-parts, all-parts, Bool-apart, map,
}
use context_guardian.Json.{Value, null, object, Map, lookup, get, get_str, as_object}
use context_guardian.MessageFormat.Issue.{
  FormatIssue, Diagnosed, all_repaired, is_repaired, with_payload, set_field,
}
use context_guardian.Json.Laws.{lookup-replace, replace-lookup}
use context_guardian.MessageFormat.Message.{
  Serde, diagnose_summary, diagnose_compacted_history, diagnose_compacted_payload,
}
use context_guardian.MessageFormat.Shape.{object_and, is_compacted}
use context_guardian.MessageFormat.Repair.Message.{
  quiet-summary, unchanged-summary, mended-summary, kept-summary,
}
use context_guardian.MessageFormat.Repair.History.{
  quiet-compacted_history, unchanged-compacted_history, mended-compacted_history,
  kept-compacted_history,
}

-- Writing the payload of a record.
module _ (v : Value) where
  pub get-set_field :
      (value : Value) {w : Value}
      → get "payload" value ≡ some w
      → get "payload" (set_field "payload" v value) ≡ some v
  get-set_field (object map) h = rw (lookup-replace, h)
  get-set_field _ h = cc

  pub get_str-set_field :
      (value : Value) → get_str "type" (set_field "payload" v value) ≡ get_str "type" value
  get_str-set_field (object map) = rw lookup-replace
  get_str-set_field _ = refl

  pub set_field-get :
      (value : Value) → get "payload" value ≡ some v → set_field "payload" v value ≡ value
  set_field-get (object map) h = ap object (replace-lookup "payload" v map h)
  set_field-get _ h = cc

-- A record has an object as its payload, or none.
payload_cases :
    (o : Option Value)
    → ((payload : Map) × (o ≡ some (object payload)))
      ⊎ (((do v ← o; as_object v) ≡ none) × ((P : Map → Bool) → object_and o P ≡ false))
payload_cases none = inr (refl, λ P. refl)
payload_cases (some (object payload)) = inl (payload, refl)
payload_cases (some null) = inr (refl, λ P. refl)
payload_cases (some _) = inr (refl, λ P. refl)

module _ (missing : List FormatIssue) (f : Map → Diagnosed Map) (value : Value) where
  pub quiet-with_payload :
      (P : Map → Bool)
      → is_empty missing ≡ false
      → ((payload : Map) → is_empty (f payload).1 ≡ P payload)
      → is_empty (with_payload missing f value).1 ≡ object_and (get "payload" value) P
  unfolding with_payload
  quiet-with_payload P reported quiet = elim (payload_cases (get "payload" value)) [
    | inl (payload, present) ↦ rw (present, with_payload) (quiet payload)
    | inr (absent, refused) ↦ rw (absent, refused, with_payload) reported
  ]

  pub quiet-object_payload :
      (payload : Map)
      → get "payload" value ≡ some (object payload)
      → is_empty (with_payload missing f value).1 ≡ is_empty (f payload).1
  unfolding with_payload
  quiet-object_payload payload present = rw (present, with_payload)

  pub all_repaired-object_payload :
      (payload : Map)
      → get "payload" value ≡ some (object payload)
      → all_repaired (with_payload missing f value).1 ≡ all_repaired (f payload).1
  unfolding with_payload
  all_repaired-object_payload payload present = rw (present, with_payload)

  pub unchanged-with_payload :
      ((payload : Map) → is_empty (f payload).1 ≡ true → (f payload).0 ≡ payload)
      → is_empty (with_payload missing f value).1 ≡ true
      → (with_payload missing f value).0 ≡ value
  unfolding with_payload
  unchanged-with_payload unchanged = elim (payload_cases (get "payload" value)) [
    | inl (payload, present) ↦
        rw (present, with_payload)
          (λ q. rw (unchanged payload q) (set_field-get (object payload) value present))
    | inr (absent, refused) ↦ rw (absent, with_payload) (λ q. refl)
  ]

  pub get_str-with_payload : get_str "type" (with_payload missing f value).0 ≡ get_str "type" value
  unfolding with_payload
  get_str-with_payload = elim (payload_cases (get "payload" value)) [
    | inl (payload, present) ↦
        rw (present, with_payload) (get_str-set_field (object (f payload).0) value)
    | inr (absent, refused) ↦ rw (absent, with_payload)
  ]

  pub get-with_payload :
      (payload : Map)
      → get "payload" value ≡ some (object payload)
      → get "payload" (with_payload missing f value).0 ≡ some (object (f payload).0)
  unfolding with_payload
  get-with_payload payload present =
      rw (present, with_payload) (get-set_field (object (f payload).0) value present)

  pub mended-with_payload :
      (P : Map → Bool)
      → all_repaired missing ≡ false
      → ((payload : Map) → all_repaired (f payload).1 ≡ true → P (f payload).0 ≡ true)
      → all_repaired (with_payload missing f value).1 ≡ true
      → object_and (get "payload" (with_payload missing f value).0) P ≡ true
  unfolding with_payload
  mended-with_payload P reported mended = elim (payload_cases (get "payload" value)) [
    | inl (payload, present) ↦
        rw (present, with_payload)
          (λ r. rw (get-set_field (object (f payload).0) value present) (mended payload r))
    | inr (absent, refused) ↦
        rw (absent, with_payload) (λ r. absurd (Bool-apart (sym r ∙ reported)))
  ]

module _ (serde : Serde) (idx : ℕ) (payload : Map) where
  is_history-kept :
      lookup "replacement_history" (diagnose_summary idx payload).0
      ≡ lookup "replacement_history" payload
  is_history-kept = kept-summary idx payload "replacement_history" refl

  pub quiet-compacted_payload :
      is_empty (diagnose_compacted_payload serde idx payload).1 ≡ is_compacted payload
  unfolding diagnose_compacted_payload is_compacted
  quiet-compacted_payload = rw (
    is_empty-append,
    quiet-summary idx payload,
    quiet-compacted_history serde idx (diagnose_summary idx payload).0,
    is_history-kept,
  )

  pub unchanged-compacted_payload :
      is_empty (diagnose_compacted_payload serde idx payload).1 ≡ true
      → (diagnose_compacted_payload serde idx payload).0 ≡ payload
  unfolding diagnose_compacted_payload
  unchanged-compacted_payload q =
      let after = (diagnose_summary idx payload).0 in
      let (front, rest) =
        is_empty-parts (diagnose_summary idx payload).1
          (diagnose_compacted_history serde idx after).1 q in
      unchanged-compacted_history serde idx after rest ∙ unchanged-summary idx payload front

  pub mended-compacted_payload :
      all_repaired (diagnose_compacted_payload serde idx payload).1 ≡ true
      → is_compacted (diagnose_compacted_payload serde idx payload).0 ≡ true
  unfolding diagnose_compacted_payload is_compacted
  mended-compacted_payload r =
      let after = (diagnose_summary idx payload).0 in
      let (front, rest) =
        all-parts is_repaired (diagnose_summary idx payload).1
          (diagnose_compacted_history serde idx after).1 r in
      rw (kept-compacted_history serde idx after "message" refl, mended-summary idx payload front)
        (mended-compacted_history serde idx after rest)
