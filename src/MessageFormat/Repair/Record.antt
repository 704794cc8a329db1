-- ===== src/MessageFormat/Repair/Record.antt =====
-- Records: `diagnose_record` of src/message_format.rs reports no issue exactly of the well-formed
-- records and then changes nothing; and where all issues were repaired, the result is well formed.
use context_guardian.Prelude.{
  ℕ, String, true, false, ◌&&◌, Option, none, some, ◌≡◌, refl, ap, ◌∙◌, inl, inr, arith, ◌==◌,
  eq_iff, is_empty, Option-cases, map,
}
use context_guardian.Json.{Value, object, lookup_str, get, get_str, is_text}
use context_guardian.MessageFormat.Issue.{issue, all_repaired}
use context_guardian.MessageFormat.Message.{Serde, diagnose_compacted, diagnose_compacted_payload}
use context_guardian.MessageFormat.Record.{
  payload_type, diagnose_payload, diagnose_user_message, diagnose_response_item, diagnose_typed,
  diagnose_record,
}
use context_guardian.MessageFormat.Shape.{
  some_and, object_and, is_compacted, is_payload, is_user_message, is_record,
}
use context_guardian.MessageFormat.Repair.UserMessage.{
  quiet-user_message, unchanged-user_message, mended-user_message, kept-user_message,
}
use context_guardian.MessageFormat.Repair.Payload.{
  get-set_field, get_str-set_field, set_field-get, quiet-with_payload, unchanged-with_payload,
  get_str-with_payload, mended-with_payload, quiet-compacted_payload, unchanged-compacted_payload,
  mended-compacted_payload,
}
use context_guardian.MessageFormat.Repair.ResponsePayload.{
  issues_of, value_of, quiet-payload, unchanged-payload, mended-payload,
}

module _ (serde : Serde) (idx : ℕ) where
  quiet-any_payload :
      (payload : Value)
      → is_empty (issues_of (diagnose_payload serde idx payload (get_str "type" payload)))
        ≡ is_payload payload
  quiet-any_payload (object map) = quiet-payload serde idx map (lookup_str "type" map) refl
  quiet-any_payload _ = unfold diagnose_payload is_payload in refl

  unchanged-any_payload :
      (payload : Value)
      → is_empty (issues_of (diagnose_payload serde idx payload (get_str "type" payload))) ≡ true
      → value_of (diagnose_payload serde idx payload (get_str "type" payload)) ≡ payload
  unchanged-any_payload (object map) q = unchanged-payload serde idx map (lookup_str "type" map) q
  unchanged-any_payload _ q = unfold diagnose_payload in refl

  mended-any_payload :
      (payload : Value)
      → all_repaired (issues_of (diagnose_payload serde idx payload (get_str "type" payload)))
        ≡ true
      → is_payload (value_of (diagnose_payload serde idx payload (get_str "type" payload))) ≡ true
  mended-any_payload (object map) r = mended-payload serde idx map (lookup_str "type" map) refl r
  mended-any_payload _ r = unfold diagnose_payload is_payload in refl

  quiet-response_item :
      (value : Value)
      → is_empty (issues_of (diagnose_response_item serde idx value))
        ≡ some_and (get "payload" value) is_payload
  unfolding diagnose_response_item
  quiet-response_item value = elim (Option-cases (get "payload" value)) [
    | inl absent ↦ rw (absent, diagnose_response_item)
    | inr (payload, present) ↦ rw (present, diagnose_response_item) (quiet-any_payload payload)
  ]

  unchanged-response_item :
      (value : Value)
      → is_empty (issues_of (diagnose_response_item serde idx value)) ≡ true
      → value_of (diagnose_response_item serde idx value) ≡ value
  unfolding diagnose_response_item
  unchanged-response_item value = elim (Option-cases (get "payload" value)) [
    | inl absent ↦ rw (absent, diagnose_response_item) (λ q. refl)
    | inr (payload, present) ↦
        rw (present, diagnose_response_item)
          (λ q. rw (unchanged-any_payload payload q) (set_field-get payload value present))
  ]

  mended-response_item :
      (value : Value)
      → all_repaired (issues_of (diagnose_response_item serde idx value)) ≡ true
      → (some_and (get "payload" (value_of (diagnose_response_item serde idx value))) is_payload
          ≡ true)
        × (get_str "type" (value_of (diagnose_response_item serde idx value))
            ≡ get_str "type" value)
  unfolding diagnose_response_item
  mended-response_item value = elim (Option-cases (get "payload" value)) [
    | inl absent ↦ rw (absent, diagnose_response_item) (λ r. cc)
    | inr (payload, present) ↦
        let after = value_of (diagnose_payload serde idx payload (get_str "type" payload)) in
        rw (present, diagnose_response_item)
          (λ r. (
            rw (get-set_field after value present) (mended-any_payload payload r),
            get_str-set_field after value,
          ))
  ]

-- A record of a known kind whose payload has the shape of the kind.
is_record-compacted :
    (value : Value)
    → get_str "type" value ≡ some "compacted"
    → object_and (get "payload" value) is_compacted ≡ true
    → is_record value ≡ true
unfolding is_record
is_record-compacted value h p = rw (h, is_record) p

is_record-response_item :
    (value : Value)
    → get_str "type" value ≡ some "response_item"
    → some_and (get "payload" value) is_payload ≡ true
    → is_record value ≡ true
unfolding is_record
is_record-response_item value h p = rw (h, is_record) p

is_record-user_message :
    (value : Value)
    → get_str "type" value ≡ some "event_msg"
    → is_text "user_message" (payload_type value) ≡ true
    → object_and (get "payload" value) is_user_message ≡ true
    → is_record value ≡ true
unfolding is_record
is_record-user_message value h u p = rw (h, is_record) (rw u p)

module _ (serde : Serde) (idx : ℕ) (value : Value) where
  quiet-compacted :
      is_empty (diagnose_compacted serde idx value).1
      ≡ object_and (get "payload" value) is_compacted
  unfolding diagnose_compacted
  quiet-compacted =
      quiet-with_payload (issue idx "payload" "object" (get "payload" value) false)
        (diagnose_compacted_payload serde idx) value is_compacted refl
        (quiet-compacted_payload serde idx)

  unchanged-compacted :
      is_empty (diagnose_compacted serde idx value).1 ≡ true
      → (diagnose_compacted serde idx value).0 ≡ value
  unfolding diagnose_compacted
  unchanged-compacted =
      unchanged-with_payload (issue idx "payload" "object" (get "payload" value) false)
        (diagnose_compacted_payload serde idx) value (unchanged-compacted_payload serde idx)

  mended-compacted :
      all_repaired (diagnose_compacted serde idx value).1 ≡ true
      → (object_and (get "payload" (diagnose_compacted serde idx value).0) is_compacted ≡ true)
        × (get_str "type" (diagnose_compacted serde idx value).0 ≡ get_str "type" value)
  unfolding diagnose_compacted
  mended-compacted r =
      let missing = issue idx "payload" "object" (get "payload" value) false in
      (
        mended-with_payload missing (diagnose_compacted_payload serde idx) value is_compacted refl
            (mended-compacted_payload serde idx) r,
        get_str-with_payload missing (diagnose_compacted_payload serde idx) value,
      )

  quiet-typed :
      (t : Option String)
      → get_str "type" value ≡ t
      → is_empty (issues_of (diagnose_typed serde idx value t)) ≡ is_record value
  unfolding diagnose_typed is_record
  quiet-typed none h = rw (h, is_record)
  quiet-typed (some t) h =
      rw (h, is_record)
        (ground (
          arith,
          quiet-compacted,
          quiet-response_item serde idx value,
          quiet-user_message idx value,
        ))

  unchanged-typed :
      (t : Option String)
      → is_empty (issues_of (diagnose_typed serde idx value t)) ≡ true
      → value_of (diagnose_typed serde idx value t) ≡ value
  unfolding diagnose_typed
  unchanged-typed none q = refl
  unchanged-typed (some t) q = ground (
    arith,
    unchanged-compacted,
    unchanged-response_item serde idx value,
    unchanged-user_message idx value,
  )

  mended-user_record :
      get_str "type" value ≡ some "event_msg"
      → is_text "user_message" (payload_type value) ≡ true
      → all_repaired (diagnose_user_message idx value).1 ≡ true
      → is_record (diagnose_user_message idx value).0 ≡ true
  mended-user_record h u r =
      let (same_type, same_payload) = kept-user_message idx value u in
      is_record-user_message (diagnose_user_message idx value).0 (same_type ∙ h)
        (ap (is_text "user_message") same_payload ∙ u) (mended-user_message idx value u r)

  mended-compacted_record :
      get_str "type" value ≡ some "compacted"
      → all_repaired (diagnose_compacted serde idx value).1 ≡ true
      → is_record (diagnose_compacted serde idx value).0 ≡ true
  mended-compacted_record h r =
      let (shape, same_type) = mended-compacted r in
      is_record-compacted (diagnose_compacted serde idx value).0 (same_type ∙ h) shape

  mended-item_record :
      get_str "type" value ≡ some "response_item"
      → all_repaired (issues_of (diagnose_response_item serde idx value)) ≡ true
      → is_record (value_of (diagnose_response_item serde idx value)) ≡ true
  mended-item_record h r =
      let (shape, same_type) = mended-response_item serde idx value r in
      is_record-response_item (value_of (diagnose_response_item serde idx value)) (same_type ∙ h)
        shape

  -- A record that is of no kind that is checked.
  unchecked-record :
      (t : String)
      → get_str "type" value ≡ some t
      → (t == "compacted") ≡ false
      → (t == "response_item") ≡ false
      → (t == "event_msg" && is_text "user_message" (payload_type value)) ≡ false
      → is_record value ≡ true
  unfolding is_record
  unchecked-record t h a b c = rw (h, is_record) (rw (a, b, c))

  mended-typed :
      (t : Option String)
      → get_str "type" value ≡ t
      → all_repaired (issues_of (diagnose_typed serde idx value t)) ≡ true
      → is_record (value_of (diagnose_typed serde idx value t)) ≡ true
  unfolding diagnose_typed
  mended-typed none h r = unfold is_record in rw (h, is_record)
  mended-typed (some t) h r = ground (
    arith,
    eq_iff t "compacted",
    eq_iff t "response_item",
    eq_iff t "event_msg",
    mended-compacted_record,
    mended-item_record,
    mended-user_record,
    unchecked-record t,
  )

  -- A record is reported on exactly where it does not have the shape of its kind.
  pub is_empty-diagnose_record :
      is_empty (issues_of (diagnose_record serde idx value)) ≡ is_record value
  unfolding diagnose_record
  is_empty-diagnose_record = quiet-typed (get_str "type" value) refl

  -- A record of which no issue is reported is left exactly as it is.
  pub diagnose_record-unchanged :
      is_empty (issues_of (diagnose_record serde idx value)) ≡ true
      → value_of (diagnose_record serde idx value) ≡ value
  unfolding diagnose_record
  diagnose_record-unchanged = unchanged-typed (get_str "type" value)

  -- Where every issue of a record was repaired, the repaired record has the shape of its kind.
  pub is_record-diagnose_record :
      all_repaired (issues_of (diagnose_record serde idx value)) ≡ true
      → is_record (value_of (diagnose_record serde idx value)) ≡ true
  unfolding diagnose_record
  is_record-diagnose_record = mended-typed (get_str "type" value) refl
