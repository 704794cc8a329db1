-- ===== src/MessageFormat/Repair/UserMessage.antt =====
-- `diagnose_user_message` of src/message_format.rs, for a record that is a user message.
use context_guardian.Prelude.{
  ℕ, true, [], Option, none, some, ◌≡◌, refl, sym, ap, ◌∙◌, is_empty, ◌>>=◌,
}
use context_guardian.Json.{Value, null, object, Map, get, get_str, is_text}
use context_guardian.MessageFormat.Issue.{all_repaired}
use context_guardian.MessageFormat.Record.{
  payload_type, diagnose_user_payload, diagnose_user_message,
}
use context_guardian.MessageFormat.Shape.{object_and, is_user_message}
use context_guardian.MessageFormat.Repair.Payload.{
  quiet-object_payload, all_repaired-object_payload, unchanged-with_payload, get_str-with_payload,
  get-with_payload,
}
use context_guardian.MessageFormat.Repair.User.{
  quiet-user_payload, unchanged-user_payload, kept-user_payload, mended-user_payload,
}

-- A payload whose type is a text is an object.
typed_payload :
    (o : Option Value)
    → is_text "user_message" (do payload ← o; get_str "type" payload) ≡ true
    → (payload : Map) × (o ≡ some (object payload))
typed_payload (some (object payload)) h = (payload, refl)
typed_payload (some null) h = cc
typed_payload (some _) h = cc
typed_payload none h = cc

module _ (idx : ℕ) (value : Value) (user : is_text "user_message" (payload_type value) ≡ true) where
  pub quiet-user_message :
      is_empty (diagnose_user_message idx value).1
      ≡ object_and (get "payload" value) is_user_message
  unfolding diagnose_user_message
  quiet-user_message =
      let (payload, present) = typed_payload (get "payload" value) user in
      quiet-object_payload [] (diagnose_user_payload idx) value payload present
      ∙ (quiet-user_payload idx payload ∙ sym (ap (λ o. object_and o is_user_message) present))

  pub unchanged-user_message :
      is_empty (diagnose_user_message idx value).1 ≡ true
      → (diagnose_user_message idx value).0 ≡ value
  unfolding diagnose_user_message
  unchanged-user_message =
      unchanged-with_payload [] (diagnose_user_payload idx) value (unchanged-user_payload idx)

  -- The repaired record has the same type, and its payload too.
  pub kept-user_message :
      (get_str "type" (diagnose_user_message idx value).0 ≡ get_str "type" value)
      × (payload_type (diagnose_user_message idx value).0 ≡ payload_type value)
  unfolding diagnose_user_message
  kept-user_message =
      let (payload, present) = typed_payload (get "payload" value) user in
      (
        get_str-with_payload [] (diagnose_user_payload idx) value,
        rw (
          get-with_payload [] (diagnose_user_payload idx) value payload present,
          present,
          kept-user_payload idx payload,
        ),
      )

  pub mended-user_message :
      all_repaired (diagnose_user_message idx value).1 ≡ true
      → object_and (get "payload" (diagnose_user_message idx value).0) is_user_message ≡ true
  unfolding diagnose_user_message
  mended-user_message r =
      let (payload, present) = typed_payload (get "payload" value) user in
      rw (get-with_payload [] (diagnose_user_payload idx) value payload present) (
        mended-user_payload idx payload (
          sym (all_repaired-object_payload [] (diagnose_user_payload idx) value payload present)
          ∙ r))
