-- ===== src/Rollout/Attachments/Settled.antt =====
-- A user's message from which `scrub_user_message_images` of src/main.rs took the images.
use mathlib.Core.Path.{subst}
use context_guardian.Prelude.{
  ℕ, String, true, Option, some, [], is_empty, ◌≡◌, refl, sym, ap, ◌∙◌, inl, inr, Bool-cases,
  Option-cases, none_apart, bind_parts,
}
use context_guardian.Json.{
  Value, Map, null, boolean, number, string, array, object, lookup, lookup_str, get_str, as_object,
  is_text, replace,
}
use context_guardian.Json.Laws.{lookup-replace}
use context_guardian.MessageFormat.Message.{Serde}
use context_guardian.Rollout.Attachments.{with_payload, payload_of, scrub_user_message_images}
use context_guardian.Rollout.Attachments.Cleared.{
  clear, clear_both, settled, lookup-clear, lookup-finished, clear_both-settled,
}

the_map : (p q : Map) → some p ≡ some q → p ≡ q
the_map p q h = cc

object_there :
    (value : Value) (payload : Map) → as_object value ≡ some payload → value ≡ object payload
object_there (object map) payload h = ap object (the_map map payload h)
object_there null payload h = absurd (none_apart h)
object_there (boolean b) payload h = absurd (none_apart h)
object_there (number n) payload h = absurd (none_apart h)
object_there (string text) payload h = absurd (none_apart h)
object_there (array items) payload h = absurd (none_apart h)

payload_there :
    (record_map payload : Map)
    → payload_of (object record_map) ≡ some payload
    → lookup "payload" record_map ≡ some (object payload)
payload_there record_map payload h =
    let (value, found, inner) = bind_parts (lookup "payload" record_map) _ payload h in
    found ∙ ap some (object_there value payload inner)

module _ (serde : Serde) (file_length : String → Option ℕ) (thread_id : String) where
  abbrev scrub : Value → Value × ℕ × ℕ
  scrub value = scrub_user_message_images serde file_length value thread_id

  abbrev Settles : Value → Type 0
  Settles value = scrub (scrub value).0 ≡ ((scrub value).0, 0, 0)

  -- Where nothing was done, nothing is done again.
  idle-Settles : (value : Value) → scrub value ≡ (value, 0, 0) → Settles value
  idle-Settles value idle = rw (idle) idle

  -- A record whose payload was settled.
  settled_idle :
      (record_map payload : Map)
      → is_text "event_msg" (get_str "type" (object record_map)) ≡ true
      → lookup "payload" record_map ≡ some (object payload)
      → is_text "user_message" (lookup_str "type" payload) ≡ true
      → scrub (with_payload (object record_map) (settled serde file_length thread_id payload))
        ≡ (with_payload (object record_map) (settled serde file_length thread_id payload), 0, 0)
  unfolding scrub_user_message_images
  settled_idle record_map payload event there user =
      let new =
        replace "payload" (object (settled serde file_length thread_id payload)) record_map in
      let type_stays : lookup "type" new ≡ lookup "type" record_map =
        lookup-replace "payload" "type" (object (settled serde file_length thread_id payload))
          record_map in
      let payload_there : lookup "payload" new
          ≡ some (object (settled serde file_length thread_id payload)) =
        rw
          (
            lookup-replace "payload" "payload"
                (object (settled serde file_length thread_id payload)) record_map,
            there,
          )
          refl in
      let inner_type : lookup "type" (settled serde file_length thread_id payload)
          ≡ lookup "type" payload =
        lookup-finished serde file_length thread_id "type"
          (clear_both serde file_length thread_id payload).0
          (clear_both serde file_length thread_id payload).1 refl refl
        ∙ lookup-clear serde file_length thread_id "local_images" "type"
            (clear serde file_length thread_id "images" (payload, [], 0)) refl
        ∙ lookup-clear serde file_length thread_id "images" "type" (payload, [], 0) refl in
      rw
        (
          scrub_user_message_images,
          type_stays,
          event,
          payload_there,
          inner_type,
          user,
          clear_both-settled serde file_length thread_id payload,
        )
        refl

  -- A message with attachments in the payload.
  message-Settles :
      (record_map payload : Map)
      → is_text "event_msg" (get_str "type" (object record_map)) ≡ true
      → lookup "payload" record_map ≡ some (object payload)
      → is_text "user_message" (lookup_str "type" payload) ≡ true
      → Settles (object record_map)
  unfolding scrub_user_message_images
  message-Settles record_map payload event there user =
      elim (Bool-cases (is_empty (clear_both serde file_length thread_id payload).1)) [
        | inl nothing ↦
            idle-Settles (object record_map)
              (rw (scrub_user_message_images, event, there, user, nothing) refl)
        | inr found ↦
            let done : (scrub (object record_map)).0
                ≡ with_payload (object record_map) (settled serde file_length thread_id payload) =
              rw (scrub_user_message_images, event, there, user, found) refl in
            subst (λ v. scrub v ≡ (v, 0, 0)) (sym done)
              (settled_idle record_map payload event there user)
      ]

  record-Settles : (record_map : Map) → Settles (object record_map)
  unfolding scrub_user_message_images
  record-Settles record_map =
      elim (Bool-cases (is_text "event_msg" (get_str "type" (object record_map)))) [
        | inr other ↦ idle-Settles (object record_map) (rw (scrub_user_message_images, other) refl)
        | inl event ↦ elim (Option-cases (payload_of (object record_map))) [
          | inl missing ↦
              idle-Settles (object record_map) (rw (scrub_user_message_images, event, missing) refl)
          | inr (payload, there) ↦
              elim (Bool-cases (is_text "user_message" (lookup_str "type" payload))) [
                | inr other ↦
                    idle-Settles (object record_map)
                      (rw (scrub_user_message_images, event, there, other) refl)
                | inl user ↦
                    message-Settles record_map payload event
                      (payload_there record_map payload there) user
              ]
        ]
      ]

  -- A second run takes nothing more from a record and leaves it as it is.
  pub scrub_user_message_images-settles :
      (value : Value)
      → scrub_user_message_images serde file_length
          (scrub_user_message_images serde file_length value thread_id).0
          thread_id
        ≡ ((scrub_user_message_images serde file_length value thread_id).0, 0, 0)
  unfolding scrub_user_message_images
  scrub_user_message_images-settles (object record_map) = record-Settles record_map
  scrub_user_message_images-settles value = refl
