-- ===== src/Rollout/Attachments.antt =====
-- The two places where src/main.rs takes images out of a record: the output of a tool, and the
-- attachments of a user's message.
pub mod Cleared
pub mod Settled
use context_guardian.Prelude.{
  ℕ, zero, suc, ◌+◌, String, Bool, true, false, Option, none, some, ◌>>=◌, List, [], ◌∷◌, ◌++◌, ltb,
  if◌then◌else◌, ◌==◌, len, length, unwrap_or, is_some, ◌+s◌, decimal, Assoc, find, is_empty,
}
use context_guardian.Json.{
  Value, Items, Map, string, array, object, nil, cons, empty, entry, lookup, lookup_str, get_str,
  as_array, as_object, get, is_text, insert, replace,
}
use context_guardian.MessageFormat.Message.{Serde}
use context_guardian.Capture.Bytes.{trim}
use context_guardian.Rollout.Evidence.{ToolCallInfo, preview, contains_text}
use context_guardian.Rollout.Images.{inline_data_image_bytes, scrub_inline_images}

-- A value with its payload put back.
abbrev pub with_payload : Value → Map → Value
with_payload (object record_map) payload = object (replace "payload" (object payload) record_map)
with_payload value payload = value

abbrev pub payload_of : Value → Option Map
payload_of value = do payload ← get "payload" value; as_object payload

abbrev pub path_of : Option ToolCallInfo → String
path_of none = "unknown image path"
path_of (some info) = unwrap_or info.image_path "unknown image path"

abbrev pub if_removed : Value → Value × ℕ → Value × Option ℕ
if_removed value (scrubbed, removed) =
    if ltb 0 removed then (scrubbed, some removed) else (scrubbed, none)

module _ (publish_data_uri : String → Option String) where
  -- `prune_inline_image_output`: the value afterwards, and what was removed, if anything.
  unfoldable pub prune_payload :
      Assoc ToolCallInfo → String → Value → Map → Value → Value × Option ℕ
  prune_payload tool_calls thread_id value payload output =
      let call_id = unwrap_or (lookup_str "call_id" payload) "unknown-call" in
      let (scrubbed, removed) =
        scrub_inline_images publish_data_uri thread_id (path_of (find call_id tool_calls)) output in
      if_removed value (with_payload value (replace "output" scrubbed payload), removed)

  unfoldable pub prune_inline_image_output : Value → Assoc ToolCallInfo → String → Value × Option ℕ
  prune_inline_image_output value tool_calls thread_id = elim (payload_of value) [
    | none ↦ (value, none)
    | some payload ↦
        if is_text "function_call_output" (lookup_str "type" payload)
        then elim (lookup "output" payload) [
          | none ↦ (value, none)
          | some output ↦ prune_payload tool_calls thread_id value payload output
        ]
        else (value, none)
  ]

-- The length of a file, where the file system gives one.
module _ (serde : Serde) (file_length : String → Option ℕ) where
  unfoldable pub image_reference_preview : Value → String
  image_reference_preview (string text) = preview text 300
  image_reference_preview other = preview (unwrap_or (serde.encode other) "") 300

  abbrev pub length_or : Option String → String → ℕ
  length_or none reference = len reference
  length_or (some text) reference = len text

  abbrev pub reference_bytes : Value → String → ℕ
  reference_bytes (string path) reference = unwrap_or (file_length path) (len path)
  reference_bytes other reference = length_or (serde.encode other) reference

  unfoldable pub estimate_image_reference_bytes : Value → String → ℕ
  estimate_image_reference_bytes item reference =
      if ltb 0 (inline_data_image_bytes item)
      then inline_data_image_bytes item
      else reference_bytes item reference

  unfoldable pub user_image_placeholder : String → String → Value → String × ℕ
  user_image_placeholder thread_id field item =
      let reference = image_reference_preview item in
      let bytes = estimate_image_reference_bytes item reference in
      (
        "[context-guardian:user-image-placeholder thread="
            +s thread_id
            +s " field="
            +s field
            +s " estimated_removed_bytes="
            +s decimal bytes
            +s " original="
            +s reference
            +s "]",
        bytes,
      )

  -- The loop over the items of one field.
  unfoldable pub placeholders_of : String → String → Items → List String × ℕ
  placeholders_of thread_id field nil = ([], 0)
  placeholders_of thread_id field (cons item items) =
      let (placeholder, bytes) = user_image_placeholder thread_id field item in
      let (placeholders, removed) = placeholders_of thread_id field items in
      (placeholder ∷ placeholders, bytes + removed)

  -- One turn of the loop over the fields, with the payload, the placeholders and the bytes so far.
  unfoldable pub clear_field : String → String → Map × List String × ℕ → Map × List String × ℕ
  clear_field thread_id field (payload, so_far, removed) =
      elim (do value ← lookup field payload; as_array value) [
        | none ↦ (payload, so_far, removed)
        | some items ↦
            let (placeholders, bytes) = placeholders_of thread_id field items in
            (replace field (array nil) payload, so_far ++ placeholders, removed + bytes)
      ]

  unfoldable pub note_of : ℕ → String
  note_of count =
      "\n\n[context-guardian removed "
      +s decimal count
      +s " image attachment(s) from this historical user message. The image references are preserved in payload.image_placeholders so future context rebuilds do not inline large image bodies.]"

  -- `append_user_image_placeholder_note`
  abbrev pub noted : Option Value → Map → String → Map
  noted (some (string message)) payload note =
      if contains_text message "payload.image_placeholders"
      then payload
      else replace "message" (string (message +s note)) payload
  noted other payload note = insert "message" (string (trim note)) payload

  unfoldable pub append_user_image_placeholder_note : Map → ℕ → Map
  append_user_image_placeholder_note payload count =
      noted (lookup "message" payload) payload (note_of count)

  abbrev pub items_of : List String → Items
  items_of [] = nil
  items_of (text ∷ texts) = cons (string text) (items_of texts)

  -- The end of `scrub_user_message_images`.
  abbrev pub finish_message : Value → Map × List String × ℕ → Value × ℕ × ℕ
  finish_message value (payload, placeholders, removed) =
      if is_empty placeholders then (value, 0, 0) else (
        with_payload value (
            append_user_image_placeholder_note
              (insert "image_placeholders" (array (items_of placeholders)) payload)
              (length placeholders)),
        length placeholders,
        removed,
      )

  -- The value afterwards, the number of attachments and the number of bytes that were removed.
  unfoldable pub scrub_user_message_images : Value → String → Value × ℕ × ℕ
  scrub_user_message_images value thread_id =
      if is_text "event_msg" (get_str "type" value)
      then elim (payload_of value) [
        | none ↦ (value, 0, 0)
        | some payload ↦
            if is_text "user_message" (lookup_str "type" payload)
            then finish_message value (
                clear_field thread_id "local_images"
                  (clear_field thread_id "images" (payload, [], 0)))
            else (value, 0, 0)
      ]
      else (value, 0, 0)
