-- ===== src/MessageFormat/Repair/ResponsePayload.antt =====
-- Payloads of response items: no issue exactly where they are well formed, and
-- well-formed ones where all issues were repaired.
use context_guardian.Prelude.{
  ℕ, String, true, false, ◌||◌, List, Option, none, some, ◌≡◌, refl, ◌∙◌, arith, ◌==◌, eq_iff,
  is_empty, map,
}
use context_guardian.Json.{Value, object, Map, lookup_str}
use context_guardian.MessageFormat.Issue.{FormatIssue, all_repaired}
use context_guardian.MessageFormat.Message.{
  diagnose_message_type, diagnose_message, Serde, diagnose_message_map,
}
use context_guardian.MessageFormat.Record.{
  diagnose_function_call, diagnose_tool_output, Answer, diagnose_payload, diagnose_arguments,
  diagnose_output,
}
use context_guardian.MessageFormat.Shape.{
  is_payload, is_message, is_message_map, is_function_call, is_tool_output,
}
use context_guardian.MessageFormat.Repair.Message.{
  lookup_str-of, mended-message_type, quiet-message, unchanged-message, kept-message_type,
}
use context_guardian.MessageFormat.Repair.Tool.{
  quiet-function_call, unchanged-function_call, quiet-tool_output, unchanged-tool_output,
  kept-output, kept-arguments, mended-function_call, mended-tool_output,
}

abbrev pub issues_of : Answer → List FormatIssue
issues_of a = a.0.1

abbrev pub value_of : Answer → Value
value_of a = a.0.0

module _ (serde : Serde) (idx : ℕ) (map : Map) where
  pub quiet-payload :
      (t : Option String)
      → lookup_str "type" map ≡ t
      → is_empty (issues_of (diagnose_payload serde idx (object map) t)) ≡ is_payload (object map)
  unfolding diagnose_payload is_payload is_message
  quiet-payload none h = rw (h, is_payload)
  quiet-payload (some t) h =
      rw (h, is_payload)
        (ground (
          arith,
          quiet-message idx "payload" (object map),
          quiet-function_call serde idx map,
          quiet-tool_output serde idx map,
        ))

  pub unchanged-payload :
      (t : Option String)
      → is_empty (issues_of (diagnose_payload serde idx (object map) t)) ≡ true
      → value_of (diagnose_payload serde idx (object map) t) ≡ object map
  unfolding diagnose_payload
  unchanged-payload none q = refl
  unchanged-payload (some t) q = ground (
    arith,
    unchanged-message idx "payload" (object map),
    unchanged-function_call serde idx map,
    unchanged-tool_output serde idx map,
  )

-- A payload with a type of text is judged by that type.
is_payload-message :
    (map : Map)
    → lookup_str "type" map ≡ some "message"
    → is_payload (object map) ≡ is_message_map map
unfolding is_payload
is_payload-message map h = rw (h, is_payload)

is_payload-function_call :
    (map : Map)
    → lookup_str "type" map ≡ some "function_call"
    → is_payload (object map) ≡ is_function_call map
unfolding is_payload
is_payload-function_call map h = rw (h, is_payload)

is_payload-tool_output :
    (map : Map) (t : String)
    → lookup_str "type" map ≡ some t
    → (t == "function_call_output" || t == "custom_tool_call_output") ≡ true
    → is_payload (object map) ≡ is_tool_output map
unfolding is_payload
is_payload-tool_output map t h k =
    rw (h, is_payload)
      (ground (
        arith,
        eq_iff t "message",
        eq_iff t "function_call",
        eq_iff t "function_call_output",
        eq_iff t "custom_tool_call_output",
        eq_iff "message" "function_call_output",
        eq_iff "message" "custom_tool_call_output",
        eq_iff "function_call" "function_call_output",
        eq_iff "function_call" "custom_tool_call_output",
      ))

is_payload-other :
    (map : Map) (t : String)
    → lookup_str "type" map ≡ some t
    → (t == "message") ≡ false
    → (t == "function_call") ≡ false
    → (t == "function_call_output" || t == "custom_tool_call_output") ≡ false
    → is_payload (object map) ≡ true
unfolding is_payload
is_payload-other map t h a b c = rw (h, is_payload) (rw (a, b, c))

module _ (serde : Serde) (idx : ℕ) (map : Map) where
  mended-message_payload :
      lookup_str "type" map ≡ some "message"
      → all_repaired (diagnose_message idx "payload" (object map)).1 ≡ true
      → is_payload (diagnose_message idx "payload" (object map)).0 ≡ true
  unfolding diagnose_message diagnose_message_map is_message
  mended-message_payload h =
      let after = (diagnose_message_type idx "payload" map (some "message")).0 in
      rw h (λ r.
        is_payload-message after
          (lookup_str-of "type" after map (kept-message_type idx "payload" map "type" refl) ∙ h)
        ∙ mended-message_type idx "payload" map (some "message") h r)

  mended-function_payload :
      lookup_str "type" map ≡ some "function_call"
      → all_repaired (diagnose_function_call serde idx (object map)).1 ≡ true
      → is_payload (diagnose_function_call serde idx (object map)).0 ≡ true
  mended-function_payload h r =
      let after = (diagnose_arguments serde idx map).0 in
      unfold diagnose_function_call in
      is_payload-function_call after
        (lookup_str-of "type" after map (kept-arguments serde idx map "type" refl) ∙ h)
      ∙ mended-function_call serde idx map r

  mended-output_payload :
      (t : String)
      → lookup_str "type" map ≡ some t
      → (t == "function_call_output" || t == "custom_tool_call_output") ≡ true
      → all_repaired (diagnose_tool_output serde idx (object map)).1 ≡ true
      → is_payload (diagnose_tool_output serde idx (object map)).0 ≡ true
  mended-output_payload t h k r =
      let after = (diagnose_output serde idx map).0 in
      unfold diagnose_tool_output in
      is_payload-tool_output after t
        (lookup_str-of "type" after map (kept-output serde idx map "type" refl) ∙ h) k
      ∙ mended-tool_output serde idx map r

  pub mended-payload :
      (t : Option String)
      → lookup_str "type" map ≡ t
      → all_repaired (issues_of (diagnose_payload serde idx (object map) t)) ≡ true
      → is_payload (value_of (diagnose_payload serde idx (object map) t)) ≡ true
  unfolding diagnose_payload
  mended-payload none h r = unfold is_payload in rw (h, is_payload)
  mended-payload (some t) h r = ground (
    arith,
    eq_iff t "message",
    eq_iff t "function_call",
    mended-message_payload,
    mended-function_payload,
    mended-output_payload t,
    is_payload-other map t,
  )
