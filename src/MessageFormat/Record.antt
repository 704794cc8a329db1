-- ===== src/MessageFormat/Record.antt =====
-- `require_nonempty_string`, `diagnose_function_call`, `diagnose_tool_output`,
-- `diagnose_user_message`, `diagnose_response_item`, `diagnose_record` and `diagnose_records` of
-- src/message_format.rs.
use context_guardian.Prelude.{
  ℕ, ◌+◌, String, Bool, true, false, not, ◌&&◌, ◌||◌, List, [], ◌∷◌, ◌++◌, Option, none, some, ◌==◌,
  if◌then◌else◌, ◌+s◌, ◌>>=◌, length, map,
}
use context_guardian.Json.{
  Value, null, string, array, object, nil, Map, lookup, lookup_str, get, get_str, is_text,
  contains_key, value_eq,
}
use context_guardian.MessageFormat.Issue.{
  FormatIssue, Diagnosed, issue, any_repaired, with_field, with_payload, set_field,
  count_unrepaired,
}
use context_guardian.MessageFormat.Content.{normalize_content_container}
use context_guardian.MessageFormat.Message.{
  Serde, is_string, diagnose_summary, diagnose_message, diagnose_compacted,
}

-- `map.get(key).and_then(Value::as_str).is_none_or(str::is_empty)`
abbrev pub lacks_text : String → Map → Bool
lacks_text key map = elim (lookup_str key map) [ none ↦ true | some text ↦ text == "" ]

unfoldable pub require_nonempty_string : Map → String → ℕ → String → List FormatIssue
require_nonempty_string map key idx path =
    if lacks_text key map then issue idx path "non-empty string" (lookup key map) false else []

module _ (serde : Serde) where
  unfoldable pub check_arguments : ℕ → Value → Diagnosed Value
  check_arguments idx arguments =
      if is_string arguments then (arguments, []) else elim (serde.encode arguments) [
        | none ↦ (
          arguments,
          issue idx "payload.arguments" "JSON encoded as a string" (some arguments) false,
        )
        | some text ↦ (
          string text,
          issue idx "payload.arguments" "JSON encoded as a string" (some arguments) true,
        )
      ]

  unfoldable pub diagnose_arguments : ℕ → Map → Diagnosed Map
  diagnose_arguments idx =
      with_field "arguments" (issue idx "payload.arguments" "JSON encoded as a string" none false)
        (check_arguments idx)

  unfoldable pub diagnose_function_call : ℕ → Value → Diagnosed Value
  diagnose_function_call idx (object map) =
      let (after, issues) = diagnose_arguments idx map in
      (
        object after,
        require_nonempty_string map "call_id" idx "payload.call_id"
            ++ (require_nonempty_string map "name" idx "payload.name" ++ issues),
      )
  diagnose_function_call idx payload = (payload, [])

  -- The last arm of the `match output` of `diagnose_tool_output`.
  unfoldable pub encode_output : ℕ → Value → Diagnosed Value
  encode_output idx output =
      let report = issue idx "payload.output" "string or typed content array" (some output) in
      elim (serde.encode output) [
        | none ↦ (output, report false)
        | some text ↦ (string text, report true)
      ]

  unfoldable pub normalize_output : ℕ → Value → Diagnosed Value
  normalize_output idx (string text) = (string text, [])
  normalize_output idx (array items) =
      normalize_content_container idx "payload.output" "input_text" (array items)
  normalize_output idx (object map) =
      if contains_key "type" map || contains_key "text" map
      then normalize_content_container idx "payload.output" "input_text" (object map)
      else encode_output idx (object map)
  normalize_output idx output = encode_output idx output

  unfoldable pub diagnose_output : ℕ → Map → Diagnosed Map
  diagnose_output idx =
      with_field "output" (issue idx "payload.output" "string or typed content array" none false)
        (normalize_output idx)

  unfoldable pub diagnose_tool_output : ℕ → Value → Diagnosed Value
  diagnose_tool_output idx (object map) =
      let (after, issues) = diagnose_output idx map in
      (object after, require_nonempty_string map "call_id" idx "payload.call_id" ++ issues)
  diagnose_tool_output idx payload = (payload, [])

abbrev pub is_array : Value → Bool
is_array (array items) = true
is_array _ = false

abbrev pub is_null : Value → Bool
is_null null = true
is_null _ = false

-- One round of the `for field in [...]` of `diagnose_user_message`.
unfoldable pub check_list : ℕ → String → Value → Diagnosed Value
check_list idx field value = if is_array value then (value, []) else (
  if is_null value then array nil else value,
  issue idx ("payload." +s field) "array" (some value) (is_null value),
)

unfoldable pub diagnose_list_field : ℕ → String → Map → Diagnosed Map
diagnose_list_field idx field = with_field field [] (check_list idx field)

unfoldable pub diagnose_list_fields : ℕ → List String → Map → Diagnosed Map
diagnose_list_fields idx [] payload = (payload, [])
diagnose_list_fields idx (field ∷ fields) payload =
    let (after, issues) = diagnose_list_field idx field payload in
    let (rest, more) = diagnose_list_fields idx fields after in (rest, issues ++ more)

abbrev pub list_fields : List String
list_fields = "images" ∷ "local_images" ∷ "text_elements" ∷ []

-- `diagnose_user_message` behind the check of the payload.
unfoldable pub diagnose_user_payload : ℕ → Map → Diagnosed Map
diagnose_user_payload idx payload =
    let (checked, issues) = diagnose_summary idx payload in
    let (after, more) = diagnose_list_fields idx list_fields checked in (after, issues ++ more)

unfoldable pub diagnose_user_message : ℕ → Value → Diagnosed Value
diagnose_user_message idx = with_payload [] (diagnose_user_payload idx)

abbrev pub payload_type : Value → Option String
payload_type value = do payload ← get "payload" value; get_str "type" payload

-- A diagnosis, or the answer that the record is not one of those that are checked.
abbrev pub Answer : Type 0
Answer = Diagnosed Value × Bool

module _ (serde : Serde) where
  -- The `match payload_type` of `diagnose_response_item`.
  unfoldable pub diagnose_payload : ℕ → Value → Option String → Answer
  diagnose_payload idx payload none = ((payload, []), false)
  diagnose_payload idx payload (some t) =
      if t == "message"
      then (diagnose_message idx "payload" payload, true)
      else if t == "function_call"
      then (diagnose_function_call serde idx payload, true)
      else if t == "function_call_output" || t == "custom_tool_call_output"
      then (diagnose_tool_output serde idx payload, true)
      else ((payload, []), false)

  unfoldable pub diagnose_response_item : ℕ → Value → Answer
  diagnose_response_item idx value = elim (get "payload" value) [
    | none ↦ ((value, issue idx "payload" "object" none false), true)
    | some payload ↦
        let ((after, issues), checked) = diagnose_payload idx payload (get_str "type" payload) in
        ((set_field "payload" after value, issues), checked)
  ]

  -- The `match` of `diagnose_record` on the type of the record.
  unfoldable pub diagnose_typed : ℕ → Value → Option String → Answer
  diagnose_typed idx value none = ((value, []), false)
  diagnose_typed idx value (some t) =
      if t == "compacted"
      then (diagnose_compacted serde idx value, true)
      else if t == "response_item"
      then diagnose_response_item idx value
      else if (t == "event_msg") && is_text "user_message" (payload_type value)
      then (diagnose_user_message idx value, true)
      else ((value, []), false)

  unfoldable pub diagnose_record : ℕ → Value → Answer
  diagnose_record idx value = diagnose_typed idx value (get_str "type" value)

-- The repaired values are a map from record indexes, kept here as a list of its entries.
pub record MessageDiagnosis : Type 0 where
  pub checked_records : ℕ
  pub issues : List FormatIssue
  pub repaired_values : List (ℕ × Value)

unfoldable pub repaired_records : MessageDiagnosis → ℕ
repaired_records diagnosis = length diagnosis.repaired_values

unfoldable pub unrepaired_issues : MessageDiagnosis → ℕ
unrepaired_issues diagnosis = count_unrepaired diagnosis.issues

module _ (serde : Serde) where
  -- One round of the loop of `diagnose_records`.
  unfoldable pub diagnose_next : MessageDiagnosis → ℕ → Value → MessageDiagnosis
  diagnose_next diagnosis idx original =
      let ((value, issues), checked) = diagnose_record serde idx original in
      record {
        checked_records =
            if checked then diagnosis.checked_records + 1 else diagnosis.checked_records;
        issues = diagnosis.issues ++ issues;
        repaired_values =
            if not (value_eq value original) && any_repaired issues
            then diagnosis.repaired_values ++ (idx, value) ∷ []
            else diagnosis.repaired_values;
      }

  unfoldable pub diagnose_from : MessageDiagnosis → ℕ → List Value → MessageDiagnosis
  diagnose_from diagnosis idx [] = diagnosis
  diagnose_from diagnosis idx (value ∷ values) =
      diagnose_from (diagnose_next diagnosis idx value) (idx + 1) values

  unfoldable pub diagnose_records : List Value → MessageDiagnosis
  unfolding diagnose_from diagnose_next
  diagnose_records values =
      diagnose_from (record { checked_records = 0; issues = []; repaired_values = [] }) 0 values
