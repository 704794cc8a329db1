-- ===== src/MessageFormat/Tests.antt =====
-- Tests of the diagnosis of message records, after the tests of src/message_format.rs, and the
-- theorems about it at concrete records.
use context_guardian.Prelude.{
  String, true, List, [], ◌∷◌, none, some, ◌≡◌, refl, ◌==◌, is_empty, if◌then◌else◌, All, map,
}
use context_guardian.Json.{
  Value, string, array, object, nil, cons, Map, empty, entry, lookup, insert, remove, replace,
  value_eq,
}
use context_guardian.MessageFormat.Issue.{value_kind, with_field, with_payload, count_unrepaired}
use context_guardian.MessageFormat.Content.{
  text_item, require_text, retype, require_field, reject_type, typed_item, match_item_type,
  normalize_content_map, normalize_content_item, normalize_items, normalize_content_array,
  wrapped_content, normalize_content_container,
}
use context_guardian.MessageFormat.Message.{
  flatten_text, check_summary, diagnose_summary, diagnose_role_content, diagnose_role,
  diagnose_message_type, diagnose_message_map, diagnose_message, diagnose_messages, as_history,
  normalize_decoded, normalize_history_container, diagnose_history, check_history,
  diagnose_compacted_history, diagnose_compacted_payload, diagnose_compacted,
}
use context_guardian.MessageFormat.Record.{
  require_nonempty_string, check_arguments, diagnose_arguments, diagnose_function_call,
  encode_output, normalize_output, diagnose_output, diagnose_tool_output, check_list,
  diagnose_list_field, diagnose_list_fields, diagnose_user_payload, diagnose_user_message,
  diagnose_payload, diagnose_response_item, diagnose_typed, diagnose_record, repaired_records,
  unrepaired_issues, diagnose_next, diagnose_from, diagnose_records, MessageDiagnosis,
}
use context_guardian.MessageFormat.Shape.{
  is_content_map, is_content_item, are_content_items, is_content, is_message_map, is_message,
  are_messages, is_history, is_compacted, is_function_call, is_output, is_tool_output,
  is_user_message, is_payload, is_record,
}
use context_guardian.MessageFormat.Message.{Serde}
use context_guardian.MessageFormat.Repair.ResponsePayload.{issues_of, value_of}
use context_guardian.MessageFormat.Repair.Record.{
  is_empty-diagnose_record, diagnose_record-unchanged, is_record-diagnose_record,
}
use context_guardian.MessageFormat.Repair.Records.{
  apply_repairs, diagnose_records-AreRecords, diagnose_records-settles,
}

abbrev text_field : String → String → Map → Map
text_field key text map = entry key (string text) map

abbrev hello_message : Value
hello_message = object (entry "content" (string "hello") (text_field "role" "user" empty))

-- A decoder that knows one text, and an encoder that writes one.
abbrev sample_serde : Serde
sample_serde = record {
  decode = λ text. if text == "[hello]" then some (array (cons hello_message nil)) else none;
  encode = λ value. some "{}";
}

-- The record of `repairs_stringified_compacted_history_and_content`.
abbrev stringified : Value
stringified = object (
    entry "payload"
      (object (
        entry "message" (array (cons (object (text_field "text" "summary" empty)) nil))
          (text_field "replacement_history" "[hello]" empty)))
      (text_field "type" "compacted" empty))

-- The record of `reports_unrepairable_missing_message_role`.
abbrev without_role : Value
without_role = object (
    entry "payload"
      (object (
        text_field "message" "summary" (
          entry "replacement_history"
            (array
              (cons (object (entry "content" (array nil) (text_field "type" "message" empty))) nil))
            empty)))
      (text_field "type" "compacted" empty))

-- The record of `serializes_structured_function_arguments`.
abbrev structured_call : Value
structured_call = object (
    entry "payload"
      (object (
        entry "arguments" (object (text_field "path" "/tmp/a" empty)) (
          text_field "call_id" "call_1"
            (text_field "name" "tool" (text_field "type" "function_call" empty)))))
      (text_field "type" "response_item" empty))

abbrev plain : Value
plain = object (text_field "type" "session_meta" empty)

-- What the tests compute with.
run : Serde → List Value → MessageDiagnosis
unfolding value_kind count_unrepaired with_field with_payload text_item require_text retype
    require_field reject_type typed_item match_item_type normalize_content_map
    normalize_content_item normalize_items normalize_content_array wrapped_content
    normalize_content_container flatten_text check_summary diagnose_summary diagnose_role_content
    diagnose_role diagnose_message_type diagnose_message_map diagnose_message diagnose_messages
    as_history normalize_decoded normalize_history_container diagnose_history check_history
    diagnose_compacted_history diagnose_compacted_payload diagnose_compacted require_nonempty_string
    check_arguments diagnose_arguments diagnose_function_call encode_output normalize_output
    diagnose_output diagnose_tool_output check_list diagnose_list_field diagnose_list_fields
    diagnose_user_payload diagnose_user_message diagnose_payload diagnose_response_item
    diagnose_typed diagnose_record repaired_records unrepaired_issues diagnose_next diagnose_from
    diagnose_records is_content_map is_content_item are_content_items is_content is_message_map
    is_message are_messages is_history is_compacted is_function_call is_output is_tool_output
    is_user_message is_payload is_record lookup insert replace remove value_eq
run = diagnose_records

repairs_stringified : unrepaired_issues (diagnose_records sample_serde (stringified ∷ [])) ≡ 0
unfolding run
repairs_stringified = refl

is_empty-diagnose_record_example :
    is_empty (issues_of (diagnose_record sample_serde 0 without_role)) ≡ is_record without_role
is_empty-diagnose_record_example = is_empty-diagnose_record sample_serde 0 without_role

abbrev mixed : List Value
mixed = plain ∷ stringified ∷ structured_call ∷ []

reports_missing_role : unrepaired_issues (diagnose_records sample_serde (without_role ∷ [])) ≡ 1
unfolding run
reports_missing_role = refl

repairs_call : repaired_records (diagnose_records sample_serde mixed) ≡ 2
unfolding run
repairs_call = refl

mixed_repaired : unrepaired_issues (diagnose_records sample_serde mixed) ≡ 0
unfolding run
mixed_repaired = refl

diagnose_record-unchanged_example : value_of (diagnose_record sample_serde 0 plain) ≡ plain
unfolding run
diagnose_record-unchanged_example = diagnose_record-unchanged sample_serde 0 plain refl

is_record-diagnose_record_example :
    is_record (value_of (diagnose_record sample_serde 0 stringified)) ≡ true
unfolding run
is_record-diagnose_record_example = is_record-diagnose_record sample_serde 0 stringified refl

diagnose_records-AreRecords_example :
    All
      (λ v. is_record v ≡ true)
      (apply_repairs (diagnose_records sample_serde mixed).repaired_values 0 mixed)
diagnose_records-AreRecords_example = diagnose_records-AreRecords sample_serde mixed mixed_repaired

diagnose_records-settles_example :
    is_empty
      (diagnose_records sample_serde
        (apply_repairs (diagnose_records sample_serde mixed).repaired_values 0 mixed)).issues
    ≡ true
diagnose_records-settles_example = diagnose_records-settles sample_serde mixed mixed_repaired
