-- ===== src/Capture/ReportTests.antt =====
-- Tests of the comparison of reports in src/passive_capture.rs, and the theorems about it at concrete
-- inputs.
use context_guardian.Prelude.{
  ℕ, ◌≡◌, refl, String, true, false, ◌||◌, none, some, List, [], ◌∷◌, all, is_some, find, put,
  filter, choose, strip_prefix, strip_suffix, split_once,
}
use context_guardian.Rollout.Analysis.{contains_codes, starts_codes}
use context_guardian.Capture.Schema.{SchemaField}
use context_guardian.Capture.Differences.{
  schema_differences, field_map, put_field, insert_text, sort_texts, put_apart, dedup,
  classify_difference, is_known_type_change, is_known_enum_change, is_same, known_transform_roots,
  is_accounted, is_descendant_path, is_array_sequence_variation, difference_at, field_signature,
  differences_from,
}
use context_guardian.Capture.Differences.Explained.{
  Explained, is_lossless, schema_differences_lossless,
}
use context_guardian.Capture.Correlate.{
  TransactionReport, is_failed, is_success, identifiers_compatible, find_failed, find_baseline,
  compare_transactions, correlate_transactions,
}
use context_guardian.Capture.Correlate.Evidence.{
  IsNearestFailed, IsBaselineFor, AllExplained, correlate_transactions_sound,
}

abbrev field : String → String → SchemaField
field path kind = record { path = path; value_type = kind; safe_enum = none }

abbrev good_fields : List SchemaField
good_fields = field "$" "object" ∷ field "$.content" "array" ∷ field "$.content[0]" "object" ∷ []

abbrev bad_fields : List SchemaField
bad_fields = field "$" "object" ∷ field "$.content" "string" ∷ []

content_is_lossless : all is_lossless (schema_differences good_fields bad_fields) ≡ true
unfolding schema_differences field_map put_field put find insert_text sort_texts put_apart dedup
    classify_difference is_known_type_change is_known_enum_change is_same known_transform_roots
    is_accounted is_descendant_path is_array_sequence_variation difference_at field_signature
    differences_from strip_prefix strip_suffix split_once contains_codes starts_codes
content_is_lossless = refl

item_is_there :
    (is_some (find "$.content[0]" (field_map good_fields))
      || is_some (find "$.content[0]" (field_map bad_fields)))
    ≡ true
unfolding field_map put_field put find
item_is_there = refl

schema_differences_lossless_example :
    Explained (field_map good_fields) (field_map bad_fields) "$.content[0]"
schema_differences_lossless_example =
    schema_differences_lossless good_fields bad_fields "$.content[0]" content_is_lossless
      item_is_there

abbrev report : ℕ → ℕ → List SchemaField → TransactionReport
report time status fields = record {
  request_at_unix_ms = time;
  method = "POST";
  target_hash = "ab";
  content_encoding = "identity";
  encoded_body_bytes = 2;
  decoded_body_bytes = 2;
  body_hash = "cd";
  schema_hash = "ef";
  schema = fields;
  identifiers = ("$.thread_id", "01") ∷ [];
  response_status = some status;
  response_error_envelope = false;
}

abbrev reports : List TransactionReport
reports =
    report 10 200 bad_fields
    ∷ report 20 200 good_fields
    ∷ report 30 400 bad_fields
    ∷ report 90 500 good_fields
    ∷ []

reports_support : (correlate_transactions 35 20 reports).supports_lossless_repair ≡ true
unfolding correlate_transactions find_failed find_baseline compare_transactions filter choose
    is_failed is_success identifiers_compatible schema_differences field_map put_field put find
    insert_text sort_texts put_apart dedup classify_difference is_known_type_change
    is_known_enum_change is_same known_transform_roots is_accounted is_descendant_path
    is_array_sequence_variation difference_at field_signature differences_from strip_prefix
    strip_suffix split_once contains_codes starts_codes
reports_support = refl

correlate_transactions_sound_example :
    (failed : TransactionReport) × (baseline : TransactionReport) × IsNearestFailed 35 20 reports
      failed
    × IsBaselineFor 35 20 reports failed baseline
    × AllExplained 35 20 reports baseline failed
correlate_transactions_sound_example = correlate_transactions_sound 35 20 reports reports_support
