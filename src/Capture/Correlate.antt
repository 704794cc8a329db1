-- ===== src/Capture/Correlate.antt =====
-- The evidence that src/passive_capture.rs finds in the reports of earlier captures.
pub mod Evidence
use context_guardian.Prelude.{
  ℕ, zero, suc, ◌+◌, ◌-◌, ◌^◌, min, String, Bool, true, false, not, ◌&&◌, ◌||◌, Option, none, some,
  List, [], ◌∷◌, ◌++◌, map, ltb, leb, ◌==◌, if◌then◌else◌, any, all, is_empty, unwrap_or, take,
  is_some, ◌+s◌, Assoc, filter, min_by_key, max_by_key, sort_by_key, strip_prefix,
}
use mathlib.Core.List.{reverse}
use context_guardian.Capture.Io.{IoResult, IoError, io_error, ok, error, ◌>>=◌, or_invalid}
use context_guardian.Capture.Schema.{SchemaField}
use context_guardian.Capture.Differences.{schema_differences, sort_texts}
use context_guardian.Rollout.Evidence.{SchemaDifference, PassiveEvidence, ends_with}

pub record TransactionReport : Type 0 where
  pub request_at_unix_ms : ℕ
  pub method : String
  pub target_hash : String
  pub content_encoding : String
  pub encoded_body_bytes : ℕ
  pub decoded_body_bytes : ℕ
  pub body_hash : String
  pub schema_hash : String
  pub schema : List SchemaField
  pub identifiers : Assoc String
  pub response_status : Option ℕ
  pub response_error_envelope : Bool

pub record CaptureReport : Type 0 where
  pub preview_version : ℕ
  pub capture_mode : String
  pub interface : String
  pub port : ℕ
  pub started_at_unix_ms : ℕ
  pub ended_at_unix_ms : ℕ
  pub pcap_limit_reached : Bool
  pub transactions : List TransactionReport
  pub privacy : String

-- `PassiveEvidence::not_requested`
unfoldable pub not_requested : PassiveEvidence
not_requested = record {
  attempted = false;
  supports_lossless_repair = false;
  status = "not_requested";
  failed_request_at_unix_ms = none;
  baseline_request_at_unix_ms = none;
  schema_differences = [];
}

abbrev status_within : (ℕ → Bool) → Option ℕ → Bool
status_within within none = false
status_within within (some status) = within status

unfoldable pub is_failed : TransactionReport → Bool
is_failed transaction =
    status_within (λ status. leb 400 status) transaction.response_status
    || transaction.response_error_envelope

unfoldable pub is_success : TransactionReport → Bool
is_success transaction =
    status_within (λ status. leb 200 status && ltb status 400) transaction.response_status
    && not transaction.response_error_envelope

abbrev pub values : Assoc String → List String
values identifiers = map (λ entry. entry.1) identifiers

unfoldable pub identifiers_compatible : TransactionReport → TransactionReport → Bool
identifiers_compatible left right =
    let left_values = values left.identifiers in
    let right_values = values right.identifiers in
    is_empty left_values
    || (is_empty right_values
        || any (λ value. any (λ other. other == value) right_values) left_values)

-- `a.abs_diff(b)`
abbrev pub abs_diff : ℕ → ℕ → ℕ
abs_diff a b = (a - b) + (b - a)

abbrev pub request_at : TransactionReport → ℕ
request_at transaction = transaction.request_at_unix_ms

abbrev pub is_near : ℕ → ℕ → TransactionReport → Bool
is_near reference window_ms transaction =
    leb (abs_diff (request_at transaction) reference) window_ms

unfoldable pub find_failed : ℕ → ℕ → List TransactionReport → Option TransactionReport
find_failed reference window_ms transactions =
    min_by_key (λ transaction. abs_diff (request_at transaction) reference)
      (filter (is_near reference window_ms) (filter is_failed transactions))

unfoldable pub find_baseline : TransactionReport → List TransactionReport → Option TransactionReport
find_baseline failed transactions = max_by_key request_at (
    filter (λ transaction. identifiers_compatible transaction failed)
      (filter (λ transaction. transaction.target_hash == failed.target_hash)
        (filter (λ transaction. ltb (request_at transaction) (request_at failed))
          (filter is_success transactions))))

abbrev without_support : String → Option ℕ → PassiveEvidence
without_support status failed_at = record {
  attempted = true;
  supports_lossless_repair = false;
  status = status;
  failed_request_at_unix_ms = failed_at;
  baseline_request_at_unix_ms = none;
  schema_differences = [];
}

abbrev pub supports : List SchemaDifference → Bool
supports differences =
    not (is_empty differences)
    && all (λ difference. difference.classification == "lossless_known_transform") differences

-- The end of `correlate_reports_inner`, with both transactions at hand.
unfoldable pub compare_transactions : TransactionReport → TransactionReport → PassiveEvidence
compare_transactions baseline failed =
    let differences = schema_differences baseline.schema failed.schema in
    record {
      attempted = true;
      supports_lossless_repair = supports differences;
      status =
          if supports differences
          then "lossless_schema_delta"
          else if is_empty differences
          then "no_schema_delta"
          else "ambiguous_schema_delta";
      failed_request_at_unix_ms = some (request_at failed);
      baseline_request_at_unix_ms = some (request_at baseline);
      schema_differences = differences;
    }

-- `correlate_reports_inner` behind the reading of the reports.
unfoldable pub correlate_transactions : ℕ → ℕ → List TransactionReport → PassiveEvidence
correlate_transactions reference window_ms transactions =
    elim (find_failed reference window_ms transactions) [
      | none ↦ without_support "no_correlated_failed_request" none
      | some failed ↦ elim (find_baseline failed transactions) [
        | none ↦ without_support "no_prior_successful_baseline" (some (request_at failed))
        | some baseline ↦ compare_transactions baseline failed
      ]
    ]

unfoldable pub is_report_name : String → Bool
is_report_name name = is_some (strip_prefix "passive-capture-" name) && ends_with name ".json"

-- The directory's names, the text of a file, and the JSON reader.
module _ (read_dir : IoResult (List String)) (read_file : String → IoResult String)
    (from_reader : String → Option CaptureReport) where
  -- The loop over the newest reports.
  unfoldable pub read_reports : List String → IoResult (List TransactionReport)
  read_reports [] = ok []
  read_reports (path ∷ paths) = do
    file ← read_file path
    report ← or_invalid "JSON" (from_reader file)
    transactions ← read_reports paths
    ok (report.transactions ++ transactions)

  unfoldable pub correlate_reports_inner : ℕ → Option ℕ → ℕ → IoResult PassiveEvidence
  correlate_reports_inner now error_unix_ms window = do
    names ← read_dir
    transactions ← read_reports (take 100 (reverse (sort_texts (filter is_report_name names))))
    ok (
        correlate_transactions (unwrap_or error_unix_ms now) (min window (2 ^ 64 - 1))
          (sort_by_key request_at transactions))

  unfoldable pub correlate_reports : ℕ → Option ℕ → ℕ → PassiveEvidence
  correlate_reports now error_unix_ms window =
      elim (correlate_reports_inner now error_unix_ms window) [
        | ok evidence ↦ evidence
        | error (io_error kind message) ↦ without_support ("capture_report_error:" +s kind) none
      ]
