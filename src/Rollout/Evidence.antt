-- ===== src/Rollout/Evidence.antt =====
-- The tool calls that src/main.rs reads from a rollout, and whether the captured evidence covers the
-- repairs of a diagnosis.
use context_guardian.Prelude.{
  ℕ, zero, suc, String, Bool, true, false, not, ◌&&◌, ◌||◌, Option, none, some, List, [], ◌∷◌, ◌==◌,
  if◌then◌else◌, ◌>>=◌, unwrap_or, any, codes, ◌+s◌, is_some, strip_suffix, Assoc, put,
}
use context_guardian.Json.{Value, string, object, get, get_str}
use context_guardian.MessageFormat.Issue.{FormatIssue}
use context_guardian.MessageFormat.Message.{Serde}
use context_guardian.MessageFormat.Record.{MessageDiagnosis}
use context_guardian.Rollout.Analysis.{contains_codes}

pub record ToolCallInfo : Type 0 where
  pub name : String
  pub image_path : Option String
  pub arguments_preview : Option String

-- The first characters of a text, and whether it has more.
unfoldable pub first_chars : ℕ → String → String
first_chars zero s = ""
first_chars (suc n) String.[] = ""
first_chars (suc n) (String.◌∷◌ c s) = String.◌∷◌ c (first_chars n s)

unfoldable pub has_more : ℕ → String → Bool
has_more n String.[] = false
has_more zero (String.◌∷◌ c s) = true
has_more (suc n) (String.◌∷◌ c s) = has_more n s

unfoldable pub preview : String → ℕ → String
preview input max_chars =
    if has_more max_chars input
    then first_chars max_chars input +s "..."
    else first_chars max_chars input

module _ (serde : Serde) where
  unfoldable pub argument_value_to_string : Value → String
  argument_value_to_string (string text) = text
  argument_value_to_string other = unwrap_or (serde.encode other) ""

  unfoldable pub argument_path : Value → Option String
  argument_path (string arguments) = do value ← serde.decode arguments; get_str "path" value
  argument_path (object m) = get_str "path" (object m)
  argument_path _ = none

  abbrev pub map_arguments : Option Value → Option String
  map_arguments none = none
  map_arguments (some arguments) = some (preview (argument_value_to_string arguments) 400)

  unfoldable pub tool_call_info : Value → Option (String × ToolCallInfo)
  tool_call_info value = do
    payload ← get "payload" value
    kind ← get_str "type" payload
    call_id ← if kind == "function_call" then get_str "call_id" payload else none
    name ← get_str "name" payload
    some (
      call_id,
      record {
        name = name;
        image_path =
            if name == "view_image"
            then (do arguments ← get "arguments" payload; argument_path arguments)
            else none;
        arguments_preview = map_arguments (get "arguments" payload);
      },
    )

  -- The tool calls that the loop of `analyze_records` collects.
  unfoldable pub tool_calls : List Value → Assoc ToolCallInfo → Assoc ToolCallInfo
  tool_calls [] calls = calls
  tool_calls (value ∷ values) calls = elim (tool_call_info value) [
    | none ↦ tool_calls values calls
    | some (call_id, info) ↦ tool_calls values (put call_id info calls)
  ]

-- A difference and the evidence of src/passive_capture.rs.
pub record SchemaDifference : Type 0 where
  pub path : String
  pub successful_type : String
  pub failing_type : String
  pub classification : String

pub record PassiveEvidence : Type 0 where
  pub attempted : Bool
  pub supports_lossless_repair : Bool
  pub status : String
  pub failed_request_at_unix_ms : Option ℕ
  pub baseline_request_at_unix_ms : Option ℕ
  pub schema_differences : List SchemaDifference

abbrev pub ends_with : String → String → Bool
ends_with text suffix = is_some (strip_suffix suffix text)

abbrev pub contains_text : String → String → Bool
contains_text text part = contains_codes (codes part) (codes text)

unfoldable pub explains : String → SchemaDifference → Bool
explains path difference =
    (difference.classification == "lossless_known_transform")
    && ((ends_with path "replacement_history" && ends_with difference.path ".replacement_history")
        || ((ends_with path ".content" && ends_with difference.path ".content")
            || ((contains_text path ".content["
                  && (not (ends_with path ".type")
                      && (contains_text difference.path ".content["
                          && ((difference.successful_type == "object")
                              && (difference.failing_type == "string")))))
                || ((ends_with path ".arguments" && ends_with difference.path ".arguments")
                    || ((ends_with path ".type" && ends_with difference.path ".type")
                        || (ends_with path ".output" && ends_with difference.path ".output"))))))

-- Of the issues only the repaired ones are looked at.
unfoldable pub all_explained : List SchemaDifference → List FormatIssue → Bool
all_explained differences [] = true
all_explained differences (problem ∷ issues) =
    (if problem.repaired then any (explains problem.path) differences else true)
    && all_explained differences issues

unfoldable pub passive_evidence_matches_repairs : MessageDiagnosis → PassiveEvidence → Bool
passive_evidence_matches_repairs diagnosis evidence =
    evidence.supports_lossless_repair && all_explained evidence.schema_differences diagnosis.issues
