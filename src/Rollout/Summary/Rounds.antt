-- ===== src/Rollout/Summary/Rounds.antt =====
-- The rounds in which src/main.rs merges the summaries of the chunks of a large output, and what
-- stands in the place of the output. As in the parent, the service is a parameter.
use context_guardian.Prelude.{
  ℕ, zero, suc, max, String, Bool, true, false, not, ◌||◌, Option, none, some, ◌>>=◌, List, [], ◌∷◌,
  ltb, if◌then◌else◌, len, length, unwrap_or, ◌+s◌, decimal, Assoc, find, is_empty,
}
use context_guardian.Rollout.Attachments.{with_payload, payload_of}
use context_guardian.Rollout.Chunks.{chunk_by_estimated_tokens, estimate_tokens}
use context_guardian.Rollout.Evidence.{ToolCallInfo}
use context_guardian.Rollout.Images.{inline_data_image_bytes}
use context_guardian.Rollout.Summary.{
  SummaryConfig, cc_switch_max_reduce_rounds, join_with, tool_of, arguments_of, cc_switch_summarize,
  summarize_parts,
}
use context_guardian.Json.{Value, Map, is_text, string, lookup, lookup_str, replace}
use context_guardian.MessageFormat.Message.{Serde}

-- How the rounds of a summary end: with a call that failed, at the limit, or with one part.
pub data Reduced : Type 0 where
  failed : Reduced
  gave_up : String → Reduced
  reduced : List String → Reduced

abbrev first_text : List String → String
first_text [] = ""
first_text (part ∷ parts) = part

-- The condition of the loop.
unfoldable pub needs_round : ℕ → List String → Bool
needs_round target_tokens parts =
    ltb 1 (length parts) || ltb target_tokens (estimate_tokens (first_text parts))

module _ (post : String → Value → Option Value) (config : SummaryConfig) where
  -- The rounds, with the number of those that are left.
  unfoldable pub reduce_rounds : ToolCallInfo → ℕ → ℕ → ℕ → ℕ → List String → Reduced
  reduce_rounds tool_info original_len target_tokens zero round parts =
      if needs_round target_tokens parts then gave_up (join_with "\n\n" parts) else reduced parts
  reduce_rounds tool_info original_len target_tokens (suc left) round parts =
      elim (needs_round target_tokens parts) [
        | false ↦ reduced parts
        | true ↦
            elim (summarize_parts post config tool_info original_len round (length parts) 0 parts) [
              | none ↦ failed
              | some summaries ↦
                  reduce_rounds tool_info original_len target_tokens left (suc round) (
                    chunk_by_estimated_tokens
                      (join_with "\n\n--- next chunk summary ---\n\n" summaries) target_tokens)
            ]
      ]

  unfoldable pub final_prompt : ToolCallInfo → ℕ → ℕ → String → String
  final_prompt tool_info original_len original_chunks joined =
      "Tool: "
      +s tool_of tool_info
      +s "\nArguments: "
      +s arguments_of tool_info
      +s "\nOriginal output bytes: "
      +s decimal original_len
      +s "\nOriginal chunks: "
      +s decimal original_chunks
      +s "\n\nCombine these chunk summaries into one concise recovery summary for Codex. Preserve actionable facts and paths.\n\n"
      +s joined

  abbrev summary_or : Option String → String → Option String
  summary_or none joined = some joined
  summary_or (some summary) joined = some summary

  unfoldable pub finish_summary : ToolCallInfo → ℕ → ℕ → Reduced → Option String
  finish_summary tool_info original_len original_chunks failed = none
  finish_summary tool_info original_len original_chunks (gave_up text) = some text
  finish_summary tool_info original_len original_chunks (reduced parts) =
      let joined = join_with "\n\n" parts in
      summary_or
        (cc_switch_summarize post config
          (final_prompt tool_info original_len original_chunks joined) 900)
        joined

  unfoldable pub map_reduce_summary : String → ToolCallInfo → Option String
  map_reduce_summary original tool_info =
      let target_tokens = max config.cc_switch_chunk_target_tokens 8000 in
      let parts = chunk_by_estimated_tokens original target_tokens in
      if is_empty parts
      then none
      else finish_summary tool_info (len original) (length parts)
          (reduce_rounds tool_info (len original) target_tokens cc_switch_max_reduce_rounds 0 parts)

  module _ (serde : Serde) where
    unfoldable pub encoded_json_len : Value → ℕ
    encoded_json_len value = elim (serde.encode value) [ none ↦ 0 | some text ↦ len text ]

    unfoldable pub original_text : Value → Option String
    original_text (string text) = some text
    original_text other = serde.encode other

    unfoldable pub summarize_large_output : Value → ToolCallInfo → Option String
    summarize_large_output value tool_info =
        if not config.cc_switch_summary
        then none
        else do original ← original_text value; map_reduce_summary original tool_info

    abbrev pub described : ToolCallInfo → String
    described tool_info =
        " Tool: " +s tool_of tool_info +s ". Arguments: " +s arguments_of tool_info

    unfoldable pub large_output_text : ToolCallInfo → ℕ → Option String → String
    large_output_text tool_info encoded_len (some summary) =
        "Large tool output summarized by context-guardian via CC Switch because the original tool result was "
        +s decimal encoded_len
        +s " bytes and could exceed the model context window."
        +s described tool_info
        +s ".\n\nSummary:\n"
        +s summary
    large_output_text tool_info encoded_len none =
        "Large tool output pruned by context-guardian because the original tool result was "
        +s decimal encoded_len
        +s " bytes and could exceed the model context window."
        +s described tool_info
        +s ". Re-run the command or inspect the referenced file manually if the full output is needed."

    abbrev info_of : Option ToolCallInfo → ToolCallInfo
    info_of none = record { name = ""; image_path = none; arguments_preview = none }
    info_of (some info) = info

    unfoldable pub prune_output : Assoc ToolCallInfo → Value → Map → Value → Value × Option ℕ
    prune_output tool_calls value payload output =
        let call_id = unwrap_or (lookup_str "call_id" payload) "unknown-call" in
        let encoded_len = encoded_json_len output in
        if ltb 0 (inline_data_image_bytes output) || ltb encoded_len config.large_tool_output_bytes
        then (value, none)
        else let tool_info = info_of (find call_id tool_calls) in
          let text =
            large_output_text tool_info encoded_len (summarize_large_output output tool_info) in
          (with_payload value (replace "output" (string text) payload), some encoded_len)

    abbrev prune_found : Assoc ToolCallInfo → Value → Map → Option Value → Value × Option ℕ
    prune_found tool_calls value payload none = (value, none)
    prune_found tool_calls value payload (some output) =
        prune_output tool_calls value payload output

    unfoldable pub prune_large_tool_output : Value → Assoc ToolCallInfo → Value × Option ℕ
    prune_large_tool_output value tool_calls = elim (payload_of value) [
      | none ↦ (value, none)
      | some payload ↦
          if is_text "function_call_output" (lookup_str "type" payload)
          then prune_found tool_calls value payload (lookup "output" payload)
          else (value, none)
    ]
