-- ===== src/Rollout/Tests.antt =====
-- Tests of the parts of src/main.rs, and the theorems about them at concrete inputs.
use context_guardian.Prelude.{List, ◌<◌, ℕ, String, ◌≡◌, refl, true, false, none, [], ◌∷◌}
use context_guardian.Json.{Value, string, object, number, unsigned, empty, entry, lookup}
use context_guardian.Rollout.Chunks.{
  estimate_char_tokens, char_tokens, estimate_tokens, push_rest, split_loop, split_long_piece,
  lines_from, push_pieces, push_full, push_line, chunk_loop, chunk_by_estimated_tokens,
}
use context_guardian.Rollout.Chunks.Joined.{join, join-chunk_by_estimated_tokens}
use context_guardian.Rollout.Tokens.{
  observed_usage_tokens, observed_context_tokens, is_full_count, is_high_payload,
  is_high_token_count, normalize_token_count_event,
}
use context_guardian.Rollout.Tokens.Normal.{normalize_token_count_event_idle}
use context_guardian.Rollout.Analysis.{
  is_compacted_record, is_trigger, is_recoverable_task_error, is_session_meta, latest_from,
  trigger_from, fold_start, fold_start_index, should_fold_line,
}
use context_guardian.Rollout.Analysis.Folding.{At, should_fold_line_sound}
use context_guardian.Rollout.Stats.{CleanStats}

abbrev lines : String
lines = "ab\ncdefgh\n"

cuts_lines : chunk_by_estimated_tokens lines 4 ≡ "ab\n" ∷ "cdef" ∷ "gh\n" ∷ []
unfolding estimate_char_tokens char_tokens estimate_tokens push_rest split_loop split_long_piece
    lines_from push_pieces push_full push_line chunk_loop chunk_by_estimated_tokens
cuts_lines = refl

join-chunk_by_estimated_tokens_example : join (chunk_by_estimated_tokens lines 4) ≡ lines
join-chunk_by_estimated_tokens_example = join-chunk_by_estimated_tokens lines 4

abbrev usage : ℕ → Value
usage n = object (entry "input_tokens" (number (unsigned n)) empty)

abbrev count_event : ℕ → Value
count_event n = object (
    entry "payload"
      (object (
        entry "info" (object (entry "last_token_usage" (usage n) empty))
          (entry "type" (string "token_count") empty)))
      (entry "type" (string "event_msg") empty))

low_count : is_high_token_count (count_event 500) 1000 ≡ false
unfolding observed_usage_tokens observed_context_tokens is_full_count is_high_payload
    is_high_token_count lookup
low_count = refl

high_count : is_high_token_count (count_event 1000) 1000 ≡ true
unfolding observed_usage_tokens observed_context_tokens is_full_count is_high_payload
    is_high_token_count lookup
high_count = refl

normalize_token_count_event_idle_example :
    normalize_token_count_event (count_event 500) (80 ∷ 90 ∷ []) 1000 600 ≡ (count_event 500, false)
normalize_token_count_event_idle_example =
    normalize_token_count_event_idle (count_event 500) (80 ∷ 90 ∷ []) 1000 600 low_count

abbrev one_alert : CleanStats
one_alert = record {
  pruned_image_outputs = 0;
  pruned_user_image_attachments = 0;
  pruned_large_tool_outputs = 0;
  removed_data_uri_bytes = 0;
  removed_large_output_bytes = 0;
  dropped_context_alert_lines = 1;
  folded_obsolete_lines = 0;
  normalized_token_counts = 0;
  normalized_goal_token_counts = 0;
  message_format_issues = 0;
  message_format_unrepaired_issues = 0;
  repaired_message_records = 0;
  dropped_unknown_error_lines = 0;
  message_probe_attempted = false;
  message_probe_succeeded = false;
  passive_capture_checked = false;
  passive_capture_supported_repair = false;
  message_format_report = none;
  backup_path = none;
}

abbrev compacted_record : Value
compacted_record = object (entry "type" (string "compacted") empty)

abbrev plain_record : Value
plain_record = object (entry "type" (string "response_item") empty)

abbrev long_rollout : List Value
long_rollout = plain_record ∷ compacted_record ∷ count_event 1000 ∷ []

folds_first : should_fold_line 0 plain_record (fold_start_index long_rollout 1000) ≡ true
unfolding observed_usage_tokens observed_context_tokens is_full_count is_high_payload
    is_high_token_count is_recoverable_task_error latest_from trigger_from fold_start
    fold_start_index should_fold_line is_session_meta lookup
folds_first = refl

should_fold_line_sound_example :
    (start : ℕ) × (full : ℕ) × (0 < start)
    × (start < full)
    × At is_compacted_record 0 start long_rollout
    × At (is_trigger 1000) 0 full long_rollout
    × (is_session_meta plain_record ≡ false)
should_fold_line_sound_example = should_fold_line_sound long_rollout 1000 0 plain_record folds_first
