-- ===== src/Rollout/Stats.antt =====
-- The statistics of one cleaning in src/main.rs, and the decisions that are made on them.
use context_guardian.Prelude.{ℕ, String, Bool, ◌||◌, Option, ltb, is_some}

pub record CleanStats : Type 0 where
  pub pruned_image_outputs : ℕ
  pub pruned_user_image_attachments : ℕ
  pub pruned_large_tool_outputs : ℕ
  pub removed_data_uri_bytes : ℕ
  pub removed_large_output_bytes : ℕ
  pub dropped_context_alert_lines : ℕ
  pub folded_obsolete_lines : ℕ
  pub normalized_token_counts : ℕ
  pub normalized_goal_token_counts : ℕ
  pub message_format_issues : ℕ
  pub message_format_unrepaired_issues : ℕ
  pub repaired_message_records : ℕ
  pub dropped_unknown_error_lines : ℕ
  pub message_probe_attempted : Bool
  pub message_probe_succeeded : Bool
  pub passive_capture_checked : Bool
  pub passive_capture_supported_repair : Bool
  pub message_format_report : Option String
  pub backup_path : Option String

unfoldable pub changed : CleanStats → Bool
changed stats =
    ltb 0 stats.pruned_image_outputs
    || (ltb 0 stats.pruned_user_image_attachments
        || (ltb 0 stats.pruned_large_tool_outputs
            || (ltb 0 stats.dropped_context_alert_lines
                || (ltb 0 stats.folded_obsolete_lines
                    || (ltb 0 stats.normalized_token_counts
                        || (ltb 0 stats.normalized_goal_token_counts
                            || (ltb 0 stats.repaired_message_records
                                || ltb 0 stats.dropped_unknown_error_lines)))))))

unfoldable pub noteworthy : CleanStats → Bool
noteworthy stats =
    changed stats
    || (ltb 0 stats.message_format_issues
        || (stats.message_probe_attempted || is_some stats.message_format_report))

unfoldable pub needs_backup : CleanStats → Bool
needs_backup stats =
    ltb 0 stats.pruned_image_outputs
    || (ltb 0 stats.pruned_user_image_attachments
        || (ltb 0 stats.pruned_large_tool_outputs
            || (ltb 0 stats.folded_obsolete_lines
                || (ltb 0 stats.normalized_token_counts
                    || (ltb 0 stats.normalized_goal_token_counts
                        || (ltb 0 stats.repaired_message_records
                            || ltb 0 stats.dropped_unknown_error_lines))))))
