-- ===== src/Rollout/Analysis.antt =====
-- The analysis of a rollout in src/main.rs: its tool calls, the record from which a new start is
-- read, and the records that are folded away in front of it.
pub mod Folding
use context_guardian.Prelude.{
  ℕ, suc, ◌+◌, String, Bool, true, false, not, ◌&&◌, ◌||◌, Option, none, some, List, [], ◌∷◌, map,
  ◌==◌, ltb, leb, eqb, if◌then◌else◌, ◌>>=◌, unwrap_or, codes, ◌+s◌, Assoc, put,
}
use context_guardian.Json.{Value, string, object, get, get_str, as_str, is_text}
use context_guardian.MessageFormat.Message.{Serde}
use context_guardian.Rollout.Tokens.{is_high_token_count}

-- `to_ascii_lowercase`, as code points, and `contains` on those.
unfoldable pub lowercase : ℕ → ℕ
lowercase n = if leb 65 n && leb n 90 then n + 32 else n

unfoldable pub starts_codes : List ℕ → List ℕ → Bool
starts_codes [] text = true
starts_codes (n ∷ ns) [] = false
starts_codes (n ∷ ns) (m ∷ ms) = eqb n m && starts_codes ns ms

unfoldable pub contains_codes : List ℕ → List ℕ → Bool
contains_codes part [] = starts_codes part []
contains_codes part (n ∷ ns) = starts_codes part (n ∷ ns) || contains_codes part ns

unfoldable pub mentions : String → String → Bool
mentions text part = contains_codes (codes part) (map lowercase (codes text))

-- The tests on the error of a completed task.
unfoldable pub is_recoverable_error : Value → Bool
is_recoverable_error error =
    let error_info = unwrap_or (get_str "codex_error_info" error) "" in
    let message = unwrap_or (get_str "message" error) "" in
    mentions error_info "context_window_exceeded"
    || (mentions message "context window"
        || (mentions message "exceeds the context"
            || (mentions message "input exceeds"
                || (mentions message "image_url"
                    && (mentions message "invalid format" || mentions message "valid url")))))

unfoldable pub is_failed_task : Option Value → Bool
is_failed_task none = false
is_failed_task (some payload) =
    is_text "task_complete" (get_str "type" payload)
    && elim (get "error" payload) [ none ↦ false | some error ↦ is_recoverable_error error ]

unfoldable pub is_recoverable_task_error : Value → Bool
is_recoverable_task_error value =
    is_text "event_msg" (get_str "type" value) && is_failed_task (get "payload" value)

unfoldable pub is_session_meta : Value → Bool
is_session_meta value = is_text "session_meta" (get_str "type" value)

abbrev pub is_compacted_record : Value → Bool
is_compacted_record value = is_text "compacted" (get_str "type" value)

abbrev pub is_trigger : ℕ → Value → Bool
is_trigger context_trigger_tokens value =
    is_high_token_count value context_trigger_tokens || is_recoverable_task_error value

-- The first loop, for the index of the last compacted record.
unfoldable pub latest_from : ℕ → Option ℕ → List Value → Option ℕ
latest_from index latest [] = latest
latest_from index latest (value ∷ values) =
    latest_from (suc index) (if is_compacted_record value then some index else latest) values

-- `skip(search_start)` and `find_map`, on the records from an index on.
unfoldable pub trigger_from : ℕ → ℕ → ℕ → List Value → Option ℕ
trigger_from context_trigger_tokens search_start index [] = none
trigger_from context_trigger_tokens search_start index (value ∷ values) =
    let later = trigger_from context_trigger_tokens search_start (suc index) values in
    if leb search_start index && is_trigger context_trigger_tokens value then some index else later

unfoldable pub fold_start : Option ℕ → Option ℕ → Option ℕ
fold_start (some trigger) (some compacted) =
    if ltb 0 compacted && ltb compacted trigger then some compacted else none
fold_start _ _ = none

unfoldable pub fold_start_index : List Value → ℕ → Option ℕ
fold_start_index values context_trigger_tokens =
    let latest = latest_from 0 none values in
    fold_start (trigger_from context_trigger_tokens (unwrap_or latest 0) 0 values) latest

unfoldable pub should_fold_line : ℕ → Value → Option ℕ → Bool
should_fold_line index value none = false
should_fold_line index value (some start) = ltb index start && not (is_session_meta value)
