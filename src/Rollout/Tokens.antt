-- ===== src/Rollout/Tokens.antt =====
-- The records of src/main.rs that tell how full the context is: token counts and the tokens of a goal.
-- A value that is indexed by a missing key is null, as `serde_json` does it. The records of a rollout
-- are given by the lengths of their lines, which is all that is read of them here.
pub mod Normal
use context_guardian.Prelude.{
  ℕ, ◌+◌, ◌/◌, min, max, String, Bool, true, false, not, ◌&&◌, Option, none, some, List, [], ◌∷◌,
  ◌==◌, ltb, leb, if◌then◌else◌, ◌>>=◌, unwrap_or,
}
use context_guardian.Json.{
  Value, null, number, object, unsigned, Map, empty, entry, lookup, insert, replace, get, get_str,
  as_str, as_u64, as_object, is_text,
}

-- `value["key"]`
abbrev pub index : String → Value → Value
index key value = unwrap_or (get key value) null

unfoldable pub observed_usage_tokens : Value → ℕ
observed_usage_tokens usage =
    max (unwrap_or (as_u64 (index "input_tokens" usage)) 0)
      (unwrap_or (as_u64 (index "total_tokens" usage)) 0)

unfoldable pub observed_context_tokens : Value → ℕ
observed_context_tokens payload =
    max (observed_usage_tokens (index "last_token_usage" (index "info" payload)))
      (observed_usage_tokens (index "total_token_usage" (index "info" payload)))

-- The tests on the payload of an event.
unfoldable pub is_full_count : ℕ → Value → Bool
is_full_count context_trigger_tokens payload =
    is_text "token_count" (get_str "type" payload)
    && leb context_trigger_tokens (observed_context_tokens payload)

unfoldable pub is_high_payload : ℕ → Option Value → Bool
is_high_payload context_trigger_tokens none = false
is_high_payload context_trigger_tokens (some payload) = is_full_count context_trigger_tokens payload

unfoldable pub is_high_token_count : Value → ℕ → Bool
is_high_token_count value context_trigger_tokens =
    is_text "event_msg" (get_str "type" value)
    && is_high_payload context_trigger_tokens (get "payload" value)

unfoldable pub sum_of : List ℕ → ℕ
sum_of [] = 0
sum_of (n ∷ ns) = n + sum_of ns

unfoldable pub estimate_rollout_tokens : List ℕ → ℕ → ℕ
estimate_rollout_tokens line_lengths recovery_tokens =
    min (max (sum_of line_lengths / 4) 1) recovery_tokens

abbrev pub count_of : ℕ → Value
count_of n = number (unsigned n)

-- The object that `json!` builds; its keys are in order.
unfoldable pub estimated_usage : ℕ → Value
estimated_usage n = object (
    entry "cache_write_input_tokens" (count_of 0) (
      entry "cached_input_tokens" (count_of 0) (
        entry "input_tokens" (count_of n) (
          entry "output_tokens" (count_of 0) (
            entry "reasoning_output_tokens" (count_of 0)
              (entry "total_tokens" (count_of n) empty))))))

-- The write to `info` of a payload, where that is an object.
unfoldable pub set_info : ℕ → Map → Option Map → Map × Bool
set_info estimated payload none = (payload, false)
set_info estimated payload (some info) = (
  replace "info" (object (insert "total_token_usage" (estimated_usage estimated) info)) payload,
  true,
)

unfoldable pub normalize_count_payload : ℕ → ℕ → Value → Value × Bool
normalize_count_payload context_trigger_tokens estimated (object payload) =
    if not (is_full_count context_trigger_tokens (object payload))
    then (object payload, false)
    else let (payload', changed) =
        set_info estimated payload (do info ← lookup "info" payload; as_object info) in
      (object payload', changed)
normalize_count_payload context_trigger_tokens estimated payload = (payload, false)

-- A write through `value.get_mut("payload")`, for a function that also tells whether it changed it.
unfoldable pub on_payload : (Value → Value × Bool) → Map → Option Value → Map × Bool
on_payload f m none = (m, false)
on_payload f m (some payload) =
    let (payload', changed) = f payload in (replace "payload" payload' m, changed)

-- The first test of the two functions below, and the write to the payload of an event.
unfoldable pub on_event : (Value → Value × Bool) → Value → Value × Bool
on_event f (object m) =
    if not (is_text "event_msg" (get_str "type" (object m)))
    then (object m, false)
    else let (m', changed) = on_payload f m (lookup "payload" m) in (object m', changed)
on_event f value = (value, false)

unfoldable pub normalize_token_count_event : Value → List ℕ → ℕ → ℕ → Value × Bool
normalize_token_count_event value line_lengths context_trigger_tokens recovery_tokens =
    on_event
      (normalize_count_payload context_trigger_tokens
        (estimate_rollout_tokens line_lengths recovery_tokens))
      value

unfoldable pub set_tokens_used : ℕ → ℕ → Map → Option Map → Map × Bool
set_tokens_used context_trigger_tokens recovery_tokens payload none = (payload, false)
set_tokens_used context_trigger_tokens recovery_tokens payload (some goal) =
    if ltb (unwrap_or (do used ← lookup "tokensUsed" goal; as_u64 used) 0) context_trigger_tokens
    then (payload, false)
    else (
      replace "goal" (object (insert "tokensUsed" (count_of recovery_tokens) goal)) payload,
      true,
    )

unfoldable pub normalize_goal_payload : ℕ → ℕ → Value → Value × Bool
normalize_goal_payload context_trigger_tokens recovery_tokens (object payload) =
    if not (is_text "thread_goal_updated" (get_str "type" (object payload)))
    then (object payload, false)
    else let (payload', changed) =
        set_tokens_used context_trigger_tokens recovery_tokens payload
          (do goal ← lookup "goal" payload; as_object goal) in
      (object payload', changed)
normalize_goal_payload context_trigger_tokens recovery_tokens payload = (payload, false)

unfoldable pub normalize_thread_goal_token_count : Value → ℕ → ℕ → Value × Bool
normalize_thread_goal_token_count value context_trigger_tokens recovery_tokens =
    on_event (normalize_goal_payload context_trigger_tokens recovery_tokens) value
