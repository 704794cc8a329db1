-- ===== src/Rollout/Tokens/Normal.antt =====
-- What the normalisation of token counts in src/main.rs changes.
use context_guardian.Prelude.{
  ℕ, ◌≡◌, refl, inl, inr, false, Option, none, some, List, arith, Bool-cases,
}
use context_guardian.Json.{
  Value, null, boolean, number, string, array, object, Map, lookup, get_str, is_text,
}
use context_guardian.Json.Laws.{replace-lookup}
use context_guardian.Rollout.Tokens.{
  is_full_count, is_high_payload, is_high_token_count, estimate_rollout_tokens,
  normalize_count_payload, on_payload, on_event, normalize_token_count_event,
}

module _ (trigger estimated : ℕ) where
  idle-payload :
      (payload : Value)
      → is_full_count trigger payload ≡ false
      → normalize_count_payload trigger estimated payload ≡ (payload, false)
  unfolding normalize_count_payload
  idle-payload (object m) low = rw (low, normalize_count_payload)
  idle-payload null low = refl
  idle-payload (boolean b) low = refl
  idle-payload (number n) low = refl
  idle-payload (string s) low = refl
  idle-payload (array xs) low = refl

  idle-on_payload :
      (m : Map) (payload : Option Value)
      → lookup "payload" m ≡ payload
      → is_high_payload trigger payload ≡ false
      → on_payload (normalize_count_payload trigger estimated) m payload ≡ (m, false)
  unfolding on_payload is_high_payload
  idle-on_payload m none there low = refl
  idle-on_payload m (some payload) there low =
      rw (idle-payload payload low, replace-lookup "payload" payload m there)

  idle-on_event :
      (value : Value)
      → is_high_token_count value trigger ≡ false
      → on_event (normalize_count_payload trigger estimated) value ≡ (value, false)
  unfolding on_event is_high_token_count
  idle-on_event (object m) low =
      elim (Bool-cases (is_text "event_msg" (get_str "type" (object m)))) [
        | inr other ↦ rw (other, on_event)
        | inl event ↦
            rw (event, on_event, idle-on_payload m (lookup "payload" m) refl (ground arith))
      ]
  idle-on_event null low = refl
  idle-on_event (boolean b) low = refl
  idle-on_event (number n) low = refl
  idle-on_event (string s) low = refl
  idle-on_event (array xs) low = refl

-- The normalisation of token counts changes no record but those that are high token counts.
pub normalize_token_count_event_idle :
    (value : Value) (line_lengths : List ℕ) (trigger recovery : ℕ)
    → is_high_token_count value trigger ≡ false
    → normalize_token_count_event value line_lengths trigger recovery ≡ (value, false)
unfolding normalize_token_count_event
normalize_token_count_event_idle value line_lengths trigger recovery low =
    idle-on_event trigger (estimate_rollout_tokens line_lengths recovery) value low
