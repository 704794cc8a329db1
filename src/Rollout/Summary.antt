-- ===== src/Rollout/Summary.antt =====
-- The large outputs of tools that src/main.rs replaces by a summary or a note. The request to the
-- service CC Switch is a parameter: it gets an address and a body, and gives the JSON answer, if any.
pub mod Rounds
use Prim.Native.Char.{Char, code}
use context_guardian.Prelude.{
  ℕ, zero, suc, ◌+◌, max, String, Bool, true, false, not, ◌&&◌, ◌||◌, Option, none, some, ◌>>=◌,
  List, [], ◌∷◌, ltb, leb, eqb, if◌then◌else◌, ◌==◌, len, length, unwrap_or, ◌+s◌, decimal, Assoc,
  find, before, is_empty, is_empty_text,
}
use context_guardian.Json.{
  Value, Items, Map, Number, unsigned, boolean, number, string, array, object, nil, cons, empty,
  entry, lookup, lookup_str, get, get_str, as_str, as_array, is_text, replace,
}
use context_guardian.MessageFormat.Message.{Serde}
use context_guardian.Capture.Bytes.{trim}
use context_guardian.Capture.Schema.{one_of}
use context_guardian.Rollout.Attachments.{with_payload, payload_of}
use context_guardian.Rollout.Chunks.{chunk_by_estimated_tokens, estimate_tokens}
use context_guardian.Rollout.Evidence.{ToolCallInfo, ends_with}
use context_guardian.Rollout.Images.{inline_data_image_bytes}

-- The fields of `Config` that are read here.
pub record SummaryConfig : Type 0 where
  pub large_tool_output_bytes : ℕ
  pub cc_switch_url : String
  pub cc_switch_model : String
  pub cc_switch_summary : Bool
  pub cc_switch_chunk_target_tokens : ℕ

abbrev pub cc_switch_max_reduce_rounds : ℕ
cc_switch_max_reduce_rounds = 4

abbrev pub summary_instructions : String
summary_instructions =
    "You summarize oversized Codex context fragments for local recovery. Preserve concrete file paths, commands, errors, test results, and decisions. Be concise and factual."

unfoldable pub nonempty : String → String → String
nonempty value fallback = if is_empty_text value then fallback else value

-- `parts.join(separator)`
unfoldable pub join_with : String → List String → String
join_with separator [] = ""
join_with separator (part ∷ []) = part
join_with separator (part ∷ other ∷ parts) =
    part +s separator +s join_with separator (other ∷ parts)

-- `trim_end_matches('/')`
abbrev drop_slash : Char → String → String
drop_slash c String.[] = if eqb (code c) 47 then "" else String.◌∷◌ c ""
drop_slash c rest = String.◌∷◌ c rest

unfoldable pub trim_slashes : String → String
trim_slashes String.[] = ""
trim_slashes (String.◌∷◌ c s) = drop_slash c (trim_slashes s)

unfoldable pub is_responses_endpoint : String → Bool
is_responses_endpoint url = ends_with (trim_slashes (before "#" (before "?" url))) "/responses"

abbrev pub chat_message : String → String → Value
chat_message role content =
    object (entry "content" (string content) (entry "role" (string role) empty))

unfoldable pub cc_switch_payload : String → ℕ → String → Bool → Value
cc_switch_payload prompt max_tokens model true = object (
    entry "input" (string prompt) (
      entry "instructions" (string summary_instructions) (
        entry "max_output_tokens" (number (unsigned max_tokens))
          (entry "model" (string model) (entry "stream" (boolean false) empty)))))
cc_switch_payload prompt max_tokens model false = object (
    entry "max_tokens" (number (unsigned max_tokens)) (
      entry "messages"
        (array (
          cons (chat_message "system" summary_instructions)
            (cons (chat_message "user" prompt) nil)))
        (entry "model" (string model) (entry "stream" (boolean false) empty))))

abbrev is_output_text : Option String → Bool
is_output_text none = false
is_output_text (some kind) = one_of kind ("output_text" ∷ "text" ∷ [])

-- The texts of the parts of one item, and of all items.
unfoldable pub part_texts : Items → List String
part_texts nil = []
part_texts (cons part parts) =
    let others = part_texts parts in
    if is_output_text (get_str "type" part)
    then elim (get_str "text" part) [ none ↦ others | some text ↦ text ∷ others ]
    else others

abbrev append_texts : List String → List String → List String
append_texts [] others = others
append_texts (text ∷ texts) others = text ∷ append_texts texts others

abbrev content_texts : Option Items → List String
content_texts none = []
content_texts (some parts) = part_texts parts

unfoldable pub output_texts : Items → List String
output_texts nil = []
output_texts (cons item items) =
    append_texts (content_texts (do content ← get "content" item; as_array content))
      (output_texts items)

unfoldable pub join_outputs : Items → Option String
join_outputs output =
    if is_empty (output_texts output) then none else some (join_with "\n" (output_texts output))

abbrev or_outputs : Option String → Value → Option String
or_outputs (some text) response = some text
or_outputs none response = do
  output ← get "output" response
  items ← as_array output
  join_outputs items

abbrev first_item : Value → Option Value
first_item (array (cons item items)) = some item
first_item value = none

unfoldable pub summary_text : Value → Bool → Option String
summary_text response true = or_outputs (get_str "output_text" response) response
summary_text response false = do
  choices ← get "choices" response
  choice ← first_item choices
  message ← get "message" choice
  get_str "content" message

unfoldable pub parse_cc_switch_summary : Value → Bool → Option String
parse_cc_switch_summary response responses_api = do
  text ← summary_text response responses_api
  if is_empty_text (trim text) then none else some (trim text)

abbrev pub arguments_of : ToolCallInfo → String
arguments_of info = unwrap_or info.arguments_preview "unknown arguments"

abbrev pub tool_of : ToolCallInfo → String
tool_of info = nonempty info.name "unknown-tool"

module _ (post : String → Value → Option Value) (config : SummaryConfig) where
  unfoldable pub cc_switch_summarize : String → ℕ → Option String
  cc_switch_summarize prompt max_tokens = do
    response ← post config.cc_switch_url (
        cc_switch_payload prompt max_tokens config.cc_switch_model
          (is_responses_endpoint config.cc_switch_url))
    parse_cc_switch_summary response (is_responses_endpoint config.cc_switch_url)

  unfoldable pub chunk_prompt : ToolCallInfo → ℕ → ℕ → ℕ → ℕ → String → String
  chunk_prompt tool_info original_len round index part_count part =
      "Tool: "
      +s tool_of tool_info
      +s "\nArguments: "
      +s arguments_of tool_info
      +s "\nOriginal output bytes: "
      +s decimal original_len
      +s "\nCompression round: "
      +s decimal (suc round)
      +s "\nChunk: "
      +s decimal (suc index)
      +s " of "
      +s decimal part_count
      +s "\nChunk bytes: "
      +s decimal (len part)
      +s "\n\nSummarize this chunk for Codex context recovery. Preserve concrete file paths, commands, errors, test results, and decisions. Do not invent content outside this chunk.\n\n"
      +s part

  -- The loop over the parts of one round.
  unfoldable pub summarize_parts : ToolCallInfo → ℕ → ℕ → ℕ → ℕ → List String → Option (List String)
  summarize_parts tool_info original_len round part_count index [] = some []
  summarize_parts tool_info original_len round part_count index (part ∷ parts) = do
    summary ←
        cc_switch_summarize (chunk_prompt tool_info original_len round index part_count part) 700
    summaries ← summarize_parts tool_info original_len round part_count (suc index) parts
    some (summary ∷ summaries)
