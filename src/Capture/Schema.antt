-- ===== src/Capture/Schema.antt =====
-- The schema that src/passive_capture.rs reports of a request's body: a path, a kind and at most a
-- known or hashed word for each value of it. A JSON map is ordered by its keys, so the sort of its
-- entries leaves them as they are.
pub mod Limits
pub mod Redaction
use context_guardian.Prelude.{
  ℕ, zero, suc, ◌+◌, ◌*◌, String, Bool, true, false, ◌||◌, Option, none, some, List, [], ◌∷◌, ◌++◌,
  ltb, leb, any, length, ◌==◌, if◌then◌else◌, ◌>>=◌, ◌+s◌, decimal, Assoc, put,
}
use context_guardian.Json.{
  Value, Items, Map, Number, null, boolean, number, string, array, object, nil, cons, empty, entry,
  as_str,
}
use context_guardian.Capture.Bytes.{as_bytes}
use context_guardian.Rollout.Evidence.{first_chars}

abbrev pub max_schema_fields : ℕ
max_schema_fields = 50000

abbrev pub max_schema_depth : ℕ
max_schema_depth = 64

pub record SchemaField : Type 0 where
  pub path : String
  pub value_type : String
  pub safe_enum : Option String

unfoldable pub value_kind : Value → String
value_kind null = "null"
value_kind (boolean b) = "boolean"
value_kind (number n) = "number"
value_kind (string s) = "string"
value_kind (array items) = "array"
value_kind (object map) = "object"

-- `matches!(text, a | b | …)`
abbrev pub one_of : String → List String → Bool
one_of text words = any (λ word. text == word) words

abbrev pub roles : List String
roles = "user" ∷ "assistant" ∷ "system" ∷ "developer" ∷ "tool" ∷ []

abbrev pub types : List String
types =
    "message" ∷ "input_text" ∷ "output_text" ∷ "input_image" ∷ "function_call"
    ∷ "function_call_output" ∷ "computer_call" ∷ "computer_call_output" ∷ "reasoning" ∷ "error"
    ∷ "response.completed" ∷ "response.failed" ∷ []

abbrev pub protocol_fields : List String
protocol_fields =
    "id" ∷ "model" ∷ "input" ∷ "output" ∷ "role" ∷ "content" ∷ "type" ∷ "text" ∷ "arguments"
    ∷ "name" ∷ "call_id" ∷ "tool_call_id" ∷ "tools" ∷ "instructions" ∷ "replacement_history"
    ∷ "previous_response_id" ∷ "stream" ∷ "store" ∷ "metadata" ∷ "request_id" ∷ "turn_id"
    ∷ "thread_id" ∷ "conversation_id" ∷ "prompt_cache_key" ∷ "status" ∷ "error" ∷ "message"
    ∷ "reasoning" ∷ "summary" ∷ "include" ∷ "temperature" ∷ "top_p" ∷ "max_output_tokens"
    ∷ "parallel_tool_calls" ∷ "tool_choice" ∷ []

unfoldable pub is_protocol_field : String → Bool
is_protocol_field name = one_of name protocol_fields

unfoldable pub is_identifier_key : String → Bool
is_identifier_key key = one_of key (
    "request_id" ∷ "turn_id" ∷ "thread_id" ∷ "conversation_id" ∷ "prompt_cache_key" ∷ "call_id"
    ∷ [])

-- The words that a report may hold: of a role, or of a type.
unfoldable pub is_allowed : String → String → Bool
is_allowed kind value =
    if kind == "role"
    then one_of value roles
    else if kind == "type"
    then one_of value types
    else false

-- The hash gives the hexadecimal digits of the SHA-256 of bytes.
module _ (sha256_hex : List ℕ → String) where
  abbrev pub short_hash : String → String
  short_hash text = first_chars 16 (sha256_hex (as_bytes text))

  unfoldable pub safe_enum : String → String → String
  safe_enum kind value = if is_allowed kind value then value else "other:" +s short_hash value

  unfoldable pub escape_path : String → String
  escape_path name = if is_protocol_field name then name else "[key:" +s short_hash name +s "]"

  -- The `match` on the key and the text.
  unfoldable pub enum_of : Option String → Option String → Option String
  enum_of (some key) (some text) =
      if key == "role"
      then some (safe_enum "role" text)
      else if key == "type"
      then some (safe_enum "type" text)
      else none
  enum_of key text = none

  -- The part of `collect_schema` in front of the children: the guard and the value's own field.
  unfoldable pub push_field :
      Value → String → Option String → ℕ → List SchemaField → Option (List SchemaField)
  push_field value path key depth output =
      if ltb max_schema_depth depth || leb max_schema_fields (length output)
      then none
      else some (
          output
          ++ record {
            path = path;
            value_type = value_kind value;
            safe_enum = enum_of key (as_str value);
          }
            ∷ [])

  -- `format!("{path}[{index}]")` and `format!("{path}.{}", escape_path(name))`
  abbrev pub item_path : String → ℕ → String
  item_path path index = path +s "[" +s decimal index +s "]"

  abbrev pub entry_path : String → String → String
  entry_path path name = path +s "." +s escape_path name

  unfoldable mutual
    pub collect_schema :
        Value → String → Option String → ℕ → List SchemaField → Option (List SchemaField)
    collect_schema (array items) path key depth output = do
      output ← push_field (array items) path key depth output
      collect_items items path 0 (suc depth) output
    collect_schema (object map) path key depth output = do
      output ← push_field (object map) path key depth output
      collect_entries map path (suc depth) output
    collect_schema value path key depth output = push_field value path key depth output

    pub collect_items : Items → String → ℕ → ℕ → List SchemaField → Option (List SchemaField)
    collect_items nil path index depth output = some output
    collect_items (cons item items) path index depth output = do
      output ← collect_schema item (item_path path index) none depth output
      collect_items items path (suc index) depth output

    pub collect_entries : Map → String → ℕ → List SchemaField → Option (List SchemaField)
    collect_entries empty path depth output = some output
    collect_entries (entry name item map) path depth output = do
      output ← collect_schema item (entry_path path name) (some name) depth output
      collect_entries map path depth output
