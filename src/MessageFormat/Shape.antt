-- ===== src/MessageFormat/Shape.antt =====
-- What a well-formed record is, stated on the value alone and with no regard to how a repair is
-- made: the shapes that src/message_format.rs accepts.
use context_guardian.Prelude.{
  String, Bool, true, false, not, ◌&&◌, ◌||◌, Option, none, some, ◌==◌, is_some, if◌then◌else◌, map,
}
use context_guardian.Json.{
  Value, string, array, object, Items, nil, cons, Map, lookup, lookup_str, get, get_str, is_text,
}
use context_guardian.MessageFormat.Message.{is_string, is_role}
use context_guardian.MessageFormat.Record.{is_array, payload_type}

-- The text type that a message of an assistant has, and that all other messages have.
abbrev pub text_type : Bool → String
text_type from_assistant = if from_assistant then "output_text" else "input_text"

abbrev pub has_text : String → Map → Bool
has_text key map = is_some (lookup_str key map)

abbrev pub has_type : String → Map → Bool
has_type t map = is_text t (lookup_str "type" map)

-- A text of the role's type, an image in input, or a refusal in output.
unfoldable pub is_content_map : Bool → Map → Bool
is_content_map from_assistant map =
    (has_type (text_type from_assistant) map && has_text "text" map)
    || (if from_assistant
        then has_type "refusal" map && has_text "refusal" map
        else has_type "input_image" map && has_text "image_url" map)

unfoldable pub is_content_item : Bool → Value → Bool
is_content_item from_assistant (object map) = is_content_map from_assistant map
is_content_item from_assistant _ = false

unfoldable pub are_content_items : Bool → Items → Bool
are_content_items from_assistant nil = true
are_content_items from_assistant (cons item items) =
    is_content_item from_assistant item && are_content_items from_assistant items

-- A non-empty array of content items.
unfoldable pub is_content : Bool → Value → Bool
is_content from_assistant (array (cons item items)) =
    are_content_items from_assistant (cons item items)
is_content from_assistant _ = false

abbrev pub some_and : Option Value → (Value → Bool) → Bool
some_and none p = false
some_and (some value) p = p value

abbrev pub is_text_value : Option Value → Bool
is_text_value value = some_and value is_string

abbrev pub has_role : (String → Bool) → Option String → Bool
has_role p none = false
has_role p (some role) = p role

-- A message: its type, a known role, and content whose texts have the type of the role.
unfoldable pub is_message_map : Map → Bool
is_message_map map =
    has_type "message" map
    && (has_role
        (λ role. is_role role && some_and (lookup "content" map) (is_content (role == "assistant")))
        (lookup_str "role" map))

unfoldable pub is_message : Value → Bool
is_message (object map) = is_message_map map
is_message _ = false

unfoldable pub are_messages : Items → Bool
are_messages nil = true
are_messages (cons message messages) = is_message message && are_messages messages

unfoldable pub is_history : Value → Bool
is_history (array (cons message messages)) = are_messages (cons message messages)
is_history _ = false

-- A summary text and a non-empty array of messages.
unfoldable pub is_compacted : Map → Bool
is_compacted payload =
    is_text_value (lookup "message" payload)
    && some_and (lookup "replacement_history" payload) is_history

abbrev pub has_nonempty_text : String → Map → Bool
has_nonempty_text key map = has_role (λ text. not (text == "")) (lookup_str key map)

-- Arguments are JSON that was encoded as a text.
unfoldable pub is_function_call : Map → Bool
is_function_call map =
    has_nonempty_text "call_id" map
    && has_nonempty_text "name" map
    && is_text_value (lookup "arguments" map)

unfoldable pub is_output : Value → Bool
is_output (string text) = true
is_output value = is_content false value

unfoldable pub is_tool_output : Map → Bool
is_tool_output map = has_nonempty_text "call_id" map && some_and (lookup "output" map) is_output

abbrev pub is_absent_or_array : String → Map → Bool
is_absent_or_array field map = elim (lookup field map) [ none ↦ true | some value ↦ is_array value ]

unfoldable pub is_user_message : Map → Bool
is_user_message payload =
    is_text_value (lookup "message" payload)
    && (is_absent_or_array "images" payload
        && (is_absent_or_array "local_images" payload
            && (is_absent_or_array "text_elements" payload && true)))

unfoldable pub is_payload : Value → Bool
is_payload (object map) = elim (lookup_str "type" map) [
  | none ↦ true
  | some t ↦
      if t == "message"
      then is_message_map map
      else if t == "function_call"
      then is_function_call map
      else if t == "function_call_output" || t == "custom_tool_call_output"
      then is_tool_output map
      else true
]
is_payload _ = true

abbrev pub object_and : Option Value → (Map → Bool) → Bool
object_and (some (object map)) p = p map
object_and _ p = false

-- A record of a checked kind has the shape of its kind; all others are taken as they are.
unfoldable pub is_record : Value → Bool
is_record value = elim (get_str "type" value) [
  | none ↦ true
  | some t ↦
      if t == "compacted"
      then object_and (get "payload" value) is_compacted
      else if t == "response_item"
      then some_and (get "payload" value) is_payload
      else if (t == "event_msg") && is_text "user_message" (payload_type value)
      then object_and (get "payload" value) is_user_message
      else true
]
