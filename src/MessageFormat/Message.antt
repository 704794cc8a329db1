-- ===== src/MessageFormat/Message.antt =====
-- `flatten_text`, `diagnose_message`, `normalize_history_container` and `diagnose_compacted` of
-- src/message_format.rs.
use context_guardian.Prelude.{
  ℕ, ◌+◌, String, Bool, true, false, ◌&&◌, ◌||◌, List, [], ◌∷◌, ◌++◌, Option, none, some, ◌==◌,
  is_empty, if◌then◌else◌, ◌+s◌, decimal, ◌>>=◌, map,
}
use context_guardian.Json.{
  Value, string, array, object, Items, nil, cons, Map, lookup, insert, lookup_str, get,
  contains_key,
}
use context_guardian.MessageFormat.Issue.{FormatIssue, Diagnosed, issue, with_field, with_payload}
use context_guardian.MessageFormat.Content.{normalize_content_container}

-- `serde_json::from_str` with `.ok()` and `serde_json::to_string` with `.ok()`, which are not code
-- of this repository.
pub record Serde : Type 0 where
  pub decode : String → Option Value
  pub encode : Value → Option String

abbrev pub is_string : Value → Bool
is_string (string s) = true
is_string _ = false

-- The texts of the items, or nothing when one item has none.
item_texts : Items → Option (List String)
item_texts nil = some []
item_texts (cons (string text) items) = do texts ← item_texts items; some (text ∷ texts)
item_texts (cons (object map) items) = do
  text ← lookup_str "text" map
  texts ← item_texts items
  some (text ∷ texts)
item_texts (cons _ items) = none

join_lines : List String → String
join_lines [] = ""
join_lines (text ∷ []) = text
join_lines (text ∷ next ∷ texts) = text +s "\n" +s join_lines (next ∷ texts)

unfoldable pub flatten_text : Value → Option String
unfolding item_texts join_lines
flatten_text (string text) = some text
flatten_text (array items) = do
  texts ← item_texts items
  if is_empty texts then none else some (join_lines texts)
flatten_text (object map) = lookup_str "text" map
flatten_text _ = none

-- The check of `payload.message`, which `diagnose_compacted` and `diagnose_user_message` share.
unfoldable pub check_summary : ℕ → Value → Diagnosed Value
check_summary idx message =
    if is_string message then (message, []) else elim (flatten_text message) [
      | none ↦ (message, issue idx "payload.message" "string" (some message) false)
      | some text ↦ (string text, issue idx "payload.message" "string" (some message) true)
    ]

unfoldable pub diagnose_summary : ℕ → Map → Diagnosed Map
diagnose_summary idx =
    with_field "message" (issue idx "payload.message" "string" none false) (check_summary idx)

abbrev pub is_role : String → Bool
is_role role = role == "assistant" || role == "user" || role == "developer" || role == "system"

-- The part of `diagnose_message` behind the check of the role.
unfoldable pub diagnose_role_content : ℕ → String → String → Map → Diagnosed Map
diagnose_role_content idx path role =
    with_field "content" (issue idx (path +s ".content") "non-empty content array" none false) (
      normalize_content_container idx (path +s ".content")
        (if role == "assistant" then "output_text" else "input_text"))

-- The part of `diagnose_message` behind the check of the type, with the role that it has.
unfoldable pub diagnose_role : ℕ → String → Map → Option String → Diagnosed Map
diagnose_role idx path map none = (
  map,
  issue idx (path +s ".role") "assistant, user, developer, or system" (lookup "role" map) false,
)
diagnose_role idx path map (some role) =
    if is_role role then diagnose_role_content idx path role map else (
      map,
      issue idx (path +s ".role") "assistant, user, developer, or system" (lookup "role" map) false,
    )

-- `diagnose_message` of an object, with the type that it has.
unfoldable pub diagnose_message_type : ℕ → String → Map → Option String → Diagnosed Map
diagnose_message_type idx path map none =
    let report = issue idx (path +s ".type") "message" (lookup "type" map) in
    if contains_key "role" map && contains_key "content" map
    then (let typed = insert "type" (string "message") map in
        let (after, more) = diagnose_role idx path typed (lookup_str "role" typed) in
        (after, report true ++ more))
    else (map, report false)
diagnose_message_type idx path map (some t) =
    if t == "message"
    then diagnose_role idx path map (lookup_str "role" map)
    else (map, issue idx (path +s ".type") "message" (lookup "type" map) false)

unfoldable pub diagnose_message_map : ℕ → String → Map → Diagnosed Map
diagnose_message_map idx path map = diagnose_message_type idx path map (lookup_str "type" map)

unfoldable pub diagnose_message : ℕ → String → Value → Diagnosed Value
diagnose_message idx path (object map) =
    let (after, issues) = diagnose_message_map idx path map in (object after, issues)
diagnose_message idx path message = (message, issue idx path "message object" (some message) false)

-- `for (index, message) in messages.iter_mut().enumerate()`, from the index `at`.
unfoldable pub diagnose_messages : ℕ → ℕ → Items → Diagnosed Items
diagnose_messages idx at nil = (nil, [])
diagnose_messages idx at (cons message messages) =
    let (after, issues) =
      diagnose_message idx ("payload.replacement_history[" +s decimal at +s "]") message in
    let (rest, more) = diagnose_messages idx (at + 1) messages in (cons after rest, issues ++ more)

-- The array that a decoded history stands for.
unfoldable pub as_history : Value → Option Value
as_history (array items) = some (array items)
as_history (object map) = some (array (cons (object map) nil))
as_history _ = none

abbrev pub history_issue : ℕ → Value → Bool → List FormatIssue
history_issue idx history =
    issue idx "payload.replacement_history" "array of message objects" (some history)

-- A history that is a text, with what the text decodes to.
unfoldable pub normalize_decoded : ℕ → String → Option Value → Diagnosed Value
normalize_decoded idx encoded decoded = elim (do value ← decoded; as_history value) [
  | none ↦ (string encoded, history_issue idx (string encoded) false)
  | some replacement ↦ (replacement, history_issue idx (string encoded) true)
]

module _ (serde : Serde) where
  unfoldable pub normalize_history_container : ℕ → Value → Diagnosed Value
  normalize_history_container idx (array items) = (array items, [])
  normalize_history_container idx (object map) =
      (array (cons (object map) nil), history_issue idx (object map) true)
  normalize_history_container idx (string encoded) =
      normalize_decoded idx encoded (serde.decode encoded)
  normalize_history_container idx history = (history, history_issue idx history false)

-- The part of `diagnose_compacted` behind `normalize_history_container`.
unfoldable pub diagnose_history : ℕ → Value → Diagnosed Value
diagnose_history idx (array nil) = (
  array nil,
  issue idx "payload.replacement_history" "non-empty array of message objects" (some (array nil))
      false,
)
diagnose_history idx (array (cons message messages)) =
    let (after, issues) = diagnose_messages idx 0 (cons message messages) in (array after, issues)
diagnose_history idx history = (history, [])

module _ (serde : Serde) where
  unfoldable pub check_history : ℕ → Value → Diagnosed Value
  check_history idx history =
      let (normal, issues) = normalize_history_container serde idx history in
      let (after, more) = diagnose_history idx normal in (after, issues ++ more)

  unfoldable pub diagnose_compacted_history : ℕ → Map → Diagnosed Map
  diagnose_compacted_history idx =
      with_field "replacement_history"
        (issue idx "payload.replacement_history" "array of message objects" none false)
        (check_history idx)

  -- `diagnose_compacted` behind the check of the payload.
  unfoldable pub diagnose_compacted_payload : ℕ → Map → Diagnosed Map
  diagnose_compacted_payload idx payload =
      let (checked, issues) = diagnose_summary idx payload in
      let (after, more) = diagnose_compacted_history idx checked in (after, issues ++ more)

  unfoldable pub diagnose_compacted : ℕ → Value → Diagnosed Value
  diagnose_compacted idx value =
      with_payload (issue idx "payload" "object" (get "payload" value) false)
        (diagnose_compacted_payload idx) value
