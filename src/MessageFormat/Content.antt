-- ===== src/MessageFormat/Content.antt =====
-- `text_item`, `normalize_content_item` and `normalize_content_container` of src/message_format.rs.
use context_guardian.Prelude.{
  ℕ, ◌+◌, String, true, false, ◌&&◌, [], ◌++◌, Option, none, some, ◌==◌, if◌then◌else◌, is_some,
  ◌+s◌, decimal,
}
use context_guardian.Json.{
  Value, string, array, object, Items, nil, cons, Map, empty, lookup, insert, remove, lookup_str,
}
use context_guardian.MessageFormat.Issue.{Diagnosed, issue}

-- `json!({"type": item_type, "text": text})`
unfoldable pub text_item : String → String → Value
text_item item_type text =
    object (insert "type" (string item_type) (insert "text" (string text) empty))

-- The last part of `normalize_content_item`: an item of a text type has its text.
unfoldable pub require_text : ℕ → String → Map → Diagnosed Map
require_text idx path map =
    if is_some (lookup_str "text" map) then (map, []) else elim (lookup_str "content" map) [
      | some text ↦ (
        insert "text" (string text) (remove "content" map),
        issue idx (path +s ".text") "string" (lookup "text" map) true,
      )
      | none ↦ (map, issue idx (path +s ".text") "string" (lookup "text" map) false)
    ]

-- The arms of `normalize_content_item` that write the expected type and go on to the text.
unfoldable pub retype : ℕ → String → String → Option Value → Map → Diagnosed Map
retype idx path expected_text_type actual map =
    let (after, more) = require_text idx path (insert "type" (string expected_text_type) map) in
    (after, issue idx (path +s ".type") expected_text_type actual true ++ more)

-- The arms that ask an item of another type for one text field and return.
unfoldable pub require_field : ℕ → String → String → Map → Diagnosed Map
require_field idx path field map = (
  map,
  if is_some (lookup_str field map)
      then []
      else issue idx (path +s "." +s field) "string" (lookup field map) false,
)

unfoldable pub reject_type : ℕ → String → String → Map → Diagnosed Map
reject_type idx path expected_text_type map =
    (map, issue idx (path +s ".type") expected_text_type (lookup "type" map) false)

-- The arms of `match item_type.as_deref()` for an item with a type of text.
unfoldable pub typed_item : ℕ → String → String → Map → String → Diagnosed Map
typed_item idx path expected_text_type map item_type =
    let retyped = retype idx path expected_text_type (lookup "type" map) map in
    if item_type == "text"
    then retyped
    else if (item_type == "input_text") && (expected_text_type == "output_text")
    then retyped
    else if (item_type == "output_text") && (expected_text_type == "input_text")
    then retyped
    else if (item_type == "input_image") && (expected_text_type == "input_text")
    then require_field idx path "image_url" map
    else if (item_type == "refusal") && (expected_text_type == "output_text")
    then require_field idx path "refusal" map
    else if item_type == expected_text_type
    then require_text idx path map
    else reject_type idx path expected_text_type map

-- The `match item_type.as_deref()` of `normalize_content_item`, and what follows it.
unfoldable pub match_item_type : ℕ → String → String → Map → Option String → Diagnosed Map
match_item_type idx path expected_text_type map none =
    if is_some (lookup_str "text" map)
    then retype idx path expected_text_type none map
    else reject_type idx path expected_text_type map
match_item_type idx path expected_text_type map (some item_type) =
    typed_item idx path expected_text_type map item_type

unfoldable pub normalize_content_map : ℕ → String → String → Map → Diagnosed Map
normalize_content_map idx path expected_text_type map =
    match_item_type idx path expected_text_type map (lookup_str "type" map)

unfoldable pub normalize_content_item : ℕ → String → String → Value → Diagnosed Value
normalize_content_item idx path expected_text_type (string text) = (
  text_item expected_text_type text,
  issue idx path "typed content object" (some (string text)) true,
)
normalize_content_item idx path expected_text_type (object map) =
    let (after, issues) = normalize_content_map idx path expected_text_type map in
    (object after, issues)
normalize_content_item idx path expected_text_type item =
    (item, issue idx path "typed content object" (some item) false)

-- `for (index, item) in items.iter_mut().enumerate()`, from the index `at`.
unfoldable pub normalize_items : ℕ → String → String → ℕ → Items → Diagnosed Items
normalize_items idx path expected_text_type at nil = (nil, [])
normalize_items idx path expected_text_type at (cons item items) =
    let (after, issues) =
      normalize_content_item idx (path +s "[" +s decimal at +s "]") expected_text_type item in
    let (rest, more) = normalize_items idx path expected_text_type (at + 1) items in
    (cons after rest, issues ++ more)

-- `normalize_content_container` once the content is an array.
unfoldable pub normalize_content_array : ℕ → String → String → Items → Diagnosed Value
normalize_content_array idx path expected_text_type nil =
    (array nil, issue idx path "non-empty content array" (some (array nil)) false)
normalize_content_array idx path expected_text_type (cons item items) =
    let (after, issues) = normalize_items idx path expected_text_type 0 (cons item items) in
    (array after, issues)

-- A repair of the container, followed by the diagnosis of its items.
unfoldable pub wrapped_content : ℕ → String → String → Value → Value → Diagnosed Value
wrapped_content idx path expected_text_type content item =
    let (after, more) = normalize_content_array idx path expected_text_type (cons item nil) in
    (after, issue idx path "non-empty content array" (some content) true ++ more)

unfoldable pub normalize_content_container : ℕ → String → String → Value → Diagnosed Value
normalize_content_container idx path expected_text_type (string text) =
    wrapped_content idx path expected_text_type (string text) (text_item expected_text_type text)
normalize_content_container idx path expected_text_type (object map) =
    wrapped_content idx path expected_text_type (object map) (object map)
normalize_content_container idx path expected_text_type (array items) =
    normalize_content_array idx path expected_text_type items
normalize_content_container idx path expected_text_type content =
    (content, issue idx path "non-empty content array" (some content) false)
