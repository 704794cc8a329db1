-- ===== src/Rollout/Images.antt =====
-- The inline images that src/main.rs takes out of the outputs of tools and of user messages. A span of a
-- text is given by the text in front of it and its own text.
pub mod Parts
pub mod Unchanged
use Prim.Native.Char.{Char, code}
use context_guardian.Prelude.{
  ℕ, zero, suc, ◌+◌, String, Bool, true, false, not, ◌&&◌, ◌||◌, Option, none, some, ◌>>=◌, List,
  [], ◌∷◌, ltb, eqb, if◌then◌else◌, ◌==◌, len, codes, length, unwrap_or, is_some, ◌+s◌, decimal,
  strip_prefix, split_once, Assoc, find,
}
use context_guardian.Json.{
  Value, Items, Map, null, boolean, number, string, array, object, nil, cons, empty, entry, lookup,
  lookup_str, get_str, is_text, insert, replace,
}
use context_guardian.MessageFormat.Message.{Serde}
use context_guardian.Capture.Bytes.{is_space, trim}
use context_guardian.Rollout.Evidence.{ToolCallInfo, preview, contains_text}

-- A quote, a space, or a closing bracket ends a data URI.
unfoldable pub ends_uri : ℕ → Bool
ends_uri n = eqb n 34 || (eqb n 39 || (is_space n || (eqb n 41 || eqb n 93)))

-- The text in front of the first `data:image`, and the text from there on.
unfoldable pub find_uri : String → Option (String × String)
find_uri String.[] = none
find_uri (String.◌∷◌ c s) =
    let later = (do (front, rest) ← find_uri s; some (String.◌∷◌ c front, rest)) in
    if is_some (strip_prefix "data:image" (String.◌∷◌ c s))
    then some ("", String.◌∷◌ c s)
    else later

-- The text up to where a data URI ends, and the text behind it.
unfoldable pub cut_uri : String → String × String
cut_uri String.[] = ("", "")
cut_uri (String.◌∷◌ c s) =
    let (uri, rest) = cut_uri s in
    if ends_uri (code c) then ("", String.◌∷◌ c s) else (String.◌∷◌ c uri, rest)

-- The loop of `data_image_spans`, on fuel: each turn takes at least one character. The spans, each
-- with the text in front of it, and the text behind the last one.
unfoldable pub spans_from : ℕ → String → List (String × String) × String
spans_from zero text = ([], text)
spans_from (suc fuel) text = elim (find_uri text) [
  | none ↦ ([], text)
  | some (front, found) ↦
      let (uri, behind) = cut_uri found in
      let (spans, rest) = spans_from fuel behind in ((front, uri) ∷ spans, rest)
]

unfoldable pub data_image_spans : String → List (String × String) × String
data_image_spans text = spans_from (suc (length (codes text))) text

unfoldable pub uri_bytes : List (String × String) → ℕ
uri_bytes [] = 0
uri_bytes ((front, uri) ∷ spans) = len uri + uri_bytes spans

unfoldable mutual
  pub inline_data_image_bytes : Value → ℕ
  inline_data_image_bytes (string text) = uri_bytes (data_image_spans text).0
  inline_data_image_bytes (object map) = inline_bytes_of_map map
  inline_data_image_bytes (array items) = inline_bytes_of_items items
  inline_data_image_bytes value = 0

  pub inline_bytes_of_map : Map → ℕ
  inline_bytes_of_map empty = 0
  inline_bytes_of_map (entry key value map) =
      inline_data_image_bytes value + inline_bytes_of_map map

  pub inline_bytes_of_items : Items → ℕ
  inline_bytes_of_items nil = 0
  inline_bytes_of_items (cons item items) =
      inline_data_image_bytes item + inline_bytes_of_items items

abbrev first_split : Option (String × String) → Option (String × String) → Option (String × String)
first_split none other = other
first_split (some parts) other = some parts

-- The MIME type that a data URI names.
abbrev mime_of : Option (String × String) → String
mime_of none = "image/*"
mime_of (some (mime, rest)) = if is_some (strip_prefix "image/" mime) then mime else "image/*"

unfoldable pub data_image_mime : String → String
data_image_mime data_uri = mime_of (do
  rest ← strip_prefix "data:" data_uri
  first_split (split_once ";" rest) (split_once "," rest))

unfoldable pub image_placeholder : String → String → String → ℕ → String
image_placeholder thread_id image_path mime removed_bytes =
    "[context-guardian:inline-image-placeholder thread="
    +s thread_id
    +s " mime="
    +s mime
    +s " removed_bytes="
    +s decimal removed_bytes
    +s " original_file="
    +s image_path
    +s "]"

unfoldable pub published_image_placeholder : String → String → String → ℕ → String → String
published_image_placeholder thread_id image_path mime removed_bytes url =
    "[context-guardian:published-image-reference thread="
    +s thread_id
    +s " mime="
    +s mime
    +s " removed_bytes="
    +s decimal removed_bytes
    +s " original_file="
    +s image_path
    +s " url="
    +s url
    +s "]"

unfoldable pub is_image_placeholder : String → Bool
is_image_placeholder value =
    is_some (strip_prefix "[context-guardian:inline-image-placeholder " value)
    || is_some (strip_prefix "[codex-context-janitor:inline-image-placeholder " value)

-- What becomes of an item: it is kept as it is, or replaced by a text, or its fields are looked at.
pub data Replacement : Type 0 where
  keep : Replacement
  by_text : String → ℕ → Replacement
  descend : Replacement

-- The publisher, where there is one, gives an image a public address or fails.
module _ (publish_data_uri : String → Option String) (thread_id image_path : String) where
  unfoldable pub scrub_spans : List (String × String) → String → String
  scrub_spans [] rest = rest
  scrub_spans ((front, uri) ∷ spans) rest =
      front
      +s image_placeholder thread_id image_path (data_image_mime uri) (len uri)
      +s scrub_spans spans rest

  unfoldable pub scrub_data_image_text : String → Option (String × ℕ)
  scrub_data_image_text text = elim (data_image_spans text).0 [
    | [] ↦ none
    | span ∷ spans ↦
        some (scrub_spans (span ∷ spans) (data_image_spans text).1, uri_bytes (span ∷ spans))
  ]

  unfoldable pub replace_url : String → Replacement
  replace_url image_url =
      if is_some (strip_prefix "data:image" image_url)
      then elim (publish_data_uri image_url) [
        | some url ↦
            by_text
              (published_image_placeholder thread_id image_path (data_image_mime image_url)
                (len image_url) url)
              (len image_url)
        | none ↦
            by_text
              (image_placeholder thread_id image_path (data_image_mime image_url) (len image_url))
              (len image_url)
      ]
      else if is_image_placeholder image_url
      then by_text image_url 1
      else descend

  unfoldable pub image_item : Map → Replacement
  image_item map =
      if is_text "input_image" (lookup_str "type" map)
      then elim (lookup_str "image_url" map) [
        | none ↦ keep
        | some image_url ↦ replace_url image_url
      ]
      else descend

  abbrev pub scrubbed_text : String → Option (String × ℕ) → Value × ℕ
  scrubbed_text text none = (string text, 0)
  scrubbed_text text (some (scrubbed, removed)) = (string scrubbed, removed)

  abbrev pub scrubbed_item : Map → Map × ℕ → Replacement → Value × ℕ
  scrubbed_item map children keep = (object map, 0)
  scrubbed_item map children (by_text text removed) =
      (object (insert "text" (string text) (insert "type" (string "input_text") empty)), removed)
  scrubbed_item map (scrubbed, removed) descend = (object scrubbed, removed)

  -- The value afterwards, and how much was removed.
  unfoldable mutual
    pub scrub_inline_images : Value → Value × ℕ
    scrub_inline_images (string text) = scrubbed_text text (scrub_data_image_text text)
    scrub_inline_images (object map) = scrubbed_item map (scrub_map map) (image_item map)
    scrub_inline_images (array items) =
        let (scrubbed, removed) = scrub_items items in (array scrubbed, removed)
    scrub_inline_images value = (value, 0)

    pub scrub_map : Map → Map × ℕ
    scrub_map empty = (empty, 0)
    scrub_map (entry key value map) =
        let (scrubbed, removed) = scrub_inline_images value in
        let (others, more) = scrub_map map in (entry key scrubbed others, removed + more)

    pub scrub_items : Items → Items × ℕ
    scrub_items nil = (nil, 0)
    scrub_items (cons item items) =
        let (scrubbed, removed) = scrub_inline_images item in
        let (others, more) = scrub_items items in (cons scrubbed others, removed + more)
