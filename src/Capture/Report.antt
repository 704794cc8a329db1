-- ===== src/Capture/Report.antt =====
-- The reports that src/passive_capture.rs makes of the transactions in a capture.
pub mod Flows
use context_guardian.Prelude.{
  ℕ, zero, suc, ◌+◌, String, Bool, true, false, not, ◌&&◌, ◌||◌, Option, none, some, List, [], ◌∷◌,
  ◌++◌, map, ltb, leb, eqb, if◌then◌else◌, ◌==◌, length, any, unwrap_or, is_empty, is_empty_text,
  codes, Assoc, find, put, split, strip_prefix, sort_by_key, ◌+s◌, decimal,
}
use context_guardian.Json.{
  Value, Items, Map, Number, unsigned, signed_or_float, null, boolean, number, string, array,
  object, nil, cons, empty, entry, lookup, lookup_str, is_text,
}
use context_guardian.Capture.Io.{IoResult, ok, error, ◌>>=◌, or_invalid}
use context_guardian.Capture.Bytes.{
  from_utf8, as_bytes, trim, to_ascii_lowercase, split_whitespace, from_str_radix,
}
use context_guardian.Capture.Schema.{
  SchemaField, one_of, collect_schema, item_path, entry_path, is_identifier_key, short_hash,
  max_schema_depth,
}
use context_guardian.Capture.Http.{HttpMessage}
use context_guardian.Capture.Correlate.{TransactionReport}

-- `error` is there and not null.
abbrev has_error : Option Value → Bool
has_error none = false
has_error (some null) = false
has_error (some value) = true

unfoldable mutual
  pub json_has_error : Value → Bool
  json_has_error (object map) =
      has_error (lookup "error" map)
      || (is_text "error" (lookup_str "type" map)
          || is_text "response.failed" (lookup_str "type" map)
          || entry_has_error map)
  json_has_error (array items) = item_has_error items
  json_has_error value = false

  pub item_has_error : Items → Bool
  item_has_error nil = false
  item_has_error (cons item items) = json_has_error item || item_has_error items

  pub entry_has_error : Map → Bool
  entry_has_error empty = false
  entry_has_error (entry name item map) = json_has_error item || entry_has_error map

unfoldable pub parse_response_status : String → Option ℕ
parse_response_status line = elim (split_whitespace line) [
  | [] ↦ none
  | version ∷ [] ↦ none
  | version ∷ status ∷ rest ↦ from_str_radix 10 16 (codes status)
]

-- The JSON reader and printers of serde_json, and the hexadecimal digits of the SHA-256 of bytes.
module _ (sha256_hex : List ℕ → String) (from_slice : List ℕ → Option Value)
    (print_number : Number → String) (print_schema : List SchemaField → Option (List ℕ)) where
  unfoldable pub safe_content_encoding : String → String
  safe_content_encoding value =
      let normalized = to_ascii_lowercase (trim value) in
      if one_of normalized ("identity" ∷ "gzip" ∷ [])
      then normalized
      else "other:" +s short_hash sha256_hex normalized

  unfoldable pub scalar_bytes : Value → Option (List ℕ)
  scalar_bytes (string text) = some (as_bytes text)
  scalar_bytes (number n) = some (as_bytes (print_number n))
  scalar_bytes value = none

  -- The test on an entry of an object.
  unfoldable pub put_identifier : String → String → Value → Assoc String → Assoc String
  put_identifier name path item output = elim (scalar_bytes item) [
    | none ↦ output
    | some bytes ↦ if is_identifier_key name then put path (sha256_hex bytes) output else output
  ]

  abbrev pub is_over : ℕ → Assoc String → Bool
  is_over depth output = ltb max_schema_depth depth || leb 64 (length output)

  unfoldable mutual
    pub collect_identifiers : Value → String → Assoc String → ℕ → Assoc String
    collect_identifiers (array items) path output depth =
        let more = identifiers_of_items items path 0 output (suc depth) in
        if is_over depth output then output else more
    collect_identifiers (object map) path output depth =
        let more = identifiers_of_entries map path output (suc depth) in
        if is_over depth output then output else more
    collect_identifiers value path output depth = output

    pub identifiers_of_items : Items → String → ℕ → Assoc String → ℕ → Assoc String
    identifiers_of_items nil path index output depth = output
    identifiers_of_items (cons item items) path index output depth =
        identifiers_of_items items path (suc index)
          (collect_identifiers item (item_path sha256_hex path index) output depth) depth

    pub identifiers_of_entries : Map → String → Assoc String → ℕ → Assoc String
    identifiers_of_entries empty path output depth = output
    identifiers_of_entries (entry name item map) path output depth =
        let here = entry_path sha256_hex path name in
        identifiers_of_entries map path
          (collect_identifiers item here (put_identifier name here item output) depth) depth

  -- The lines that an event stream sends as data; the cut of a line's carriage return is left to `trim`.
  unfoldable pub data_has_error : String → Bool
  data_has_error line = elim (strip_prefix "data:" line) [
    | none ↦ false
    | some text ↦ elim (from_slice (as_bytes (trim text))) [
      | none ↦ false
      | some value ↦ json_has_error value
    ]
  ]

  abbrev text_has_error : Option String → Bool
  text_has_error none = false
  text_has_error (some text) = any data_has_error (split "\n" text)

  abbrev is_error_status : Option ℕ → Bool
  is_error_status none = false
  is_error_status (some status) = leb 400 status

  unfoldable pub response_has_error : HttpMessage → Bool
  response_has_error response =
      is_error_status (parse_response_status response.start_line)
      || elim (from_slice response.body) [
        | some value ↦ json_has_error value
        | none ↦ text_has_error (from_utf8 response.body)
      ]

  abbrev response_parts : Option HttpMessage → Option ℕ × Bool
  response_parts none = (none, false)
  response_parts (some message) =
      (parse_response_status message.start_line, response_has_error message)

  abbrev encoding_of : Option String → String
  encoding_of none = "identity"
  encoding_of (some value) = safe_content_encoding value

  -- `request_report` behind the reading of the body as JSON.
  unfoldable pub report_of :
      HttpMessage
      → Option HttpMessage
      → String
      → String
      → Value
      → IoResult (Option TransactionReport)
  report_of request response method target value = do
    schema ←
        or_invalid "JSON schema exceeds safety limit"
          (collect_schema sha256_hex value "$" none 0 [])
    schema_serialized ← or_invalid "JSON" (print_schema schema)
    let (response_status, response_error_envelope) = response_parts response
    ok (
        some (record {
          request_at_unix_ms = request.timestamp_ms;
          method = method;
          target_hash = sha256_hex (as_bytes target);
          content_encoding = encoding_of (find "content-encoding" request.headers);
          encoded_body_bytes = request.encoded_body_bytes;
          decoded_body_bytes = length request.body;
          body_hash = sha256_hex request.body;
          schema_hash = sha256_hex schema_serialized;
          schema = schema;
          identifiers = collect_identifiers value "$" [] 0;
          response_status = response_status;
          response_error_envelope = response_error_envelope;
        }))

  unfoldable pub request_report :
      HttpMessage → Option HttpMessage → IoResult (Option TransactionReport)
  request_report request response = elim (split_whitespace request.start_line) [
    | [] ↦ ok none
    | method ∷ [] ↦ ok none
    | method ∷ target ∷ rest ↦ elim (from_slice request.body) [
      | none ↦ ok none
      | some value ↦ report_of request response method target value
    ]
  ]
