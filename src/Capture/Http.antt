-- ===== src/Capture/Http.antt =====
-- The HTTP messages that `parse_http_messages` of src/passive_capture.rs finds in a stream. The
-- decompression of the library flate2 is a parameter: it gets the number of bytes to give at most.
pub mod Bounds
pub mod Progress
use context_guardian.Prelude.{
  ℕ, zero, suc, ◌+◌, ◌-◌, ◌*◌, min, String, Bool, true, false, not, Option, none, some, List, [],
  ◌∷◌, ◌++◌, map, ltb, leb, if◌then◌else◌, ◌==◌, slice, length, drop, any, codes, split_once, split,
  unwrap_or, Assoc, find, put,
}
use context_guardian.Capture.Io.{IoResult, ok, error, ◌>>=◌, or_invalid, invalid_data}
use context_guardian.Capture.Bytes.{
  from_utf8, trim, to_ascii_lowercase, split_lines, from_str_radix, find_bytes,
}
use context_guardian.Capture.Schema.{one_of}
use context_guardian.Capture.Stream.{ByteStream, timestamp_for}
use context_guardian.Capture.Chunked.{decode_chunked}

pub record HttpMessage : Type 0 where
  pub timestamp_ms : ℕ
  pub start_line : String
  pub headers : Assoc String
  pub body : List ℕ
  pub encoded_body_bytes : ℕ

-- `filter_map(…).min()`
unfoldable pub least : List (Option ℕ) → Option ℕ
least [] = none
least (none ∷ places) = least places
least (some place ∷ places) = elim (least places) [
  | none ↦ some place
  | some other ↦ some (min place other)
]

abbrev pub start_patterns : Bool → List String
start_patterns true = "HTTP/1.1 " ∷ "HTTP/1.0 " ∷ []
start_patterns false = "POST " ∷ "PUT " ∷ "PATCH " ∷ "GET " ∷ "DELETE " ∷ []

unfoldable pub find_http_start : List ℕ → ℕ → Bool → Option ℕ
find_http_start bytes offset response =
    least (map (λ pattern. find_bytes bytes (codes pattern) offset) (start_patterns response))

abbrev known_headers : List String
known_headers = "content-length" ∷ "transfer-encoding" ∷ "content-encoding" ∷ "content-type" ∷ []

-- The loop over the lines of the header.
unfoldable pub put_header : Assoc String → String → Assoc String
put_header headers line = elim (split_once ":" line) [
  | none ↦ headers
  | some (name, value) ↦
      let lower = to_ascii_lowercase (trim name) in
      if one_of lower known_headers
      then put lower (to_ascii_lowercase (trim value)) headers
      else headers
]

unfoldable pub read_headers : Assoc String → List String → Assoc String
read_headers headers [] = headers
read_headers headers (line ∷ lines) = read_headers (put_header headers line) lines

-- `value.split(',').any(|part| part.trim() == word)`, on a header that may be missing.
unfoldable pub lists_word : String → Option String → Bool
lists_word word none = false
lists_word word (some value) = any (λ part. trim part == word) (split "," value)

unfoldable pub content_length : Assoc String → ℕ
content_length headers = elim (find "content-length" headers) [
  | none ↦ 0
  | some value ↦ unwrap_or (from_str_radix 10 64 (codes value)) 0
]

-- The body as it was sent, and the number of bytes it takes.
unfoldable pub read_body : Assoc String → List ℕ → ℕ → ℕ → IoResult (Option (List ℕ × ℕ))
read_body headers bytes body_start max_body_bytes =
    if lists_word "chunked" (find "transfer-encoding" headers)
    then decode_chunked (drop body_start bytes) max_body_bytes
    else if ltb max_body_bytes (content_length headers)
    then invalid_data "HTTP body exceeds limit"
    else if ltb (length bytes - body_start) (content_length headers)
    then ok none
    else ok (
        some (slice body_start (body_start + content_length headers) bytes, content_length headers))

abbrev pub header_end_mark : List ℕ
header_end_mark = 13 ∷ 10 ∷ 13 ∷ 10 ∷ []

module _ (gunzip : ℕ → List ℕ → IoResult (List ℕ)) where
  unfoldable pub within_limit : ℕ → List ℕ → IoResult (List ℕ)
  within_limit max_body_bytes output =
      if ltb max_body_bytes (length output)
      then invalid_data "decompressed body exceeds limit"
      else ok output

  unfoldable pub decode_content : List ℕ → Option String → ℕ → IoResult (List ℕ)
  decode_content bytes encoding max_body_bytes =
      if not (lists_word "gzip" encoding)
      then ok bytes
      else do output ← gunzip (max_body_bytes + 1) bytes; within_limit max_body_bytes output

  -- The message's body, behind its header, and the offset of what follows.
  unfoldable pub finish_message :
      ByteStream → ℕ → String → Assoc String → ℕ → ℕ → IoResult (Option (HttpMessage × ℕ))
  finish_message stream start start_line headers body_start max_body_bytes = do
    sent ← read_body headers stream.bytes body_start max_body_bytes
    elim sent [
      | none ↦ ok none
      | some (encoded, consumed) ↦ do
        decoded ← decode_content encoded (find "content-encoding" headers) max_body_bytes
        ok (
            some (
              record {
                timestamp_ms = timestamp_for stream start;
                start_line = start_line;
                headers = headers;
                body = decoded;
                encoded_body_bytes = length encoded;
              },
              body_start + consumed,
            ))
    ]

  -- The loop's body: no message, where the loop breaks.
  unfoldable pub read_message : ByteStream → Bool → ℕ → ℕ → IoResult (Option (HttpMessage × ℕ))
  read_message stream response max_body_bytes offset =
      elim (find_http_start stream.bytes offset response) [
        | none ↦ ok none
        | some start ↦ elim (find_bytes stream.bytes header_end_mark start) [
          | none ↦ ok none
          | some header_end ↦ do
            header_text ←
                or_invalid "HTTP headers are not UTF-8"
                  (from_utf8 (slice start header_end stream.bytes))
            let (start_line, lines) = split_lines header_text
            finish_message stream start start_line (read_headers [] lines) (header_end + 4)
                max_body_bytes
        ]
      ]

  -- The loop, on fuel: each turn takes four bytes at least.
  unfoldable pub messages_from : ℕ → ByteStream → Bool → ℕ → ℕ → IoResult (List HttpMessage)
  messages_from zero stream response max_body_bytes offset = ok []
  messages_from (suc fuel) stream response max_body_bytes offset = do
    message ←
        if ltb offset (length stream.bytes)
        then read_message stream response max_body_bytes offset
        else ok none
    elim message [
      | none ↦ ok []
      | some (first, next) ↦ do
        others ← messages_from fuel stream response max_body_bytes next
        ok (first ∷ others)
    ]

  unfoldable pub parse_http_messages : ByteStream → Bool → ℕ → IoResult (List HttpMessage)
  parse_http_messages stream response max_body_bytes =
      messages_from (suc (length stream.bytes)) stream response max_body_bytes 0
