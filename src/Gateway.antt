-- ===== src/Gateway.antt =====
-- The image gateway, src/bin/context-image-gateway.rs: the answer to one request. The connection is the
-- list of what its reads give; the file system, the reading of damaged UTF-8, hex and HMAC are
-- parameters.
pub mod Access
pub mod Tests
use context_guardian.Prelude.{
  ℕ, zero, suc, ◌+◌, ◌*◌, ◌^◌, String, Bool, true, false, not, ◌&&◌, ◌||◌, Option, none, some, List,
  eqb, [], ◌∷◌, ◌++◌, ltb, leb, if◌then◌else◌, ◌==◌, len, codes, all, any, length, split,
  split_once, strip_prefix, strip_suffix, before, is_some, ◌+s◌, decimal, is_empty_text,
}
use context_guardian.Rollout.Analysis.{contains_codes}
use context_guardian.Rollout.Evidence.{ends_with}
use context_guardian.Capture.Io.{IoResult, ok, ◌>>=◌}
use context_guardian.Capture.Bytes.{as_bytes, split_whitespace, from_str_radix}
use context_guardian.Capture.Schema.{one_of}

abbrev pub max_request_bytes : ℕ
max_request_bytes = 16 * 1024

abbrev pub max_image_bytes : ℕ
max_image_bytes = 20 * 1024 * 1024

-- What `respond` is called with.
pub record Answer : Type 0 where
  pub status : ℕ
  pub content_type : String
  pub body : List ℕ
  pub head_only : Bool

abbrev pub plain : ℕ → String → Answer
plain status text = record {
  status = status;
  content_type = "text/plain";
  body = codes text;
  head_only = false;
}

unfoldable pub is_hex_char : ℕ → Bool
is_hex_char n = (leb 48 n && leb n 57) || ((leb 97 n && leb n 102) || (leb 65 n && leb n 70))

unfoldable pub is_digest_name : String × String → Bool
is_digest_name (digest, extension) =
    all is_hex_char (codes digest)
    && (leb 64 (len digest)
        && (leb (len digest) 64 && one_of extension ("png" ∷ "jpg" ∷ "webp" ∷ "gif" ∷ [])))

unfoldable pub valid_filename : String → Bool
valid_filename filename = elim (split_once "." filename) [
  | none ↦ false
  | some parts ↦ is_digest_name parts
]

-- The first part of the query with the name.
unfoldable pub value_in : String → List String → Option String
value_in key [] = none
value_in key (part ∷ parts) =
    let later = value_in key parts in
    elim (split_once "=" part) [
      | none ↦ later
      | some (name, value) ↦ if name == key then some value else later
    ]

unfoldable pub query_value : String → String → Option String
query_value query key = value_in key (split "&" query)

abbrev pub parse_u64 : Option String → Option ℕ
parse_u64 none = none
parse_u64 (some value) = from_str_radix 10 64 (codes value)

unfoldable pub content_type_of : String → String
content_type_of filename =
    if ends_with filename ".jpg"
    then "image/jpeg"
    else if ends_with filename ".webp"
    then "image/webp"
    else if ends_with filename ".gif"
    then "image/gif"
    else "image/png"

unfoldable pub reason_of : ℕ → String
reason_of status =
    if eqb status 200
    then "OK"
    else if eqb status 400
    then "Bad Request"
    else if eqb status 403
    then "Forbidden"
    else if eqb status 404
    then "Not Found"
    else if eqb status 405
    then "Method Not Allowed"
    else if eqb status 413
    then "Payload Too Large"
    else if eqb status 431
    then "Request Header Fields Too Large"
    else "Error"

-- `respond`: the bytes that are written.
unfoldable pub respond : Answer → List ℕ
respond answer =
    codes (
      "HTTP/1.1 "
      +s decimal answer.status
      +s " "
      +s reason_of answer.status
      +s "\r\nContent-Type: "
      +s answer.content_type
      +s "\r\nContent-Length: "
      +s decimal (length answer.body)
      +s "\r\nCache-Control: private, no-store\r\nX-Content-Type-Options: nosniff\r\nConnection: close\r\n\r\n")
    ++ (if answer.head_only then [] else answer.body)

-- The loop that reads the request's header: the bytes, or nothing where they are too many.
unfoldable pub read_header : List ℕ → List (List ℕ) → Option (List ℕ)
read_header buffer [] =
    if contains_codes (13 ∷ 10 ∷ 13 ∷ 10 ∷ []) buffer
    then some buffer
    else if leb max_request_bytes (length buffer)
    then none
    else some buffer
read_header buffer (chunk ∷ chunks) =
    let more = read_header (buffer ++ chunk) chunks in
    if contains_codes (13 ∷ 10 ∷ 13 ∷ 10 ∷ []) buffer
    then some buffer
    else if leb max_request_bytes (length buffer)
    then none
    else more

abbrev pub word_at : ℕ → List String → String
word_at index [] = ""
word_at zero (word ∷ words) = word
word_at (suc index) (word ∷ words) = word_at index words

module _ (hex_decode : String → Option (List ℕ)) (verify_mac : List ℕ → List ℕ → List ℕ → Bool)
    (metadata : String → IoResult ℕ) (read_file : String → IoResult (List ℕ))
    (from_utf8_lossy : List ℕ → String) (now : ℕ) (signing_key : List ℕ) where
  unfoldable pub verify : String → ℕ → String → Bool
  verify filename expires signature = elim (hex_decode signature) [
    | none ↦ false
    | some bytes ↦ verify_mac signing_key (as_bytes (filename +s "\n" +s decimal expires)) bytes
  ]

  -- The end of `handle`: the file.
  unfoldable pub read_image : Bool → String → IoResult Answer
  read_image head_only filename = do
    image ← read_file filename
    ok (record {
      status = 200;
      content_type = content_type_of filename;
      body = image;
      head_only = head_only;
    })

  unfoldable pub serve : Bool → String → IoResult Answer
  serve head_only filename = do
    size ← metadata filename
    if ltb max_image_bytes size
        then ok (plain 413 "image too large")
        else read_image head_only filename

  -- The check of the signature.
  unfoldable pub check_signature : Bool → String → Option ℕ → Option String → IoResult Answer
  check_signature head_only filename (some expires) (some signature) =
      if ltb expires now || not (verify filename expires signature)
      then ok (plain 403 "expired or invalid signature")
      else serve head_only filename
  check_signature head_only filename expires signature = ok (plain 403 "invalid signature")

  unfoldable pub handle_image : Bool → String → String → IoResult Answer
  handle_image head_only filename query =
      if not (valid_filename filename)
      then ok (plain 400 "invalid filename")
      else check_signature head_only filename (parse_u64 (query_value query "expires"))
          (query_value query "sig")

  unfoldable pub handle_target : Bool → String → IoResult Answer
  handle_target head_only target = elim (split_once "?" target) [
    | none ↦ ok (plain 403 "signature required")
    | some (path, query) ↦ elim (strip_prefix "/image/" path) [
      | none ↦ ok (plain 404 "not found")
      | some filename ↦ handle_image head_only filename query
    ]
  ]

  unfoldable pub handle_words : List String → IoResult Answer
  handle_words words =
      if not (word_at 0 words == "GET") && not (word_at 0 words == "HEAD")
      then ok (plain 405 "method not allowed")
      else handle_target (word_at 0 words == "HEAD") (word_at 1 words)

  -- `handle`: the answer. The first line's carriage return is a space for `split_whitespace`.
  unfoldable pub handle : List (List ℕ) → IoResult Answer
  handle chunks = elim (read_header [] chunks) [
    | none ↦ ok (plain 431 "request too large")
    | some buffer ↦
        if is_empty_text (from_utf8_lossy buffer)
        then ok (plain 400 "bad request")
        else handle_words (split_whitespace (before "\n" (from_utf8_lossy buffer)))
  ]
