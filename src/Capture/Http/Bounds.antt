-- ===== src/Capture/Http/Bounds.antt =====
-- The limits of the bodies that `parse_http_messages` of src/passive_capture.rs gives.
use context_guardian.Prelude.{
  ℕ, ◌+◌, ◌-◌, ◌≤◌, ◌<◌, min, String, Bool, true, false, not, Option, none, some, List, [], ◌∷◌,
  map, ltb, slice, length, drop, length-drop, length-take, codes, Assoc, find, ◌≡◌, sym, arith,
  Bool-cases, Option-cases, inl, inr, All, none_apart,
}
use mathlib.Core.Path.{subst}
use context_guardian.Capture.Io.{IoResult, ok, ok_parts, the_ok, error_apart}
use context_guardian.Capture.Bytes.{find_bytes, split_lines, from_utf8}
use context_guardian.Capture.Bytes.Find.{find_bytes_sound}
use context_guardian.Capture.Stream.{ByteStream}
use context_guardian.Capture.Chunked.Bounds.{decode_chunked-IsWithin, nothing_apart, the_pair}
use context_guardian.Capture.Http.{
  HttpMessage, least, find_http_start, start_patterns, lists_word, content_length, read_body,
  within_limit, decode_content, finish_message, read_message, header_end_mark, read_headers,
  or_invalid,
}

read_body_bounded :
    (headers : Assoc String) (bytes : List ℕ) (body_start max_body_bytes : ℕ) (sent : List ℕ × ℕ)
    → body_start ≤ length bytes
    → read_body headers bytes body_start max_body_bytes ≡ ok (some sent)
    → (length sent.0 ≤ max_body_bytes) × (body_start + sent.1 ≤ length bytes)
unfolding read_body
read_body_bounded headers bytes body_start max_body_bytes sent inside read =
    elim (Bool-cases (lists_word "chunked" (find "transfer-encoding" headers))) [
      | inl chunked ↦
          let (small, _, taken) =
            decode_chunked-IsWithin (drop body_start bytes) max_body_bytes sent
              (rw (chunked, read_body) at read) in
          (small, omega (arith, length-drop body_start bytes))
      | inr plain ↦ elim (Bool-cases (ltb max_body_bytes (content_length headers))) [
        | inl over ↦ absurd (error_apart (rw (plain, over, read_body) at read))
        | inr fits ↦ elim (Bool-cases (ltb (length bytes - body_start) (content_length headers))) [
          | inl short ↦ absurd (nothing_apart sent (rw (plain, fits, short, read_body) at read))
          | inr long ↦
              let size = content_length headers in
              subst (λ p. (length p.0 ≤ max_body_bytes) × (body_start + p.1 ≤ length bytes))
                (the_pair (slice body_start (body_start + size) bytes, size) sent
                  (rw (plain, fits, long, read_body) at read))
                (
                  ground
                      (arith, length-take (body_start + size - body_start) (drop body_start bytes)),
                  ground arith,
                )
        ]
      ]
    ]

the_place : (p q : ℕ) → some p ≡ some q → p ≡ q
the_place p q h = cc

-- The least place of a pattern is not in front of the offset.
least_behind :
    (bytes : List ℕ) (offset : ℕ) (patterns : List String) (place : ℕ)
    → All (λ pattern. 0 < length (codes pattern)) patterns
    → least (map (λ pattern. find_bytes bytes (codes pattern) offset) patterns) ≡ some place
    → offset ≤ place
unfolding least
least_behind bytes offset [] place some_pattern found = absurd (none_apart found)
least_behind bytes offset (pattern ∷ patterns) place (long, longer) found =
    elim (Option-cases (find_bytes bytes (codes pattern) offset)) [
      | inl absent ↦ least_behind bytes offset patterns place longer (rw (absent, least) at found)
      | inr (here, there) ↦
          let (behind, _, _) = find_bytes_sound bytes (codes pattern) offset here long there in
          elim (Option-cases
            (least (map (λ other. find_bytes bytes (codes other) offset) patterns))) [
              | inl nothing_else ↦
                  rw (sym (the_place here place (rw (there, least, nothing_else) at found))) behind
              | inr (other, rest) ↦
                  let others = least_behind bytes offset patterns other longer rest in
                  rw (sym (the_place (min here other) place (rw (there, least, rest) at found)))
                    (omega arith)
            ]
    ]

find_http_start_behind :
    (bytes : List ℕ) (offset : ℕ) (response : Bool) (place : ℕ)
    → find_http_start bytes offset response ≡ some place
    → offset ≤ place
unfolding find_http_start
find_http_start_behind bytes offset true place found =
    least_behind bytes offset (start_patterns true) place (omega arith, (omega arith, tt)) found
find_http_start_behind bytes offset false place found =
    least_behind bytes offset (start_patterns false) place
      (omega arith, (omega arith, (omega arith, (omega arith, (omega arith, tt))))) found

module _ (gunzip : ℕ → List ℕ → IoResult (List ℕ)) where
  decode_content_bounded :
      (bytes : List ℕ) (encoding : Option String) (max_body_bytes : ℕ) (decoded : List ℕ)
      → length bytes ≤ max_body_bytes
      → decode_content gunzip bytes encoding max_body_bytes ≡ ok decoded
      → length decoded ≤ max_body_bytes
  unfolding decode_content within_limit
  decode_content_bounded bytes encoding max_body_bytes decoded small read =
      elim (Bool-cases (not (lists_word "gzip" encoding))) [
        | inl plain ↦
            subst (λ out. length out ≤ max_body_bytes)
              (the_ok bytes decoded (rw (plain, decode_content) at read)) small
        | inr zipped ↦
            let (output, there, rest) =
              ok_parts (gunzip (max_body_bytes + 1) bytes) _ decoded
                (rw (zipped, decode_content) at read) in
            elim (Bool-cases (ltb max_body_bytes (length output))) [
              | inl over ↦ absurd (error_apart (rw (over, within_limit) at rest))
              | inr fits ↦
                  subst (λ out. length out ≤ max_body_bytes)
                    (the_ok output decoded (rw (fits, within_limit) at rest)) (ground arith)
            ]
      ]

  -- Bodies within the limit, and where the next message starts.
  abbrev pub IsLimited : ℕ → HttpMessage → Type 0
  IsLimited max_body_bytes message =
      (length message.body ≤ max_body_bytes) × (message.encoded_body_bytes ≤ max_body_bytes)

  abbrev pub IsStep : ℕ → ℕ → ℕ → HttpMessage × ℕ → Type 0
  IsStep max_body_bytes from size (message, next) =
      IsLimited max_body_bytes message × (from ≤ next) × (next ≤ size)

  abbrev nothing : IoResult (Option (HttpMessage × ℕ))
  nothing = ok none

  the_step : (p q : HttpMessage × ℕ) → ok (some p) ≡ ok (some q) → p ≡ q
  the_step p q h = cc

  some_apart : (p : HttpMessage × ℕ) → nothing ≡ ok (some p) → ⊥
  some_apart p h = none_apart (the_ok none (some p) h)

  finish_message-IsStep :
      (stream : ByteStream) (start : ℕ) (start_line : String) (headers : Assoc String)
      (body_start max_body_bytes : ℕ) (step : HttpMessage × ℕ)
      → body_start ≤ length stream.bytes
      → finish_message gunzip stream start start_line headers body_start max_body_bytes
        ≡ ok (some step)
      → IsStep max_body_bytes body_start (length stream.bytes) step
  unfolding finish_message
  finish_message-IsStep stream start start_line headers body_start max_body_bytes step inside read =
      let (sent, there, rest) =
        ok_parts (read_body headers stream.bytes body_start max_body_bytes) _ (some step) read in
      elim (Option-cases sent) [
        | inl absent ↦ absurd (some_apart step (rw (absent) at rest))
        | inr (pair, known) ↦
            let (small, taken) =
              read_body_bounded headers stream.bytes body_start max_body_bytes pair inside
                (rw (known) at there) in
            let (decoded, fine, last) =
              ok_parts
                (decode_content gunzip pair.0 (find "content-encoding" headers) max_body_bytes) _
                (some step) (rw (known) at rest) in
            subst (IsStep max_body_bytes body_start (length stream.bytes)) (the_step _ step last) (
              (
                decode_content_bounded pair.0 (find "content-encoding" headers) max_body_bytes
                    decoded small fine,
                small,
              ),
              omega arith,
              taken,
            )
      ]

  pub read_message-IsStep :
      (stream : ByteStream) (response : Bool) (max_body_bytes offset : ℕ) (step : HttpMessage × ℕ)
      → read_message gunzip stream response max_body_bytes offset ≡ ok (some step)
      → IsStep max_body_bytes (offset + 4) (length stream.bytes) step
  unfolding read_message
  read_message-IsStep stream response max_body_bytes offset step read =
      elim (Option-cases (find_http_start stream.bytes offset response)) [
        | inl absent ↦ absurd (some_apart step (rw (read_message, absent) at read))
        | inr (start, there) ↦ elim (Option-cases (find_bytes stream.bytes header_end_mark start)) [
          | inl open_header ↦
              absurd (some_apart step (rw (read_message, there, open_header) at read))
          | inr (header_end, ended) ↦
              let (behind, inside, _) =
                find_bytes_sound stream.bytes header_end_mark start header_end (omega arith)
                  ended in
              let later = find_http_start_behind stream.bytes offset response start there in
              let (text, _, rest) =
                ok_parts
                  (or_invalid "HTTP headers are not UTF-8"
                    (from_utf8 (slice start header_end stream.bytes)))
                  _ (some step) (rw (read_message, there, ended) at read) in
              let (limited, ahead, within) =
                finish_message-IsStep stream start (split_lines text).0
                  (read_headers [] (split_lines text).1) (header_end + 4) max_body_bytes step
                  (omega arith) rest in
              (limited, omega arith, within)
        ]
      ]
