-- ===== src/Capture/Chunked.antt =====
-- Bodies in chunks, as `decode_chunked` of src/passive_capture.rs reads them.
pub mod Round
pub mod Fuel
pub mod Bounds
use context_guardian.Prelude.{
  ℕ, zero, suc, ◌+◌, ◌-◌, String, Bool, true, false, Option, none, some, List, [], ◌∷◌, ◌++◌, ltb,
  eqb, if◌then◌else◌, codes, before, slice, length, drop,
}
use context_guardian.Capture.Io.{IoResult, ok, error, ◌>>=◌, or_invalid, invalid_data}
use context_guardian.Capture.Bytes.{from_utf8, trim, from_str_radix, find_bytes}
use context_guardian.Rollout.Analysis.{starts_codes}

abbrev pub crlf : List ℕ
crlf = 13 ∷ 10 ∷ []

abbrev option_or_invalid : String → Option ℕ → IoResult ℕ
option_or_invalid = or_invalid

-- The size on a chunk's first line: hexadecimal digits in front of a semicolon or the line's end.
unfoldable pub chunk_size : List ℕ → IoResult ℕ
chunk_size line = do
  size_text ← or_invalid "chunk size is not UTF-8" (from_utf8 line)
  or_invalid "invalid chunk size" (from_str_radix 16 64 (codes (trim (before ";" size_text))))

-- The part behind the last chunk.
unfoldable pub read_trailer : List ℕ → List ℕ → ℕ → IoResult (Option (List ℕ × ℕ))
read_trailer bytes decoded offset = elim (find_bytes bytes crlf offset) [
  | none ↦ ok none
  | some trailer_end ↦ ok (some (decoded, trailer_end + 2))
]

-- A chunk with data: the part of the loop behind the test for the last chunk, up to the next turn, which
-- gets the decoded bytes and the offset.
unfoldable pub read_chunk :
    List ℕ
    → ℕ
    → List ℕ
    → ℕ
    → ℕ
    → (List ℕ → ℕ → IoResult (Option (List ℕ × ℕ)))
    → IoResult (Option (List ℕ × ℕ))
read_chunk bytes max_body_bytes decoded offset size next =
    if ltb (max_body_bytes - length decoded) size
    then invalid_data "decoded chunked body exceeds limit"
    else if ltb (length bytes) (offset + size + 2)
    then ok none
    else if starts_codes crlf (drop (offset + size) bytes)
    then next (decoded ++ slice offset (offset + size) bytes) (offset + size + 2)
    else invalid_data "chunk is missing terminator"

-- The loop, on fuel: each turn reads two bytes at least.
unfoldable pub chunks_from : ℕ → List ℕ → ℕ → List ℕ → ℕ → IoResult (Option (List ℕ × ℕ))
chunks_from zero bytes max_body_bytes decoded offset = ok none
chunks_from (suc fuel) bytes max_body_bytes decoded offset = elim (find_bytes bytes crlf offset) [
  | none ↦ ok none
  | some line_end ↦ do
    size ← chunk_size (slice offset line_end bytes)
    (if eqb size 0
        then read_trailer bytes decoded (line_end + 2)
        else read_chunk bytes max_body_bytes decoded (line_end + 2) size
            (chunks_from fuel bytes max_body_bytes))
]

unfoldable pub decode_chunked : List ℕ → ℕ → IoResult (Option (List ℕ × ℕ))
decode_chunked bytes max_body_bytes = chunks_from (suc (length bytes)) bytes max_body_bytes [] 0
