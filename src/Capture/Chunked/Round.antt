-- ===== src/Capture/Chunked/Round.antt =====
-- Chunks that `decode_chunked` of src/passive_capture.rs reads back.
use context_guardian.Prelude.{
  ℕ, zero, suc, ◌+◌, ◌-◌, ◌≤◌, ◌<◌, Bool, true, false, not, some, List, [], ◌∷◌, ◌++◌, ltb, eqb,
  length, drop, length-append, slice, slice-append, drop-append_both, ◌≡◌, refl, sym, ap, ◌∙◌,
  arith, all, All, append_assoc, append-nil,
}
use context_guardian.Capture.Io.{ok}
use context_guardian.Capture.Bytes.{find_bytes}
use context_guardian.Capture.Bytes.Find.{find_bytes-append, StartsNowhere}
use context_guardian.Capture.Chunked.{
  crlf, chunk_size, read_trailer, read_chunk, chunks_from, decode_chunked,
}
use context_guardian.Rollout.Analysis.{starts_codes}

-- A chunk as it is sent: its first line, with the size, and its data.
pub record Chunk : Type 0 where
  pub line : List ℕ
  pub data_bytes : List ℕ

abbrev pub has_no_return : List ℕ → Bool
has_no_return line = all (λ b. not (eqb b 13)) line

-- A line that says the data's size, and data that are not empty.
abbrev pub IsChunk : Chunk → Type 0
IsChunk chunk =
    (has_no_return chunk.line ≡ true)
    × (chunk_size chunk.line ≡ ok (length chunk.data_bytes))
    × (0 < length chunk.data_bytes)

-- The chunks in front of the rest, and their data.
abbrev pub send : List Chunk → List ℕ → List ℕ
send [] rest = rest
send (chunk ∷ chunks) rest =
    chunk.line ++ (crlf ++ (chunk.data_bytes ++ (crlf ++ send chunks rest)))

abbrev pub all_data : List Chunk → List ℕ
all_data [] = []
all_data (chunk ∷ chunks) = chunk.data_bytes ++ all_data chunks

has_no_return-StartsNowhere :
    (line rest : List ℕ) → has_no_return line ≡ true → StartsNowhere crlf line rest
unfolding starts_codes
has_no_return-StartsNowhere [] rest clean = tt
has_no_return-StartsNowhere (b ∷ line) rest clean =
    (ground arith, has_no_return-StartsNowhere line rest (ground arith))

-- The first line of what is left is found.
find_line :
    (before line rest bytes : List ℕ) (offset : ℕ)
    → has_no_return line ≡ true
    → offset ≡ length before
    → bytes ≡ before ++ (line ++ (crlf ++ rest))
    → find_bytes bytes crlf offset ≡ some (offset + length line)
unfolding starts_codes
find_line before line rest bytes offset clean at_offset all_bytes =
    rw (at_offset, all_bytes)
      (find_bytes-append before line (10 ∷ rest) crlf 13
        (has_no_return-StartsNowhere line (crlf ++ rest) clean) refl)

-- One turn of the loop reads one chunk.
chunks_from_turn :
    (fuel : ℕ) (before rest bytes : List ℕ) (chunk : Chunk) (max_body_bytes : ℕ) (decoded : List ℕ)
    (offset : ℕ)
    → IsChunk chunk
    → offset ≡ length before
    → bytes ≡ before ++ (chunk.line ++ (crlf ++ (chunk.data_bytes ++ (crlf ++ rest))))
    → length decoded + length chunk.data_bytes ≤ max_body_bytes
    → chunks_from (suc fuel) bytes max_body_bytes decoded offset
      ≡ chunks_from fuel bytes max_body_bytes
          (decoded ++ chunk.data_bytes)
          (offset + length chunk.line + 2 + length chunk.data_bytes + 2)
unfolding chunks_from read_chunk starts_codes
chunks_from_turn fuel before rest bytes chunk max_body_bytes decoded offset
      (clean, sized, some_data) at_offset all_bytes fits =
    let found =
      find_line before chunk.line (chunk.data_bytes ++ (crlf ++ rest)) bytes offset clean at_offset
        all_bytes in
    let line : slice offset (offset + length chunk.line) bytes ≡ chunk.line = rw (all_bytes) (
      slice-append offset before chunk.line (crlf ++ (chunk.data_bytes ++ (crlf ++ rest)))
        at_offset) in
    let start = offset + length chunk.line + 2 in
    let front = before ++ (chunk.line ++ crlf) in
    let at_start : start ≡ length front = omega (
      arith,
      length-append before (chunk.line ++ crlf),
      length-append chunk.line crlf,
      at_offset,
    ) in
    let again : bytes ≡ front ++ (chunk.data_bytes ++ (crlf ++ rest)) =
      all_bytes
      ∙ ap (λ tail. before ++ tail)
          (sym (append_assoc chunk.line crlf (chunk.data_bytes ++ (crlf ++ rest))))
      ∙ sym (append_assoc before (chunk.line ++ crlf) (chunk.data_bytes ++ (crlf ++ rest))) in
    let taken : slice start (start + length chunk.data_bytes) bytes ≡ chunk.data_bytes =
      rw (again) (slice-append start front chunk.data_bytes (crlf ++ rest) at_start) in
    let behind : drop (start + length chunk.data_bytes) bytes ≡ crlf ++ rest =
      rw (again) (drop-append_both start front chunk.data_bytes (crlf ++ rest) at_start) in
    let more : eqb (length chunk.data_bytes) 0 ≡ false = ground arith in
    let within : ltb (max_body_bytes - length decoded) (length chunk.data_bytes) ≡ false =
      ground arith in
    let long : ltb (length bytes) (start + length chunk.data_bytes + 2) ≡ false = ground (
      arith,
      ap length again,
      length-append front (chunk.data_bytes ++ (crlf ++ rest)),
      length-append chunk.data_bytes (crlf ++ rest),
    ) in
    rw (found, line, sized, chunks_from, more, read_chunk, within, long, behind, taken) refl

-- The same bytes, with a first line and its end moved to what was read.
move_line :
    (before line rest : List ℕ)
    → before ++ (line ++ (crlf ++ rest)) ≡ (before ++ (line ++ crlf)) ++ rest
move_line before line rest =
    ap (λ tail. before ++ tail) (sym (append_assoc line crlf rest))
    ∙ sym (append_assoc before (line ++ crlf) rest)

length-move_line :
    (before line : List ℕ) → length (before ++ (line ++ crlf)) ≡ length before + length line + 2
length-move_line before line =
    omega (arith, length-append before (line ++ crlf), length-append line crlf)

-- The last chunk, and the line behind it.
chunks_from_end :
    (fuel : ℕ) (before last trailer rest bytes : List ℕ) (max_body_bytes : ℕ) (decoded : List ℕ)
    (offset : ℕ)
    → has_no_return last ≡ true
    → chunk_size last ≡ ok 0
    → has_no_return trailer ≡ true
    → offset ≡ length before
    → bytes ≡ before ++ (last ++ (crlf ++ (trailer ++ (crlf ++ rest))))
    → chunks_from (suc fuel) bytes max_body_bytes decoded offset
      ≡ ok (some (decoded, length bytes - length rest))
unfolding chunks_from read_trailer
chunks_from_end fuel before last trailer rest bytes max_body_bytes decoded offset clean sized
      clean_too at_offset all_bytes =
    let found =
      find_line before last (trailer ++ (crlf ++ rest)) bytes offset clean at_offset all_bytes in
    let line : slice offset (offset + length last) bytes ≡ last =
      rw (all_bytes)
        (slice-append offset before last (crlf ++ (trailer ++ (crlf ++ rest))) at_offset) in
    let front = before ++ (last ++ crlf) in
    let again : bytes ≡ front ++ (trailer ++ (crlf ++ rest)) =
      all_bytes ∙ move_line before last (trailer ++ (crlf ++ rest)) in
    let trailing =
      find_line front trailer rest bytes (offset + length last + 2) clean_too
        (omega (arith, length-move_line before last, at_offset)) again in
    let size : offset + length last + 2 + length trailer + 2 ≡ length bytes - length rest = omega (
      arith,
      ap length again,
      length-append front (trailer ++ (crlf ++ rest)),
      length-append trailer (crlf ++ rest),
      length-move_line before last,
      at_offset,
    ) in
    rw (found, line, sized, chunks_from, read_trailer, trailing, size) refl

chunks_from-send :
    (chunks : List Chunk) (fuel : ℕ) (before last trailer rest bytes : List ℕ) (max_body_bytes : ℕ)
    (decoded : List ℕ) (offset : ℕ)
    → All IsChunk chunks
    → has_no_return last ≡ true
    → chunk_size last ≡ ok 0
    → has_no_return trailer ≡ true
    → offset ≡ length before
    → bytes ≡ before ++ send chunks (last ++ (crlf ++ (trailer ++ (crlf ++ rest))))
    → length decoded + length (all_data chunks) ≤ max_body_bytes
    → length chunks < fuel
    → chunks_from fuel bytes max_body_bytes decoded offset
      ≡ ok (some (decoded ++ all_data chunks, length bytes - length rest))
chunks_from-send chunks zero before last trailer rest bytes max_body_bytes decoded offset valid
      clean sized clean_too at_offset all_bytes fits enough =
    absurd (omega arith)
chunks_from-send [] (suc fuel) before last trailer rest bytes max_body_bytes decoded offset valid
      clean sized clean_too at_offset all_bytes fits enough =
    rw (append-nil decoded) (
      chunks_from_end fuel before last trailer rest bytes max_body_bytes decoded offset clean sized
        clean_too at_offset all_bytes)
chunks_from-send (chunk ∷ chunks) (suc fuel) before last trailer rest bytes max_body_bytes decoded
      offset valid clean sized clean_too at_offset all_bytes fits enough =
    let tail = send chunks (last ++ (crlf ++ (trailer ++ (crlf ++ rest)))) in
    let front = before ++ (chunk.line ++ crlf) in
    let again : bytes ≡ (front ++ (chunk.data_bytes ++ crlf)) ++ tail =
      all_bytes
      ∙ move_line before chunk.line (chunk.data_bytes ++ (crlf ++ tail))
      ∙ move_line front chunk.data_bytes tail in
    let room : length decoded + length chunk.data_bytes + length (all_data chunks)
        ≤ max_body_bytes =
      omega (arith, length-append chunk.data_bytes (all_data chunks)) in
    chunks_from_turn fuel before tail bytes chunk max_body_bytes decoded offset valid.0 at_offset
      all_bytes (omega arith)
    ∙ chunks_from-send chunks fuel (front ++ (chunk.data_bytes ++ crlf)) last trailer rest bytes
        max_body_bytes (decoded ++ chunk.data_bytes)
        (offset + length chunk.line + 2 + length chunk.data_bytes + 2) valid.1 clean sized clean_too
        (omega (
          arith,
          length-move_line before chunk.line,
          length-move_line front chunk.data_bytes,
          at_offset,
        ))
        again (omega (arith, length-append decoded chunk.data_bytes)) (omega arith)
    ∙ ap (λ data_bytes. ok (some (data_bytes, length bytes - length rest)))
        (append_assoc decoded chunk.data_bytes (all_data chunks))

length-send :
    (chunks : List Chunk) (rest : List ℕ) → length chunks + length rest ≤ length (send chunks rest)
length-send [] rest = omega arith
length-send (chunk ∷ chunks) rest = omega (
  arith,
  length-send chunks rest,
  length-append chunk.line (crlf ++ (chunk.data_bytes ++ (crlf ++ send chunks rest))),
  length-append chunk.data_bytes (crlf ++ send chunks rest),
)

-- A body of chunks, whose first lines say their sizes, behind which a chunk of size zero and one line
-- follow, is read back: the data of all chunks, where they keep within the limit, and the number of
-- bytes up to what follows the body.
pub decode_chunked-send :
    (chunks : List Chunk) (last trailer rest : List ℕ) (max_body_bytes : ℕ)
    → All IsChunk chunks
    → has_no_return last ≡ true
    → chunk_size last ≡ ok 0
    → has_no_return trailer ≡ true
    → length (all_data chunks) ≤ max_body_bytes
    → decode_chunked (send chunks (last ++ (crlf ++ (trailer ++ (crlf ++ rest))))) max_body_bytes
      ≡ ok (
          some (
            all_data chunks,
            length (send chunks (last ++ (crlf ++ (trailer ++ (crlf ++ rest))))) - length rest,
          ))
unfolding decode_chunked
decode_chunked-send chunks last trailer rest max_body_bytes valid clean sized clean_too fits =
    let tail = last ++ (crlf ++ (trailer ++ (crlf ++ rest))) in
    chunks_from-send chunks (suc (length (send chunks tail))) [] last trailer rest
      (send chunks tail) max_body_bytes [] 0 valid clean sized clean_too refl refl (omega arith)
      (omega (arith, length-send chunks tail))
