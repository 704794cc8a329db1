-- ===== src/Capture/Chunked/Bounds.antt =====
-- The limit of `decode_chunked` in src/passive_capture.rs.
use mathlib.Core.Path.{subst}
use context_guardian.Prelude.{
  ℕ, zero, suc, ◌+◌, ◌-◌, ◌≤◌, ◌<◌, Option, none, some, List, [], ◌++◌, ltb, eqb, length, drop,
  length-append, slice, length-take, ◌≡◌, arith, Bool-cases, Option-cases, inl, inr, none_apart,
}
use context_guardian.Capture.Io.{IoResult, ok, ok_parts, the_ok, error_apart}
use context_guardian.Capture.Bytes.{find_bytes}
use context_guardian.Capture.Bytes.Find.{find_bytes_sound}
use context_guardian.Capture.Chunked.{
  crlf, chunk_size, read_trailer, read_chunk, chunks_from, decode_chunked,
}
use context_guardian.Rollout.Analysis.{starts_codes}

-- What holds of the bytes decoded and of the number of bytes taken.
abbrev pub IsWithin : List ℕ → ℕ → ℕ → List ℕ × ℕ → Type 0
IsWithin bytes max_body_bytes offset (decoded, consumed) =
    (length decoded ≤ max_body_bytes) × (offset < consumed) × (consumed ≤ length bytes)

abbrev pub nothing : IoResult (Option (List ℕ × ℕ))
nothing = ok none

pub nothing_apart : (p : List ℕ × ℕ) → nothing ≡ ok (some p) → ⊥
nothing_apart p h = none_apart (the_ok none (some p) h)

pub the_pair : (p q : List ℕ × ℕ) → ok (some p) ≡ ok (some q) → p ≡ q
the_pair p q h = cc

read_chunk-IsWithin :
    (bytes : List ℕ) (max_body_bytes : ℕ) (decoded : List ℕ) (offset size : ℕ)
    (next : List ℕ → ℕ → IoResult (Option (List ℕ × ℕ))) (result : List ℕ × ℕ)
    → length decoded ≤ max_body_bytes
    → ((more : List ℕ)
        → length more ≤ max_body_bytes
        → next more (offset + size + 2) ≡ ok (some result)
        → IsWithin bytes max_body_bytes (offset + size + 2) result)
    → read_chunk bytes max_body_bytes decoded offset size next ≡ ok (some result)
    → IsWithin bytes max_body_bytes offset result
unfolding read_chunk
read_chunk-IsWithin bytes max_body_bytes decoded offset size next result fits step read =
    elim (Bool-cases (ltb (max_body_bytes - length decoded) size)) [
      | inl over ↦ absurd (error_apart (rw (read_chunk, over) at read))
      | inr room ↦ elim (Bool-cases (ltb (length bytes) (offset + size + 2))) [
        | inl short ↦ absurd (nothing_apart result (rw (read_chunk, room, short) at read))
        | inr long ↦ elim (Bool-cases (starts_codes crlf (drop (offset + size) bytes))) [
          | inl ended ↦
              let more = decoded ++ slice offset (offset + size) bytes in
              let few : length more ≤ max_body_bytes = ground (
                arith,
                length-append decoded (slice offset (offset + size) bytes),
                length-take (offset + size - offset) (drop offset bytes),
              ) in
              let (small, ahead, inside) =
                step more few (rw (read_chunk, room, long, ended) at read) in
              (small, omega arith, inside)
          | inr open_end ↦ absurd (error_apart (rw (read_chunk, room, long, open_end) at read))
        ]
      ]
    ]

chunks_from-IsWithin :
    (fuel : ℕ) (bytes : List ℕ) (max_body_bytes : ℕ) (decoded : List ℕ) (offset : ℕ)
    (result : List ℕ × ℕ)
    → length decoded ≤ max_body_bytes
    → chunks_from fuel bytes max_body_bytes decoded offset ≡ ok (some result)
    → IsWithin bytes max_body_bytes offset result
unfolding chunks_from read_trailer
chunks_from-IsWithin zero bytes max_body_bytes decoded offset result fits read =
    absurd (nothing_apart result read)
chunks_from-IsWithin (suc fuel) bytes max_body_bytes decoded offset result fits read =
    elim (Option-cases (find_bytes bytes crlf offset)) [
      | inl absent ↦ absurd (nothing_apart result (rw (chunks_from, absent) at read))
      | inr (line_end, there) ↦
          let (behind, inside, _) =
            find_bytes_sound bytes crlf offset line_end (omega arith) there in
          let (size, sized, rest) =
            ok_parts (chunk_size (slice offset line_end bytes)) _ (some result)
              (rw (chunks_from, there) at read) in
          elim (Bool-cases (eqb size 0)) [
            | inl last ↦ elim (Option-cases (find_bytes bytes crlf (line_end + 2))) [
              | inl absent ↦ absurd (nothing_apart result (rw (last, read_trailer, absent) at rest))
              | inr (trailer_end, trailing) ↦
                  let (past, inside_too, _) =
                    find_bytes_sound bytes crlf (line_end + 2) trailer_end (omega arith) trailing in
                  subst (IsWithin bytes max_body_bytes offset)
                    (the_pair (decoded, trailer_end + 2) result
                      (rw (last, read_trailer, trailing) at rest))
                    (fits, omega arith, omega arith)
            ]
            | inr more ↦
                let (small, ahead, within) =
                  read_chunk-IsWithin bytes max_body_bytes decoded (line_end + 2) size
                    (chunks_from fuel bytes max_body_bytes) result fits
                    (λ more_decoded few.
                      chunks_from-IsWithin fuel bytes max_body_bytes more_decoded
                        (line_end + 2 + size + 2) result few)
                    (rw (more) at rest) in
                (small, omega arith, within)
          ]
    ]

-- What `decode_chunked` gives has at most the allowed number of bytes, and takes at least one and at
-- most all of the bytes at hand.
pub decode_chunked-IsWithin :
    (bytes : List ℕ) (max_body_bytes : ℕ) (result : List ℕ × ℕ)
    → decode_chunked bytes max_body_bytes ≡ ok (some result)
    → IsWithin bytes max_body_bytes 0 result
unfolding decode_chunked
decode_chunked-IsWithin bytes max_body_bytes result =
    chunks_from-IsWithin (suc (length bytes)) bytes max_body_bytes [] 0 result (omega arith)
