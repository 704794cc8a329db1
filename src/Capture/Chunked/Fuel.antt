-- ===== src/Capture/Chunked/Fuel.antt =====
-- The loop of `decode_chunked` in src/passive_capture.rs: how far it goes, and how much it takes.
use context_guardian.Prelude.{
  ℕ, zero, suc, ◌+◌, ◌-◌, ◌≤◌, ◌<◌, Option, List, ◌++◌, ltb, length, slice, ◌≡◌, refl, arith,
  Bool-cases, Option-cases, inl, inr,
}
use context_guardian.Capture.Io.{IoResult, IoResult-cases}
use context_guardian.Capture.Bytes.{find_bytes}
use context_guardian.Capture.Bytes.Find.{find_bytes_sound}
use context_guardian.Capture.Chunked.{crlf, chunk_size, read_chunk, chunks_from, eqb}

-- A chunk is read alike with two ways to go on that agree behind it.
read_chunk_agrees :
    (bytes : List ℕ) (max_body_bytes : ℕ) (decoded : List ℕ) (offset size : ℕ)
    (next next' : List ℕ → ℕ → IoResult (Option (List ℕ × ℕ)))
    → ((more : List ℕ)
        → offset + size + 2 ≤ length bytes
        → next more (offset + size + 2) ≡ next' more (offset + size + 2))
    → read_chunk bytes max_body_bytes decoded offset size next
      ≡ read_chunk bytes max_body_bytes decoded offset size next'
unfolding read_chunk
read_chunk_agrees bytes max_body_bytes decoded offset size next next' agree =
    elim (Bool-cases (ltb (max_body_bytes - length decoded) size)) [
      | inl over ↦ rw (over) refl
      | inr fits ↦ elim (Bool-cases (ltb (length bytes) (offset + size + 2))) [
        | inl short ↦ rw (fits, short) refl
        | inr long ↦
            rw (fits, long, agree (decoded ++ slice offset (offset + size) bytes) (ground arith))
              refl
      ]
    ]

-- With more fuel than there are bytes behind the offset the loop's result is the same, so that it never
-- ends for lack of fuel.
pub chunks_from_fuel :
    (fuel fuel' : ℕ) (bytes : List ℕ) (max_body_bytes : ℕ) (decoded : List ℕ) (offset : ℕ)
    → length bytes - offset < fuel
    → length bytes - offset < fuel'
    → chunks_from fuel bytes max_body_bytes decoded offset
      ≡ chunks_from fuel' bytes max_body_bytes decoded offset
unfolding chunks_from
chunks_from_fuel zero fuel' bytes max_body_bytes decoded offset enough enough' =
    absurd (omega arith)
chunks_from_fuel (suc fuel) zero bytes max_body_bytes decoded offset enough enough' =
    absurd (omega arith)
chunks_from_fuel (suc fuel) (suc fuel') bytes max_body_bytes decoded offset enough enough' =
    elim (Option-cases (find_bytes bytes crlf offset)) [
      | inl absent ↦ rw (absent, chunks_from) refl
      | inr (line_end, there) ↦
          let (behind, inside, _) =
            find_bytes_sound bytes crlf offset line_end (omega arith) there in
          elim (IoResult-cases (chunk_size (slice offset line_end bytes))) [
            | inr (e, wrong) ↦ rw (there, wrong, chunks_from) refl
            | inl (size, sized) ↦ elim (Bool-cases (eqb size 0)) [
              | inl last ↦ rw (there, sized, chunks_from, last) refl
              | inr more ↦
                  rw (there, sized, chunks_from, more)
                    (read_chunk_agrees bytes max_body_bytes decoded (line_end + 2) size
                      (chunks_from fuel bytes max_body_bytes)
                      (chunks_from fuel' bytes max_body_bytes)
                      (λ more_decoded room.
                        chunks_from_fuel fuel fuel' bytes max_body_bytes more_decoded
                          (line_end + 2 + size + 2) (omega arith) (omega arith)))
            ]
          ]
    ]
