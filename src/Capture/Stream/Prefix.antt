-- ===== src/Capture/Stream/Prefix.antt =====
-- Segments of one stream, put together by `reassemble` of src/passive_capture.rs.
use mathlib.Core.List.{foldl}
use mathlib.Core.Path.{subst}
use context_guardian.Prelude.{
  ℕ, ◌-◌, ◌^◌, ◌≤◌, ◌<◌, ◌≡◌, refl, sym, ap, ◌∙◌, inl, inr, List, [], ◌∷◌, ◌++◌, append_assoc,
  arith, ltb, leb, Bool-cases, length, drop, All, StartsBy, sort_by_key-StartsBy, Memᴰ, drop-drop,
  drop-append_le, drop-append_length, sort_by_key, All-sort_by_key,
}
use context_guardian.Capture.Stream.{
  Segment, ByteStream, wrapping_sub, push_segment, empty_stream, join_segments, reassemble,
  sequence_of,
}

-- The bytes stand in front of the others.
abbrev pub IsPrefix : List ℕ → List ℕ → Type 0
IsPrefix bytes sent = (rest : List ℕ) × (sent ≡ bytes ++ rest)

-- The segment holds bytes that were sent in a stream whose first byte has the sequence number
-- `base`, at the place that its own sequence number says.
abbrev pub IsPartOf : List ℕ → ℕ → Segment → Type 0
IsPartOf sent base segment =
    (base ≤ segment.sequence)
    × (segment.sequence < 2 ^ 32)
    × IsPrefix segment.bytes (drop (segment.sequence - base) sent)

wrapping_sub_le : (a b : ℕ) → b ≤ a → a < 2 ^ 32 → wrapping_sub a b ≡ a - b
unfolding wrapping_sub
wrapping_sub_le a b low high = omega arith

-- A segment that starts in or right behind what is there extends it.
extends :
    (sent bytes more : List ℕ) (start : ℕ)
    → IsPrefix bytes sent
    → IsPrefix more (drop start sent)
    → start ≤ length bytes
    → length bytes - start < length more
    → IsPrefix (bytes ++ drop (length bytes - start) more) sent
extends sent bytes more start (rest, whole) (beyond, part) reached longer =
    let overlap : ℕ = length bytes - start in
    let tail : rest ≡ drop overlap more ++ beyond =
      sym (drop-append_length bytes rest)
      ∙ ap (drop (length bytes)) (sym whole)
      ∙ ap (λ k. drop k sent) (omega arith)
      ∙ sym (drop-drop start overlap sent)
      ∙ ap (drop overlap) part
      ∙ drop-append_le overlap more beyond (omega arith) in
    (
      beyond,
      whole ∙ ap (λ r. bytes ++ r) tail ∙ sym (append_assoc bytes (drop overlap more) beyond),
    )

push_segment-IsPrefix :
    (sent : List ℕ) (base : ℕ) (stream : ByteStream) (segment : Segment)
    → IsPrefix stream.bytes sent
    → IsPartOf sent base segment
    → IsPrefix (push_segment base stream segment).bytes sent
unfolding push_segment
push_segment-IsPrefix sent base stream segment so_far (low, high, part) =
    let start = wrapping_sub_le segment.sequence base low high in
    rw (start, push_segment)
      (elim (Bool-cases (ltb (length stream.bytes) (segment.sequence - base))) [
        | inl gap ↦ rw (gap) so_far
        | inr reached ↦
            elim (Bool-cases
              (leb (length segment.bytes) (length stream.bytes - (segment.sequence - base)))) [
                | inl known ↦ rw (reached, known) so_far
                | inr new ↦
                    rw (reached, new)
                      (extends sent stream.bytes segment.bytes (segment.sequence - base) so_far part
                        (ground arith) (ground arith))
              ]
      ])

foldl-IsPrefix :
    (sent : List ℕ) (base : ℕ) (segments : List Segment) (stream : ByteStream)
    → IsPrefix stream.bytes sent
    → All (IsPartOf sent base) segments
    → IsPrefix (foldl (push_segment base) stream segments).bytes sent
foldl-IsPrefix sent base [] stream so_far parts = so_far
foldl-IsPrefix sent base (segment ∷ segments) stream so_far parts =
    foldl-IsPrefix sent base segments (push_segment base stream segment)
      (push_segment-IsPrefix sent base stream segment so_far parts.0) parts.1

join_segments-IsPrefix :
    (sent : List ℕ) (segment : Segment) (segments : List Segment)
    → All (IsPartOf sent segment.sequence) (segment ∷ segments)
    → IsPrefix (join_segments (segment ∷ segments)).bytes sent
unfolding join_segments
join_segments-IsPrefix sent segment segments parts =
    foldl-IsPrefix sent segment.sequence (segment ∷ segments) empty_stream (sent, refl) parts

-- Sorted segments, of which the first one starts the stream.
sorted-IsPrefix :
    (sent : List ℕ) (base : ℕ) (segments : List Segment)
    → All (IsPartOf sent base) segments
    → StartsBy sequence_of base segments
    → IsPrefix (join_segments segments).bytes sent
sorted-IsPrefix sent base [] parts low = absurd low
sorted-IsPrefix sent base (segment ∷ segments) parts low =
    let same : base ≡ segment.sequence = ground arith in
    join_segments-IsPrefix sent segment segments
      (subst (λ b. All (IsPartOf sent b) (segment ∷ segments)) same parts)

-- Where the segment that starts the stream was captured and the stream's sequence numbers do not
-- wrap, the bytes that `reassemble` gives are the first of the bytes sent, whatever the order of the
-- segments, however they overlap and whichever of the others are missing.
pub reassemble-IsPrefix :
    (sent : List ℕ) (opening : Segment) (segments : List Segment)
    → Memᴰ opening segments
    → All (IsPartOf sent opening.sequence) segments
    → IsPrefix (reassemble segments).bytes sent
unfolding reassemble
reassemble-IsPrefix sent opening segments there parts =
    sorted-IsPrefix sent opening.sequence (sort_by_key sequence_of segments)
      (All-sort_by_key sequence_of (IsPartOf sent opening.sequence) segments parts)
      (sort_by_key-StartsBy sequence_of opening segments there)
