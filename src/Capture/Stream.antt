-- ===== src/Capture/Stream.antt =====
-- The byte streams that src/passive_capture.rs puts together from segments. A sequence number has 32
-- bits.
pub mod Prefix
pub mod Wrap
use mathlib.Core.List.{foldl}
use context_guardian.Prelude.{
  ℕ, ◌+◌, ◌-◌, ◌%◌, ◌^◌, Bool, true, false, Option, none, some, List, [], ◌∷◌, ◌++◌, ltb, leb,
  if◌then◌else◌, unwrap_or, length, drop, sort_by_key,
}

pub record Segment : Type 0 where
  pub sequence : ℕ
  pub timestamp_ms : ℕ
  pub bytes : List ℕ

pub record ByteStream : Type 0 where
  pub bytes : List ℕ
  pub marks : List (ℕ × ℕ)

abbrev pub sequence_of : Segment → ℕ
sequence_of segment = segment.sequence

-- The last mark at or in front of the offset. `rev().find_map` finds it from the end.
unfoldable pub last_mark : ℕ → List (ℕ × ℕ) → Option ℕ
last_mark offset [] = none
last_mark offset ((position, timestamp) ∷ marks) = elim (last_mark offset marks) [
  | some later ↦ some later
  | none ↦ if leb position offset then some timestamp else none
]

unfoldable pub first_mark : List (ℕ × ℕ) → Option ℕ
first_mark [] = none
first_mark ((position, timestamp) ∷ marks) = some timestamp

unfoldable pub timestamp_for : ByteStream → ℕ → ℕ
timestamp_for stream offset = elim (last_mark offset stream.marks) [
  | some timestamp ↦ timestamp
  | none ↦ unwrap_or (first_mark stream.marks) 0
]

-- `a.wrapping_sub(b)` on 32 bits.
unfoldable pub wrapping_sub : ℕ → ℕ → ℕ
wrapping_sub a b = (a + 2 ^ 32 - b) % 2 ^ 32

-- The loop's body in `reassemble`.
unfoldable pub push_segment : ℕ → ByteStream → Segment → ByteStream
push_segment base stream segment =
    let start = wrapping_sub segment.sequence base in
    let overlap = length stream.bytes - start in
    if ltb (length stream.bytes) start
    then stream
    else if leb (length segment.bytes) overlap
    then stream
    else record {
      bytes = stream.bytes ++ drop overlap segment.bytes;
      marks = stream.marks ++ (length stream.bytes, segment.timestamp_ms) ∷ [];
    }

abbrev pub empty_stream : ByteStream
empty_stream = record { bytes = []; marks = [] }

-- The loop over the sorted segments; the first one's sequence number is the base.
unfoldable pub join_segments : List Segment → ByteStream
join_segments [] = empty_stream
join_segments (first ∷ segments) =
    foldl (push_segment first.sequence) empty_stream (first ∷ segments)

unfoldable pub reassemble : List Segment → ByteStream
reassemble segments = join_segments (sort_by_key sequence_of segments)
