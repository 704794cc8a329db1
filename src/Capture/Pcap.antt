-- ===== src/Capture/Pcap.antt =====
-- The files of captured packets that `parse_pcap` of src/passive_capture.rs reads.
pub mod Round
use context_guardian.Prelude.{
  ℕ, zero, suc, ◌+◌, ◌-◌, ◌*◌, ◌/◌, ◌^◌, min, String, Bool, true, false, Option, none, some, List,
  [], ◌∷◌, ◌++◌, ltb, leb, eqb, if◌then◌else◌, slice, length, take,
}
use context_guardian.Capture.Io.{IoResult, ok, error, ◌>>=◌, invalid_data, unexpected_eof}

pub record PcapPacket : Type 0 where
  pub timestamp_ms : ℕ
  pub bytes : List ℕ

-- `from_le_bytes` and `from_be_bytes`
unfoldable pub from_le_bytes : List ℕ → ℕ
from_le_bytes [] = 0
from_le_bytes (b ∷ bs) = b + 256 * from_le_bytes bs

unfoldable pub from_be_onto : ℕ → List ℕ → ℕ
from_be_onto so_far [] = so_far
from_be_onto so_far (b ∷ bs) = from_be_onto (so_far * 256 + b) bs

abbrev pub from_be_bytes : List ℕ → ℕ
from_be_bytes bytes = from_be_onto 0 bytes

unfoldable pub read_u32 : Bool → List ℕ → ℕ
read_u32 little_endian raw = if little_endian then from_le_bytes raw else from_be_bytes raw

-- The `match` on the first four bytes: the byte order, and whether fractions are nanoseconds.
abbrev pub bytes_eq : List ℕ → List ℕ → Bool
bytes_eq [] [] = true
bytes_eq (a ∷ as_left) (b ∷ bs) = if eqb a b then bytes_eq as_left bs else false
bytes_eq _ _ = false

unfoldable pub magic_of : List ℕ → Option (Bool × Bool)
magic_of magic =
    if bytes_eq magic (212 ∷ 195 ∷ 178 ∷ 161 ∷ [])
    then some (true, false)
    else if bytes_eq magic (161 ∷ 178 ∷ 195 ∷ 212 ∷ [])
    then some (false, false)
    else if bytes_eq magic (77 ∷ 60 ∷ 178 ∷ 161 ∷ [])
    then some (true, true)
    else if bytes_eq magic (161 ∷ 178 ∷ 60 ∷ 77 ∷ [])
    then some (false, true)
    else none

-- `saturating_mul` and `saturating_add` on 64 bits.
abbrev pub saturated : ℕ → ℕ
saturated n = min n (2 ^ 64 - 1)

unfoldable pub timestamp_of : Bool → ℕ → ℕ → ℕ
timestamp_of nanos seconds fraction =
    saturated (saturated (seconds * 1000) + (if nanos then fraction / 1000000 else fraction / 1000))

-- The loop's body: nothing at the end, else the packet and the offset behind it.
unfoldable pub read_packet : Bool → Bool → List ℕ → ℕ → IoResult (Option (PcapPacket × ℕ))
read_packet little_endian nanos bytes offset =
    let seconds = read_u32 little_endian (slice offset (offset + 4) bytes) in
    let fraction = read_u32 little_endian (slice (offset + 4) (offset + 8) bytes) in
    let included = read_u32 little_endian (slice (offset + 8) (offset + 12) bytes) in
    if leb (length bytes) offset
    then ok none
    else if ltb (length bytes - offset) 16
    then unexpected_eof "PCAP packet header is incomplete"
    else if ltb (length bytes - (offset + 16)) included
    then unexpected_eof "PCAP packet data is incomplete"
    else ok (
        some (
          record {
            timestamp_ms = timestamp_of nanos seconds fraction;
            bytes = slice (offset + 16) (offset + 16 + included) bytes;
          },
          offset + 16 + included,
        ))

-- The loop, on fuel: each packet takes 16 bytes at least.
unfoldable pub packets_from : ℕ → Bool → Bool → List ℕ → ℕ → IoResult (List PcapPacket)
packets_from zero little_endian nanos bytes offset = ok []
packets_from (suc fuel) little_endian nanos bytes offset = do
  packet ← read_packet little_endian nanos bytes offset
  elim packet [
    | none ↦ ok []
    | some (first, next) ↦ do
      others ← packets_from fuel little_endian nanos bytes next
      ok (first ∷ others)
  ]

unfoldable pub parse_pcap : List ℕ → IoResult (List PcapPacket × ℕ)
parse_pcap bytes =
    if ltb (length bytes) 24
    then unexpected_eof "PCAP header is incomplete"
    else elim (magic_of (take 4 bytes)) [
      | none ↦ invalid_data "unsupported PCAP magic"
      | some (little_endian, nanos) ↦ do
        packets ← packets_from (suc (length bytes)) little_endian nanos bytes 24
        ok (packets, read_u32 little_endian (slice 20 24 bytes))
    ]
