-- ===== src/Capture/Pcap/Round.antt =====
-- Files of captured packets that `parse_pcap` of src/passive_capture.rs reads back.
use context_guardian.Prelude.{ℕ, ◌/◌, ◌%◌, ◌^◌, ◌<◌, Bool, true, false, List, [], ◌∷◌, ◌++◌, length}
use context_guardian.Capture.Pcap.{PcapPacket, timestamp_of}

-- A number in four bytes.
unfoldable pub write_u32 : Bool → ℕ → List ℕ
write_u32 true n = n % 256 ∷ n / 256 % 256 ∷ n / 65536 % 256 ∷ n / 16777216 % 256 ∷ []
write_u32 false n = n / 16777216 % 256 ∷ n / 65536 % 256 ∷ n / 256 % 256 ∷ n % 256 ∷ []

-- A packet as it is written: its time, how long it was on the wire, and what of it was captured.
pub record Captured : Type 0 where
  pub seconds : ℕ
  pub fraction : ℕ
  pub original : ℕ
  pub captured_bytes : List ℕ

abbrev pub IsCaptured : Captured → Type 0
IsCaptured packet =
    (packet.seconds < 2 ^ 32) × (packet.fraction < 2 ^ 32) × (length packet.captured_bytes < 2 ^ 32)

module _ (little_endian : Bool) where
  abbrev pub write_header : Captured → List ℕ
  write_header packet =
      write_u32 little_endian packet.seconds
      ++ (write_u32 little_endian packet.fraction
          ++ (write_u32 little_endian (length packet.captured_bytes)
              ++ write_u32 little_endian packet.original))

  abbrev pub write_packets : List Captured → List ℕ
  write_packets [] = []
  write_packets (packet ∷ packets) =
      write_header packet ++ (packet.captured_bytes ++ write_packets packets)

  -- The packet that the loop makes of it.
  abbrev pub packet_of : Bool → Captured → PcapPacket
  packet_of nanos packet = record {
    timestamp_ms = timestamp_of nanos packet.seconds packet.fraction;
    bytes = packet.captured_bytes;
  }

-- The first four bytes of a file.
unfoldable pub write_magic : Bool → Bool → List ℕ
write_magic true false = 212 ∷ 195 ∷ 178 ∷ 161 ∷ []
write_magic false false = 161 ∷ 178 ∷ 195 ∷ 212 ∷ []
write_magic true true = 77 ∷ 60 ∷ 178 ∷ 161 ∷ []
write_magic false true = 161 ∷ 178 ∷ 60 ∷ 77 ∷ []

-- A file: the magic bytes, the version and the sizes in `filler`, the link's type, and the packets.
abbrev pub write_pcap : Bool → Bool → List ℕ → ℕ → List Captured → List ℕ
write_pcap little_endian nanos filler link_type packets =
    write_magic little_endian nanos
    ++ (filler ++ (write_u32 little_endian link_type ++ write_packets little_endian packets))
