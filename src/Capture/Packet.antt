-- ===== src/Capture/Packet.antt =====
-- The packets that `parse_tcp_packet` of src/passive_capture.rs reads: a link's header, a network
-- header of version 4 or 6, and a TCP header. A byte is a number below 256.
pub mod Payload
use context_guardian.Prelude.{
  ℕ, zero, suc, ◌+◌, ◌-◌, ◌*◌, ◌/◌, ◌%◌, String, Bool, true, false, ◌&&◌, ◌||◌, not, Option, none,
  some, ◌>>=◌, List, [], ◌∷◌, ltb, leb, eqb, if◌then◌else◌, slice, length, take, drop, any,
  unwrap_or,
}
use context_guardian.Capture.Pcap.{from_be_bytes, read_u32}

pub record Endpoint : Type 0 where
  pub address : List ℕ
  pub port : ℕ

pub record FlowKey : Type 0 where
  pub client : Endpoint
  pub server : Endpoint

pub record ParsedTcp : Type 0 where
  pub source : Endpoint
  pub destination : Endpoint
  pub sequence : ℕ
  pub payload : List ℕ

-- `packet[index]`, behind a test that the packet is long enough.
unfoldable pub byte_at : ℕ → List ℕ → ℕ
byte_at index [] = 0
byte_at zero (b ∷ bs) = b
byte_at (suc index) (b ∷ bs) = byte_at index bs

unfoldable pub parse_tcp : List ℕ → List ℕ → List ℕ → Option ParsedTcp
parse_tcp packet source_address destination_address =
    let header_length = byte_at 12 packet / 16 * 4 in
    if ltb (length packet) 20
    then none
    else if ltb header_length 20 || ltb (length packet) header_length
    then none
    else some (record {
      source = record { address = source_address; port = from_be_bytes (slice 0 2 packet) };
      destination = record {
        address = destination_address;
        port = from_be_bytes (slice 2 4 packet);
      };
      sequence = from_be_bytes (slice 4 8 packet);
      payload = drop header_length packet;
    })

unfoldable pub parse_ipv4_tcp : List ℕ → Option ParsedTcp
parse_ipv4_tcp packet =
    let header_length = byte_at 0 packet % 16 * 4 in
    if ltb (length packet) 20 || not (eqb (byte_at 9 packet) 6)
    then none
    else if ltb header_length 20 || ltb (length packet) (header_length + 20)
    then none
    else parse_tcp (drop header_length packet) (slice 12 16 packet) (slice 16 20 packet)

unfoldable pub parse_ipv6_tcp : List ℕ → Option ParsedTcp
parse_ipv6_tcp packet =
    if ltb (length packet) 60 || not (eqb (byte_at 6 packet) 6)
    then none
    else parse_tcp (drop 40 packet) (slice 8 24 packet) (slice 24 40 packet)

-- The sizes of the links' headers, and where in them the protocol stands.
unfoldable pub link_layout : ℕ → Option (ℕ × ℕ × ℕ)
link_layout link_type =
    if eqb link_type 0
    then some (4, 0, 4)
    else if eqb link_type 1
    then some (14, 12, 14)
    else if eqb link_type 113
    then some (16, 14, 16)
    else if eqb link_type 276
    then some (20, 0, 2)
    else none

-- The loopback link writes its protocol in the machine's byte order, `native`, the others in network
-- order.
abbrev pub read_protocol : Bool → ℕ → List ℕ → ℕ
read_protocol native link_type raw =
    if eqb link_type 0 then read_u32 native raw else from_be_bytes raw

-- What is behind the link's header, and the protocol it names.
unfoldable pub network_of : Bool → List ℕ → ℕ → Option (List ℕ × ℕ)
network_of native packet link_type = elim (link_layout link_type) [
  | none ↦ none
  | some (size, from, to) ↦
      if leb size (length packet)
      then some (drop size packet, read_protocol native link_type (slice from to packet))
      else none
]

unfoldable pub parse_network : List ℕ → ℕ → Option ParsedTcp
parse_network [] protocol = none
parse_network (first ∷ rest) protocol =
    if eqb (first / 16) 4 && any (eqb protocol) (2 ∷ 2048 ∷ [])
    then parse_ipv4_tcp (first ∷ rest)
    else if eqb (first / 16) 6 && any (eqb protocol) (30 ∷ 24 ∷ 28 ∷ 34525 ∷ [])
    then parse_ipv6_tcp (first ∷ rest)
    else none

unfoldable pub parse_tcp_packet : Bool → List ℕ → ℕ → Option ParsedTcp
parse_tcp_packet native packet link_type = do
  (network, protocol) ← network_of native packet link_type
  parse_network network protocol
