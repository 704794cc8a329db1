-- ===== src/Capture/Packet/Payload.antt =====
-- The payload that `parse_tcp_packet` of src/passive_capture.rs takes.
use context_guardian.Prelude.{
  ℕ, zero, suc, ◌+◌, ◌*◌, ◌/◌, ◌%◌, ◌≤◌, ◌<◌, Bool, true, false, ◌&&◌, ◌||◌, not, some, List, [],
  ◌∷◌, ◌++◌, ltb, leb, eqb, slice, length, drop, length-append, drop-append_le, slice-append_le,
  ◌≡◌, refl, sym, arith, Bool-cases, Option-cases, none_apart, inl, inr, bind_parts,
}
use context_guardian.Capture.Packet.{
  ParsedTcp, byte_at, parse_tcp, parse_ipv4_tcp, parse_ipv6_tcp, network_of, parse_network,
  parse_tcp_packet, any, link_layout,
}

byte_at-append :
    (index : ℕ) (bytes padding : List ℕ)
    → index < length bytes
    → byte_at index (bytes ++ padding) ≡ byte_at index bytes
unfolding byte_at
byte_at-append index [] padding inside = absurd (omega arith)
byte_at-append zero (b ∷ bs) padding inside = refl
byte_at-append (suc index) (b ∷ bs) padding inside = byte_at-append index bs padding (omega arith)

abbrev pub pad : List ℕ → ParsedTcp → ParsedTcp
pad padding parsed = record parsed { payload = parsed.payload ++ padding }

the_parsed : (p q : ParsedTcp) → some p ≡ some q → p ≡ q
the_parsed p q h = cc

parse_tcp-pad :
    (packet source destination padding : List ℕ) (parsed : ParsedTcp)
    → parse_tcp packet source destination ≡ some parsed
    → parse_tcp (packet ++ padding) source destination ≡ some (pad padding parsed)
unfolding parse_tcp
parse_tcp-pad packet source destination padding parsed read =
    elim (Bool-cases (ltb (length packet) 20)) [
      | inl short ↦ absurd (none_apart (rw (parse_tcp, short) at read))
      | inr long ↦
          let header = byte_at 12 packet / 16 * 4 in
          elim (Bool-cases (ltb header 20 || ltb (length packet) header)) [
            | inl wrong ↦ absurd (none_apart (rw (parse_tcp, long, wrong) at read))
            | inr fits ↦
                let same = the_parsed _ parsed (rw (parse_tcp, long, fits) at read) in
                let size = length-append packet padding in
                let at_header = byte_at-append 12 packet padding (ground arith) in
                let long' : ltb (length (packet ++ padding)) 20 ≡ false = ground arith in
                let fits' : (ltb header 20 || ltb (length (packet ++ padding)) header) ≡ false =
                  ground arith in
                rw
                  (
                    parse_tcp,
                    at_header,
                    long',
                    fits',
                    sym same,
                    slice-append_le 0 2 packet padding (omega arith) (ground arith),
                    slice-append_le 2 4 packet padding (omega arith) (ground arith),
                    slice-append_le 4 8 packet padding (omega arith) (ground arith),
                    drop-append_le header packet padding (ground arith),
                  )
                  refl
          ]
    ]

parse_ipv4_tcp-pad :
    (packet padding : List ℕ) (parsed : ParsedTcp)
    → parse_ipv4_tcp packet ≡ some parsed
    → parse_ipv4_tcp (packet ++ padding) ≡ some (pad padding parsed)
unfolding parse_ipv4_tcp
parse_ipv4_tcp-pad packet padding parsed read =
    elim (Bool-cases (ltb (length packet) 20 || not (eqb (byte_at 9 packet) 6))) [
      | inl short ↦ absurd (none_apart (rw (parse_ipv4_tcp, short) at read))
      | inr long ↦
          let header = byte_at 0 packet % 16 * 4 in
          elim (Bool-cases (ltb header 20 || ltb (length packet) (header + 20))) [
            | inl wrong ↦ absurd (none_apart (rw (parse_ipv4_tcp, long, wrong) at read))
            | inr fits ↦
                let size = length-append packet padding in
                let long' : (ltb (length (packet ++ padding)) 20 || not (eqb (byte_at 9 packet) 6))
                    ≡ false =
                  ground arith in
                let fits' : (ltb header 20 || ltb (length (packet ++ padding)) (header + 20))
                    ≡ false =
                  ground arith in
                rw
                  (
                    parse_ipv4_tcp,
                    byte_at-append 0 packet padding (ground arith),
                    byte_at-append 9 packet padding (ground arith),
                    long',
                    fits',
                    slice-append_le 12 16 packet padding (omega arith) (ground arith),
                    slice-append_le 16 20 packet padding (omega arith) (ground arith),
                    drop-append_le header packet padding (ground arith),
                  )
                  (parse_tcp-pad (drop header packet) (slice 12 16 packet) (slice 16 20 packet)
                    padding parsed (rw (parse_ipv4_tcp, long, fits) at read))
          ]
    ]

parse_ipv6_tcp-pad :
    (packet padding : List ℕ) (parsed : ParsedTcp)
    → parse_ipv6_tcp packet ≡ some parsed
    → parse_ipv6_tcp (packet ++ padding) ≡ some (pad padding parsed)
unfolding parse_ipv6_tcp
parse_ipv6_tcp-pad packet padding parsed read =
    elim (Bool-cases (ltb (length packet) 60 || not (eqb (byte_at 6 packet) 6))) [
      | inl short ↦ absurd (none_apart (rw (parse_ipv6_tcp, short) at read))
      | inr long ↦
          let size = length-append packet padding in
          let long' : (ltb (length (packet ++ padding)) 60 || not (eqb (byte_at 6 packet) 6))
              ≡ false =
            ground arith in
          rw
            (
              parse_ipv6_tcp,
              byte_at-append 6 packet padding (ground arith),
              long',
              slice-append_le 8 24 packet padding (omega arith) (ground arith),
              slice-append_le 24 40 packet padding (omega arith) (ground arith),
              drop-append_le 40 packet padding (ground arith),
            )
            (parse_tcp-pad (drop 40 packet) (slice 8 24 packet) (slice 24 40 packet) padding parsed
              (rw (parse_ipv6_tcp, long) at read))
    ]

parse_network-pad :
    (network padding : List ℕ) (protocol : ℕ) (parsed : ParsedTcp)
    → parse_network network protocol ≡ some parsed
    → parse_network (network ++ padding) protocol ≡ some (pad padding parsed)
unfolding parse_network
parse_network-pad [] padding protocol parsed read = absurd (none_apart read)
parse_network-pad (first ∷ rest) padding protocol parsed read =
    elim (Bool-cases (eqb (first / 16) 4 && any (eqb protocol) (2 ∷ 2048 ∷ []))) [
      | inl four ↦
          rw (four, parse_network)
            (parse_ipv4_tcp-pad (first ∷ rest) padding parsed (rw (four, parse_network) at read))
      | inr other ↦
          elim (Bool-cases (eqb (first / 16) 6 && any (eqb protocol) (30 ∷ 24 ∷ 28 ∷ 34525 ∷ []))) [
            | inl six ↦
                rw (other, six, parse_network)
                  (parse_ipv6_tcp-pad (first ∷ rest) padding parsed
                    (rw (other, six, parse_network) at read))
            | inr unknown ↦ absurd (none_apart (rw (other, unknown, parse_network) at read))
          ]
    ]

link_layout_order :
    (link_type size from to : ℕ)
    → link_layout link_type ≡ some (size, from, to)
    → (from ≤ to) × (to ≤ size)
unfolding link_layout
link_layout_order link_type size from to known = ground arith

the_network : (p q : List ℕ × ℕ) → some p ≡ some q → p ≡ q
the_network p q h = cc

network_of-pad :
    (native : Bool) (packet padding : List ℕ) (link_type : ℕ) (result : List ℕ × ℕ)
    → network_of native packet link_type ≡ some result
    → network_of native (packet ++ padding) link_type ≡ some (result.0 ++ padding, result.1)
unfolding network_of
network_of-pad native packet padding link_type result read =
    elim (Option-cases (link_layout link_type)) [
      | inl unknown ↦ absurd (none_apart (rw (unknown, network_of) at read))
      | inr ((size, from, to), known) ↦
          let (order, inside) = link_layout_order link_type size from to known in
          elim (Bool-cases (leb size (length packet))) [
            | inr short ↦ absurd (none_apart (rw (known, short, network_of) at read))
            | inl long ↦
                let same = the_network _ result (rw (known, long, network_of) at read) in
                let long' : leb size (length (packet ++ padding)) ≡ true =
                  ground (arith, length-append packet padding) in
                rw
                  (
                    known,
                    network_of,
                    long',
                    sym same,
                    drop-append_le size packet padding (ground arith),
                    slice-append_le from to packet padding order (ground arith),
                  )
                  refl
          ]
    ]

-- What is captured behind a packet becomes a part of its payload: the length that the network header
-- states is not looked at.
pub parse_tcp_packet-pad :
    (native : Bool) (packet padding : List ℕ) (link_type : ℕ) (parsed : ParsedTcp)
    → parse_tcp_packet native packet link_type ≡ some parsed
    → parse_tcp_packet native (packet ++ padding) link_type ≡ some (pad padding parsed)
unfolding parse_tcp_packet
parse_tcp_packet-pad native packet padding link_type parsed read =
    let (result, there, rest) = bind_parts (network_of native packet link_type) _ parsed read in
    rw (network_of-pad native packet padding link_type result there)
      (parse_network-pad result.0 padding result.1 parsed rest)
