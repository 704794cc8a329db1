-- ===== src/Capture/Report/Flows/Servers.antt =====
-- The flows that `analyze_pcap` of src/passive_capture.rs sorts the packets into.
use context_guardian.Prelude.{
  ℕ, Bool, true, false, some, List, [], ◌∷◌, eqb, is_empty, All, ◌≡◌, arith, Bool-cases,
  Option-cases, inl, inr, All-append, none_apart,
}
use mathlib.Core.List.{foldl}
use mathlib.Core.Path.{subst}
use context_guardian.Capture.Stream.{Segment}
use context_guardian.Capture.Pcap.{PcapPacket}
use context_guardian.Capture.Packet.{FlowKey, ParsedTcp, parse_tcp_packet}
use context_guardian.Capture.Report.Flows.{
  Flow, key_eq, flow_key, push_to, empty_flow, push_flow, add_parsed, add_packet,
}

-- A flow with a server at the port, and segments that are not empty.
abbrev pub HasBytes : Segment → Type 0
HasBytes segment = is_empty segment.bytes ≡ false

abbrev pub IsServerFlow : ℕ → FlowKey × Flow → Type 0
IsServerFlow server_port (key, flow) =
    (key.server.port ≡ server_port) × All HasBytes flow.requests × All HasBytes flow.responses

the_key : (p q : FlowKey × Bool) → some p ≡ some q → p ≡ q
the_key p q h = cc

flow_key_port :
    (server_port : ℕ) (parsed : ParsedTcp) (result : FlowKey × Bool)
    → flow_key server_port parsed ≡ some result
    → result.0.server.port ≡ server_port
unfolding flow_key
flow_key_port server_port parsed result known =
    elim (Bool-cases (eqb parsed.destination.port server_port)) [
      | inl to_server ↦
          subst (λ r. r.0.server.port ≡ server_port)
            (the_key _ result (rw (to_server, flow_key) at known)) (ground arith)
      | inr other ↦ elim (Bool-cases (eqb parsed.source.port server_port)) [
        | inl from_server ↦
            subst (λ r. r.0.server.port ≡ server_port)
              (the_key _ result (rw (other, from_server, flow_key) at known)) (ground arith)
        | inr neither ↦ absurd (none_apart (rw (other, neither, flow_key) at known))
      ]
    ]

push_to-HasBytes :
    (server_port : ℕ) (to_server : Bool) (key : FlowKey) (segment : Segment) (flow : Flow)
    → HasBytes segment
    → IsServerFlow server_port (key, flow)
    → IsServerFlow server_port (key, push_to to_server segment flow)
unfolding push_to
push_to-HasBytes server_port true key segment flow some_bytes (port, requests, responses) =
    (port, All-append HasBytes flow.requests (segment ∷ []) requests (some_bytes, tt), responses)
push_to-HasBytes server_port false key segment flow some_bytes (port, requests, responses) =
    (port, requests, All-append HasBytes flow.responses (segment ∷ []) responses (some_bytes, tt))

push_flow-IsServerFlow :
    (server_port : ℕ) (key : FlowKey) (to_server : Bool) (segment : Segment)
    (flows : List (FlowKey × Flow))
    → key.server.port ≡ server_port
    → HasBytes segment
    → All (IsServerFlow server_port) flows
    → All (IsServerFlow server_port) (push_flow key to_server segment flows)
unfolding push_flow
push_flow-IsServerFlow server_port key to_server segment [] port some_bytes valid =
    (push_to-HasBytes server_port to_server key segment empty_flow some_bytes (port, tt, tt), tt)
push_flow-IsServerFlow server_port key to_server segment ((other, flow) ∷ flows) port some_bytes
      valid =
    elim (Bool-cases (key_eq other key)) [
      | inl same ↦
          rw (same, push_flow)
            (push_to-HasBytes server_port to_server other segment flow some_bytes valid.0, valid.1)
      | inr different ↦
          rw (different, push_flow)
            (
              valid.0,
              push_flow-IsServerFlow server_port key to_server segment flows port some_bytes
                  valid.1,
            )
    ]

add_parsed-IsServerFlow :
    (server_port timestamp_ms : ℕ) (flows : List (FlowKey × Flow)) (parsed : ParsedTcp)
    → All (IsServerFlow server_port) flows
    → All (IsServerFlow server_port) (add_parsed server_port timestamp_ms flows parsed)
unfolding add_parsed
add_parsed-IsServerFlow server_port timestamp_ms flows parsed valid =
    elim (Option-cases (flow_key server_port parsed)) [
      | inl other_port ↦ rw (other_port, add_parsed) valid
      | inr ((key, to_server), known) ↦ elim (Bool-cases (is_empty parsed.payload)) [
        | inl nothing ↦ rw (known, nothing, add_parsed) valid
        | inr some_bytes ↦
            rw (known, some_bytes, add_parsed)
              (push_flow-IsServerFlow server_port key to_server
                (record {
                  sequence = parsed.sequence;
                  timestamp_ms = timestamp_ms;
                  bytes = parsed.payload;
                })
                flows (flow_key_port server_port parsed (key, to_server) known) some_bytes valid)
      ]
    ]

-- Every flow that the packets are sorted into has the chosen port at its server's end, and no segment
-- without bytes, whatever the packets hold.
pub collect_flows-IsServerFlow :
    (native : Bool) (link_type server_port : ℕ) (packets : List PcapPacket)
    (flows : List (FlowKey × Flow))
    → All (IsServerFlow server_port) flows
    → All (IsServerFlow server_port) (foldl (add_packet native link_type server_port) flows packets)
unfolding add_packet
collect_flows-IsServerFlow native link_type server_port [] flows valid = valid
collect_flows-IsServerFlow native link_type server_port (packet ∷ packets) flows valid =
    collect_flows-IsServerFlow native link_type server_port packets
      (add_packet native link_type server_port flows packet)
      (elim (Option-cases (parse_tcp_packet native packet.bytes link_type)) [
        | inl other ↦ rw (other, add_packet) valid
        | inr (parsed, known) ↦
            rw (known, add_packet)
              (add_parsed-IsServerFlow server_port packet.timestamp_ms flows parsed valid)
      ])
