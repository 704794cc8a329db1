-- ===== src/Capture/Report/Flows.antt =====
-- The flows of a capture, and the whole analysis of it by `analyze_pcap` of src/passive_capture.rs.
-- The hash map's order of the flows is taken to be the one in which they came.
pub mod Servers
use context_guardian.Prelude.{
  ℕ, zero, suc, ◌+◌, Bool, true, false, not, ◌&&◌, ◌||◌, Option, none, some, String, List, [], ◌∷◌,
  ◌++◌, ltb, eqb, if◌then◌else◌, is_empty, sort_by_key, All, ◌≡◌, refl, ap, arith, Bool-cases,
  Option-cases, inl, inr, length, ◌<◌, All-append, none_apart,
}
use mathlib.Core.List.{foldl}
use mathlib.Core.Path.{subst}
use context_guardian.Json.{Value, Number}
use context_guardian.Capture.Io.{IoResult, ok, error, ◌>>=◌}
use context_guardian.Capture.Stream.{Segment, reassemble}
use context_guardian.Capture.Pcap.{PcapPacket, bytes_eq, parse_pcap}
use context_guardian.Capture.Packet.{Endpoint, FlowKey, ParsedTcp, parse_tcp_packet}
use context_guardian.Capture.Schema.{SchemaField}
use context_guardian.Capture.Http.{HttpMessage, parse_http_messages}
use context_guardian.Capture.Correlate.{TransactionReport, request_at}
use context_guardian.Capture.Report.{request_report}

pub record Flow : Type 0 where
  pub requests : List Segment
  pub responses : List Segment

unfoldable pub endpoint_eq : Endpoint → Endpoint → Bool
endpoint_eq left right = bytes_eq left.address right.address && eqb left.port right.port

unfoldable pub key_eq : FlowKey → FlowKey → Bool
key_eq left right = endpoint_eq left.client right.client && endpoint_eq left.server right.server

-- The flow that a packet belongs to, and whether it goes to the server.
unfoldable pub flow_key : ℕ → ParsedTcp → Option (FlowKey × Bool)
flow_key server_port parsed =
    if eqb parsed.destination.port server_port
    then some (record { client = parsed.source; server = parsed.destination }, true)
    else if eqb parsed.source.port server_port
    then some (record { client = parsed.destination; server = parsed.source }, false)
    else none

unfoldable pub push_to : Bool → Segment → Flow → Flow
push_to true segment flow = record flow { requests = flow.requests ++ segment ∷ [] }
push_to false segment flow = record flow { responses = flow.responses ++ segment ∷ [] }

abbrev pub empty_flow : Flow
empty_flow = record { requests = []; responses = [] }

-- `flows.entry(key).or_default()` and the push.
unfoldable pub push_flow : FlowKey → Bool → Segment → List (FlowKey × Flow) → List (FlowKey × Flow)
push_flow key to_server segment [] = (key, push_to to_server segment empty_flow) ∷ []
push_flow key to_server segment ((other, flow) ∷ flows) =
    let rest = push_flow key to_server segment flows in
    if key_eq other key
    then (other, push_to to_server segment flow) ∷ flows
    else (other, flow) ∷ rest

-- The loop's body.
unfoldable pub add_parsed : ℕ → ℕ → List (FlowKey × Flow) → ParsedTcp → List (FlowKey × Flow)
add_parsed server_port timestamp_ms flows parsed = elim (flow_key server_port parsed) [
  | none ↦ flows
  | some (key, to_server) ↦
      if is_empty parsed.payload
      then flows
      else push_flow key to_server
          (record {
            sequence = parsed.sequence;
            timestamp_ms = timestamp_ms;
            bytes = parsed.payload;
          })
          flows
]

unfoldable pub add_packet :
    Bool → ℕ → ℕ → List (FlowKey × Flow) → PcapPacket → List (FlowKey × Flow)
add_packet native link_type server_port flows packet =
    elim (parse_tcp_packet native packet.bytes link_type) [
      | none ↦ flows
      | some parsed ↦ add_parsed server_port packet.timestamp_ms flows parsed
    ]

abbrev pub collect_flows : Bool → ℕ → ℕ → List PcapPacket → List (FlowKey × Flow)
collect_flows native link_type server_port packets =
    foldl (add_packet native link_type server_port) [] packets

abbrev split_response : List HttpMessage → Option HttpMessage × List HttpMessage
split_response [] = (none, [])
split_response (response ∷ responses) = (some response, responses)

module _ (native : Bool) (gunzip : ℕ → List ℕ → IoResult (List ℕ)) (sha256_hex : List ℕ → String)
    (from_slice : List ℕ → Option Value) (print_number : Number → String)
    (print_schema : List SchemaField → Option (List ℕ)) where
  -- The loop over the requests, each with the response at the same place.
  unfoldable pub reports_of :
      List HttpMessage → List HttpMessage → IoResult (List TransactionReport)
  reports_of [] responses = ok []
  reports_of (request ∷ requests) responses = do
    let (response, later) = split_response responses
    report ← request_report sha256_hex from_slice print_number print_schema request response
    reports ← reports_of requests later
    ok (elim report [ none ↦ reports | some here ↦ here ∷ reports ])

  unfoldable pub flow_reports : ℕ → Flow → IoResult (List TransactionReport)
  flow_reports max_body_bytes flow = do
    requests ← parse_http_messages gunzip (reassemble flow.requests) false max_body_bytes
    responses ← parse_http_messages gunzip (reassemble flow.responses) true max_body_bytes
    reports_of requests responses

  unfoldable pub all_reports : ℕ → List (FlowKey × Flow) → IoResult (List TransactionReport)
  all_reports max_body_bytes [] = ok []
  all_reports max_body_bytes ((key, flow) ∷ flows) = do
    reports ← flow_reports max_body_bytes flow
    others ← all_reports max_body_bytes flows
    ok (reports ++ others)

  unfoldable pub analyze_pcap : List ℕ → ℕ → ℕ → IoResult (List TransactionReport)
  analyze_pcap bytes server_port max_body_bytes = do
    (packets, link_type) ← parse_pcap bytes
    transactions ← all_reports max_body_bytes (collect_flows native link_type server_port packets)
    ok (sort_by_key request_at transactions)
