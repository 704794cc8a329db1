-- ===== src/Capture/WireTests.antt =====
-- Tests of the readers of captured bytes in src/passive_capture.rs, and the theorems about them at
-- concrete inputs.
use context_guardian.Prelude.{
  ℕ, ◌-◌, ◌≡◌, refl, String, true, false, some, List, [], ◌∷◌, ◌++◌, codes, length, All, arith,
  before, find, put, split_once, strip_prefix,
}
use mathlib.Core.List.{foldl}
use context_guardian.Rollout.Analysis.{starts_codes, lowercase}
use context_guardian.Capture.Io.{IoResult, ok}
use context_guardian.Capture.Bytes.{
  from_utf8, utf8_from, utf8_step, leading_byte, char_of, trim, trim_start, trim_end, is_space,
  digit_of, digits_from, from_digits, from_str_radix, find_bytes, position, split_lines,
  to_ascii_lowercase,
}
use context_guardian.Capture.Stream.{ByteStream, timestamp_for, last_mark, first_mark}
use context_guardian.Capture.Chunked.{crlf, chunk_size, chunks_from, decode_chunked}
use context_guardian.Capture.Chunked.Round.{Chunk, send, decode_chunked-send}
use context_guardian.Capture.Chunked.Fuel.{chunks_from_fuel}
use context_guardian.Capture.Pcap.{from_be_onto, from_le_bytes, read_u32}
use context_guardian.Capture.Pcap.Round.{Captured}
use context_guardian.Capture.Packet.{
  ParsedTcp, parse_tcp_packet, parse_network, network_of, link_layout, parse_ipv4_tcp, parse_tcp,
  byte_at,
}
use context_guardian.Capture.Packet.Payload.{pad, parse_tcp_packet-pad}
use context_guardian.Capture.Http.{
  HttpMessage, least, find_http_start, put_header, read_headers, lists_word, content_length,
  read_body, decode_content, within_limit, finish_message, read_message, messages_from,
  parse_http_messages,
}
use context_guardian.Capture.Http.Bounds.{IsLimited}
use context_guardian.Capture.Http.Progress.{messages_from_fuel, parse_http_messages-IsLimited}
use context_guardian.Capture.Report.Flows.{add_packet}
use context_guardian.Capture.Report.Flows.Servers.{IsServerFlow, collect_flows-IsServerFlow}

abbrev chunks : List Chunk
chunks =
    record { line = codes "5;x=1"; data_bytes = codes "hello" }
    ∷ record { line = codes " A "; data_bytes = codes ", everyone" }
    ∷ []

abbrev SizeIs : String → ℕ → Type 0
SizeIs line size = chunk_size (codes line) ≡ ok size

first_size : SizeIs "5;x=1" 5
unfolding chunk_size from_utf8 utf8_from utf8_step leading_byte char_of trim trim_start trim_end
    is_space digit_of digits_from from_digits from_str_radix before
first_size = refl

second_size : SizeIs " A " 10
unfolding chunk_size from_utf8 utf8_from utf8_step leading_byte char_of trim trim_start trim_end
    is_space digit_of digits_from from_digits from_str_radix before
second_size = refl

last_size : SizeIs "0" 0
unfolding chunk_size from_utf8 utf8_from utf8_step leading_byte char_of trim trim_start trim_end
    is_space digit_of digits_from from_digits from_str_radix before
last_size = refl

abbrev chunked_bytes : List ℕ
chunked_bytes = send chunks (codes "0" ++ (crlf ++ ([] ++ (crlf ++ codes "HTTP"))))

decode_chunked-send_example :
    decode_chunked chunked_bytes 32 ≡ ok (some (codes "hello, everyone", length chunked_bytes - 4))
decode_chunked-send_example =
    decode_chunked-send chunks (codes "0") [] (codes "HTTP") 32
      ((refl, first_size, omega arith), ((refl, second_size, omega arith), tt)) refl last_size refl
      (omega arith)

chunks_from_fuel_example :
    chunks_from 64 chunked_bytes 32 [] 0 ≡ chunks_from 100 chunked_bytes 32 [] 0
chunks_from_fuel_example = chunks_from_fuel 64 100 chunked_bytes 32 [] 0 (omega arith) (omega arith)

abbrev captured : List Captured
captured =
    record { seconds = 7; fraction = 250000; original = 90; captured_bytes = 1 ∷ 2 ∷ 3 ∷ [] }
    ∷ record { seconds = 8; fraction = 0; original = 0; captured_bytes = [] }
    ∷ []

abbrev filler : List ℕ
filler = codes "................"

-- An IPv4 packet behind a link's header of four bytes, from port 8 at 10.0.0.1 to port 80 at 10.0.0.2,
-- with the payload "ok".
abbrev ipv4_packet : List ℕ
ipv4_packet =
    2
    ∷ 0
    ∷ 0
    ∷ 0
    ∷ 69
    ∷ 0
    ∷ 0
    ∷ 42
    ∷ 0
    ∷ 0
    ∷ 0
    ∷ 0
    ∷ 64
    ∷ 6
    ∷ 0
    ∷ 0
    ∷ 10
    ∷ 0
    ∷ 0
    ∷ 1
    ∷ 10
    ∷ 0
    ∷ 0
    ∷ 2
    ∷ 0
    ∷ 8
    ∷ 0
    ∷ 80
    ∷ 0
    ∷ 0
    ∷ 1
    ∷ 0
    ∷ 0
    ∷ 0
    ∷ 0
    ∷ 0
    ∷ 80
    ∷ 24
    ∷ 0
    ∷ 0
    ∷ 0
    ∷ 0
    ∷ 0
    ∷ 0
    ∷ codes "ok"

abbrev parsed_packet : ParsedTcp
parsed_packet = record {
  source = record { address = 10 ∷ 0 ∷ 0 ∷ 1 ∷ []; port = 8 };
  destination = record { address = 10 ∷ 0 ∷ 0 ∷ 2 ∷ []; port = 80 };
  sequence = 256;
  payload = codes "ok";
}

ipv4_parses : parse_tcp_packet true ipv4_packet 0 ≡ some parsed_packet
unfolding parse_tcp_packet network_of link_layout parse_network parse_ipv4_tcp parse_tcp byte_at
    from_be_onto from_le_bytes read_u32
ipv4_parses = refl

parse_tcp_packet-pad_example :
    parse_tcp_packet true (ipv4_packet ++ 0 ∷ 0 ∷ []) 0 ≡ some (pad (0 ∷ 0 ∷ []) parsed_packet)
parse_tcp_packet-pad_example =
    parse_tcp_packet-pad true ipv4_packet (0 ∷ 0 ∷ []) 0 parsed_packet ipv4_parses

collect_flows-IsServerFlow_example :
    All
      (IsServerFlow 80)
      (foldl (add_packet true 0 80) [] (record { timestamp_ms = 5; bytes = ipv4_packet } ∷ []))
collect_flows-IsServerFlow_example =
    collect_flows-IsServerFlow true 0 80 (record { timestamp_ms = 5; bytes = ipv4_packet } ∷ []) []
      tt

abbrev no_gunzip : ℕ → List ℕ → IoResult (List ℕ)
no_gunzip limit bytes = ok []

abbrev stream : ByteStream
stream = record {
  bytes = codes "??POST /v1 HTTP/1.1\r\nHost: x\r\nContent-Length: 3\r\n\r\n{ }GET";
  marks = (0, 40) ∷ (30, 50) ∷ [];
}

abbrev read_messages : List HttpMessage
read_messages =
    record {
      timestamp_ms = 40;
      start_line = "POST /v1 HTTP/1.1";
      headers = ("content-length", "3") ∷ [];
      body = codes "{ }";
      encoded_body_bytes = 3;
    }
    ∷ []

http_reads : parse_http_messages no_gunzip stream false 32 ≡ ok read_messages
unfolding parse_http_messages messages_from read_message finish_message decode_content within_limit
    read_body content_length lists_word read_headers put_header find_http_start least find_bytes
    position starts_codes split_lines from_utf8 utf8_from utf8_step leading_byte char_of trim
    trim_start trim_end is_space to_ascii_lowercase lowercase digit_of digits_from from_digits
    from_str_radix split_once strip_prefix find put timestamp_for last_mark first_mark
http_reads = refl

parse_http_messages-IsLimited_example : All (IsLimited no_gunzip 32) read_messages
parse_http_messages-IsLimited_example =
    parse_http_messages-IsLimited no_gunzip stream false 32 read_messages http_reads

messages_from_fuel_example :
    messages_from no_gunzip 80 stream false 32 0 ≡ messages_from no_gunzip 200 stream false 32 0
messages_from_fuel_example =
    messages_from_fuel no_gunzip 80 200 stream false 32 0 (omega arith) (omega arith)
