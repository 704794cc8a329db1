-- ===== src/Lib.antt =====
-- Verification of Context Guardian, a Rust sidecar that repairs the recorded task contexts
-- (rollouts) of Codex, with its blind image Relay.
--
-- The program has these parts. src/main.rs reads a rollout, a file of JSON lines, drops and folds
-- records, normalises token counts, replaces inline images and large outputs, and writes the file
-- back. src/message_format.rs diagnoses message records and repairs them where no information is
-- lost. src/passive_capture.rs reads captured packets and compares the schemas of requests.
-- relay/src/lib.rs and relay/src/bin/server.rs are the Relay, which queues image requests for
-- tenants and answers them with the results that a tenant's client posts; relay/src/bin/client.rs
-- is that client, and src/bin/context-image-gateway.rs serves the images.
--
-- Json models the values of serde_json as the code sees them: a data type with its six kinds,
-- objects as lists of entries in the order of their keys, and the accessors that the code calls.
-- Parsing and printing JSON is not code of the repository: it is the record Serde, a parameter of
-- the functions that use it.
--
-- MessageFormat models src/message_format.rs, one child for each group of functions (Issue,
-- Content, Message, Record). A function that changes a value in place and pushes issues on a
-- vector is here a function from the value to the new value and the issues that it pushes. The
-- loops over arrays are structural recursions with the index of the first element, so no fuel is
-- needed. Shape states what a well-formed record is, and the modules below Repair are about how
-- the diagnosis and the shapes relate. The live probe (run_live_probe) starts a process and is not
-- modelled.
--
-- Relay models relay/src/lib.rs (Relay/Identity), relay/src/bin/server.rs and parts of
-- relay/src/bin/client.rs (Relay/Client). Relay/State has the server's state, Relay/Tenants
-- registration, authentication and the tenant store, Relay/Requests the handlers poll, result and
-- image, and Relay/Tunnels the blind tunnels. A handler is a function from the state to the new
-- state and its answer; one that waits is split at its wait, and Relay/Server interleaves these
-- parts in a step relation. A oneshot channel is a number, and what is sent on it is an output.
-- SHA-256, hex, base64, the comparison in constant time, the coding of the store by serde_json and
-- the outcomes of the file system are parameters, and the laws that the proofs use of them
-- (CryptoLaws, StoreLaws) state what those crates document. The search for a proof of work has as
-- fuel the number of nonces of the source's range, 2^64-1, so it ends as the source's loop does.
-- The reading of a TLS hello, the bridge between a web socket and a TCP stream, timers and
-- notifications are not modelled.
--
-- Rollout models parts of src/main.rs: Rollout/Chunks cuts a long output into chunks by estimated
-- tokens, Rollout/Tokens reads and normalises the token counts of records, Rollout/Analysis finds
-- the records to fold away, Rollout/Evidence reads tool calls and compares captured evidence with
-- repairs, Rollout/Images takes inline images out of values, with one more than the number of
-- characters as fuel, Rollout/Attachments takes images out of records, Rollout/Summary asks a
-- service for summaries of large outputs and merges them in at most four rounds, and Rollout/Stats
-- has the statistics of a cleaning. The loops are structural recursions on the text or its lines.
--
-- Capture models src/passive_capture.rs. Capture/Pcap and Capture/Packet read the files and
-- packets, Capture/Report/Flows sorts the packets into flows, Capture/Stream puts the segments of
-- a flow together, Capture/Http and Capture/Chunked read the messages, Capture/Schema and
-- Capture/Report make the reports, Capture/Differences compares schemas and Capture/Correlate
-- finds the evidence; Capture/Options has the checks of the options. A byte is a natural number,
-- and Capture/Bytes has the methods of the standard library on texts and bytes. The loops of
-- parse_pcap, parse_http_messages and decode_chunked have as fuel one more than the number of
-- bytes, and each turn takes at least two of them. SHA-256, gzip, serde_json, the byte order of
-- the machine and the file system are parameters. A HashMap whose order the source leaves open is
-- a list in the order in which its keys came.
--
-- Gateway models src/bin/context-image-gateway.rs: the answer to one request, as a function from
-- what the connection gives to the bytes that are written. HMAC, hex, the reading of damaged
-- UTF-8, the clock and the file system are parameters.
--
-- Not modelled are the rest of src/main.rs, the calls of tcpdump and the writing of files in
-- src/passive_capture.rs, its command line src/bin/context-guardian-passive-capture.rs, the
-- sockets and the TLS set-up of src/bin/context-image-gateway.rs, and the identity file, the
-- environment and the bridged sockets of relay/src/bin/client.rs.
pub mod Prelude
pub mod Json
pub mod MessageFormat
pub mod Relay
pub mod Rollout
pub mod Capture
pub mod Gateway
