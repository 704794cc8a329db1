-- ===== src/Capture.antt =====
-- The passive capture of src/passive_capture.rs: from the bytes of a capture to reports on the
-- transactions, and from the reports to the evidence for a repair.
pub mod Bytes
pub mod Stream
pub mod Schema
pub mod Differences
pub mod Io
pub mod Correlate
pub mod Chunked
pub mod Pcap
pub mod Packet
pub mod Http
pub mod Report
pub mod Options
pub mod Tests
pub mod ReportTests
pub mod WireTests
