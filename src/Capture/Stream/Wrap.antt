-- ===== src/Capture/Stream/Wrap.antt =====
-- Sequence numbers that pass the end of their 32 bits, in `reassemble` of src/passive_capture.rs.
