-- ===== src/Stream.antt =====
-- reader.go and writer.go: little-endian numbers and chunk ids in a byte stream.
--
-- A stream is the list of the bytes that it still has to give, and ends with io.EOF. What a writer
-- is given is the list of the bytes written, so a write does not fail.
pub mod Defs
pub mod RoundTrip
