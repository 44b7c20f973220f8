-- ===== src/Format/RoundTrip.antt =====
-- About the decoder and the encoder of format.go together.
pub mod Bodies
pub mod Tables
pub mod Elements
