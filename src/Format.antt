-- ===== src/Format.antt =====
-- format.go and const.go: the elements of casync archives and index files, their decoder and
-- their encoder; and the conversion of file modes of filesystem.go that both use.
pub mod Constants
pub mod Elements
pub mod Mode
pub mod Bodies
pub mod Decoder
pub mod Encoder
pub mod WellFormed
pub mod RoundTrip
