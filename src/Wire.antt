-- ===== src/Wire.antt =====
-- internal/nodosum/quic.go: the frames of the stream protocol. A stream that is read is the list of
-- bytes still to come before its end; a reader returns what it read and the bytes that are left.
pub mod Ints
pub mod Encode
pub mod Decode
pub mod Stream
pub mod Roundtrip
pub mod Fields
pub mod Loop
pub mod Messages
pub mod Serve
mod Tests
