-- ===== src/Scp/Protocol.antt =====
-- electron/scp/protocol.js: the limits of an endpoint, the reader over the chunks of a stream, the
-- records as lines of text, and the writer. The stream, its timers and its failures are the input.
pub mod Limits
pub mod Reader
pub mod Usable
pub mod Lines
pub mod Records
pub mod Fields
pub mod Parsing
pub mod Streams
pub mod RoundTrip
pub mod Payload
pub mod Tests
