-- ===== src/Coding.antt =====
-- moq-transport/src/coding: how values are laid out in bytes.
pub mod Errors
pub mod Reader
pub mod Writer
pub mod Streaming
pub mod RoundTrip
pub mod AtEnd
pub mod Integer
pub mod VarInt
pub mod Repeat
pub mod Location
pub mod Tuple
pub mod TrackNamespace
pub mod KeyValuePairs
pub mod BoundedString
