-- ===== src/Data.antt =====
-- moq-transport/src/data: what stands on the streams and in the datagrams that carry objects.
pub mod ExtensionHeaders
pub mod Fetch
pub mod Header
pub mod Subgroup
pub mod Datagram
