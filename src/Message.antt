-- ===== src/Message.antt =====
-- moq-transport/src/message: control messages. A message is the codecs of its fields, in order.
pub mod Params
pub mod Subscribe
pub mod Filter
pub mod Fetch
pub mod Reasons
pub mod Extensions
pub mod Singles
pub mod Streaming
pub mod Frame
