-- ===== src/Session.antt =====
-- moq-transport/src/session: the state that a session keeps beside its streams.
pub mod Error
pub mod RequestId
pub mod PendingRequests
pub mod Reader
pub mod Delivery
