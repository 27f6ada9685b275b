-- ===== src/Relay.antt =====
-- moq-relay-ietf/src: the state of the relay.
pub mod CoveringPrefixSet
pub mod Retention
