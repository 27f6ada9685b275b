-- ===== src/Tests.antt =====
-- Concrete runs, and the theorems at concrete inputs.
mod Coding
mod Message
mod Frame
mod Data
mod Relay
mod Session
