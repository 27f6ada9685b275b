-- ===== src/Lib.antt =====
-- moq-rs, a Rust implementation of Media over QUIC Transport: the wire format of moq-transport, the
-- state that a session keeps beside its streams, and what the relay of moq-relay-ietf keeps.
--
-- A session exchanges control messages with its peer. A message is bytes on a QUIC stream; the
-- reader of moq-transport/src/session/reader.rs appends what arrives to a buffer and tries to
-- decode a message from it, again and again while the decoder answers that bytes are missing. The
-- codecs of moq-transport/src/coding are what both ends agree on. Each request carries an id, that
-- the sender allocates and the receiver checks, and waits in a table for its response.
--
-- Prelude      Boolean tests, lists measured by native numbers, bit fields as arithmetic, finite
--              sets as lists; the names of the libraries passed on.
-- Coding       moq-transport/src/coding. A decoder takes the bytes that are left to an outcome: a
--              value and the bytes left then, a `DecodeError`, or a panic (`bytes::Buf` panics when
--              more is read than is there). An encoder takes the room of the buffer to the bytes
--              written and the room left, an `EncodeError`, or a panic.
--   Errors     `DecodeError` and `EncodeError` of decode.rs and encode.rs.
--   Reader, Writer    `decode_remaining`, `encode_remaining` and the operations of `bytes`, the
--              library behind `Buf` and `BufMut`, by their documented behaviour.
--   Streaming, RoundTrip    the contracts of a decoder and of a pair of codecs, as records, with a
--              rule for each way that codecs are put together.
--   Repeat     the loops over a count of elements.
--   AtEnd      the contract of a codec whose message takes the rest of its payload.
--   Integer    integer.rs: `u8`, `u16`, `bool`.
--   VarInt     varint.rs: `decode`, `encode` of `VarInt`, `u64`, `usize` (of 64 bits).
--   Location, Tuple, TrackNamespace    location.rs, tuple.rs, track_namespace.rs.
--   KeyValuePairs    kvp.rs: the codec, with keys as distances, and lookup by key.
--              ToEnd is the loop over pairs up to the end of a payload.
--   BoundedString    bounded_string.rs; what bytes are UTF-8 is a parameter.
-- Message      moq-transport/src/message: a record and two codecs for each message.
--   Params     request_ok.rs, publish_ok.rs, request_update.rs, publish_namespace.rs,
--              max_request_id.rs, requests_blocked.rs.
--   Subscribe  subscribe.rs, track_status.rs, subscribe_namespace.rs.
--   Filter     filter_type.rs and `SubscriptionFilter` of params.rs.
--   Fetch      fetch_type.rs, fetch.rs.
--   Reasons    request_error.rs, publish_done.rs, publish_namespace_cancel.rs, go_away.rs.
--   Extensions    `TrackExtensions` of params.rs, subscribe_ok.rs, publish.rs, fetch_ok.rs.
--   Singles    unsubscribe.rs, fetch_cancel.rs, pubilsh_namespace_done.rs, namespace.rs.
--   Frame      mod.rs: `Message`, the type and length around each of them. Arms and Cut are about
--              payloads that stop too early.
--   Streaming  which of the decoders can read from a buffer that is still filling.
-- Setup        moq-transport/src/setup: client.rs and server.rs.
-- Data         moq-transport/src/data.
--   ExtensionHeaders    extension_headers.rs: `decode` and `encode`, through a buffer of their own.
--   Header     header.rs, `SubgroupHeader` of subgroup.rs, `FetchHeader` of fetch.rs.
--   Subgroup   object_status.rs, and the objects of subgroup.rs.
--   Datagram   datagram.rs: `decode`, which reads to the end of the datagram, and `encode`.
--   Fetch      fetch.rs: `FetchObjectEncoder` and `FetchObjectDecoder`, each from the prior object to
--              the next one. Stream is a run of them over the entries of a stream.
-- Session      moq-transport/src/session.
--   Error      `SessionError` of error.rs, with its codes.
--   Reader     reader.rs: `Reader::decode`, on the chunks that are still to arrive.
--   Delivery   `Message::encode` at one end of a stream and `Reader::decode` at the other.
--   RequestId  request_id.rs: `allocate`, `apply_max_request_id`, `validate_incoming`,
--              `handle_requests_blocked`, each from a state to the next one and a result.
--   PendingRequests    pending_requests.rs: `insert`, `remove`, `complete`, `next_deadline`,
--              `expire`, on an association list for the map and seconds for an `Instant`.
-- Relay        moq-relay-ietf/src.
--   CoveringPrefixSet    covering_prefix_set.rs: `add` and `remove`, on lists for the sets.
--   Retention  retention.rs: `RetainedTrack::insert`, from the state of a track and the bytes of all
--              tracks to those after it. What other tracks do to the shared bytes before each look
--              of the loop is a parameter, `noise`; the sizes of structures in memory are another.
--              Plan is `RetainedTrack::plan`, which looks at the groups twice; the live track's
--              Largest Location is a parameter.
-- Tests        concrete runs, and the theorems at concrete inputs.
--
-- The loop of `validate_incoming` has as much fuel as the set has ids, and two more: each round
-- takes an id out of the set, so that the fuel does not run out. The loop over pairs to the end of a
-- payload has one round more than there are bytes, and each round takes a byte. The last loop of
-- `insert` has as many rounds as there are groups, and each round drops one. The loop of `plan` over
-- the objects of a group has a round for each id up to the last. Every other loop is structural.
--
-- Not modelled: tasks, streams and locks (the states here are what stands behind a lock, and no
-- code that holds one panics), logging, the texts of errors, in moq-transport the tasks of a
-- session, and the crates beside moq-transport and moq-relay-ietf, which are services,
-- programs and calls of libraries for the most part.
pub mod Prelude
pub mod Coding
pub mod Message
pub mod Data
pub mod Setup
pub mod Session
pub mod Relay
pub mod Tests
