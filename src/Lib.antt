-- ===== src/Lib.antt =====
-- A verification library for the vehicle tracking platform. GPS trackers keep TCP connections to the
-- server, which separates and decodes their frames, and sends them commands. A text is the list of
-- its bytes, a machine word is a natural number with its wrap-around written out, and `float64` is an
-- interface (Protocols/Floats) with exact fractions as the instance of the examples.
--
-- The parts, and how they interact:
--   Prelude: tests, lists, results, words and maps that the other files share.
--   Protocols: backend/internal/protocols/tracker.go and coordinates.go. The normalised message, the
--   canonical command, `ValidateIMEI`, and the contract of the `Framer` interface as a record of laws
--   (Framing.FramerLaws), which a session takes from its adapter and an adapter proves. The laws that
--   ask for patience hold for frames up to a size, which is that of the longest frame of the adapter.
--   Coordinates is `DDMMToDecimal`; reading a decimal number is an operation of the float interface.
--   Gt06: backend/internal/protocols/gt06. Frame is frame.go (`NextFrame`, `decodeFrame`,
--   `buildFrame`, `crcITU`), Decode is decode.go, Parse is gt06.go (`Parse`), Encode is commands.go
--   (`EncodeCommand`), Simulate is simulate.go, the tracker's side of the conversation.
--   H02: backend/internal/protocols/h02. Frame is h02.go (`Detect`, `NextFrame`), Cursor and Binary are
--   binary.go, Text is text.go, Parse is `Parse` of h02.go, Encode is commands.go.
--   Tkstar: backend/internal/protocols/tkstar. Frame and Fields are parser.go, V1 is protocol_v1.go, V4
--   is protocol_v4.go, Encode is commands.go with the default vocabulary.
--   Tcp: backend/internal/tcp. Session is session.go: `run`, `process`, `detect` and `dispatch` over
--   the chunks that the socket delivers, with the ingestor, the socket and the registry as the record
--   `Effects`. Manager is connection.go: the registry of sessions by IMEI, and the deferred end of
--   `handle` in server.go.
--   Commands: backend/internal/commands. Store is command.go: each SQL statement as a function on the
--   rows of the table, which may fail. Service, Request and Answers are service.go: `Send`,
--   `dispatch`, `engineCutBlocked`, `reject`, `HandleAck` and `SweepTimeouts`, over a world of the table
--   and the trace of what was transmitted, audited, recorded, published and counted. History runs
--   any sequence of these calls as steps of the table.
--   Tracking: backend/internal/tracking. State is state.go, Positions is position.go and snapshot.go,
--   Rules and Ingest are ingestor.go: `processTelemetry`, which merges the state, records what has
--   changed, stores a position and judges it by the speed limit and the fences; Replies is the branch
--   of `HandleMessage` for the answer to a command. Dispatch is `HandleMessage` itself, with the caches
--   of devices and vehicles, `touch` and the sweep of statuses. Pages is `Page` of position.go and the
--   export that follows its cursors. History is `History` of position.go and Simplify is simplify.go,
--   with the functions of `math` as a record of operations.
--   Devices: backend/internal/devices, the rows of the trackers: `Touch`, `SetProtocol` and
--   `SweepStatuses` as functions on the rows.
--   Auth: backend/internal/auth. Tokens and Users are the statements of user.go, Service is service.go:
--   `Login`, `Refresh`, `Logout` and the cleanup; the roles of middleware.go are with the users.
--   Conversation: the way of a command through all of these parts and back.
--
-- Parameters: the effects of a session, the registry of protocols as the service sees it, the last
-- known position, the socket, the random source, the clock and the failures of the database; the
-- hashes and the signature of tokens.
--
-- Fuel: the loop of `process` runs on the length of the buffer, which is enough, since each round that
-- goes on consumes a byte at least (Tcp/Session/Progress); `decimal` runs on the number itself, which
-- is more than it has digits.
--
-- Not modelled: the storage of geofences, the registration of devices and users, the HTTP handlers
-- and the WebSocket hub; the driver of the database, the migrations, configuration, logging and the
-- programs' start-up, which are input and output.
mod Prelude
pub mod Protocols
pub mod Gt06
pub mod H02
pub mod Tkstar
pub mod Tcp
pub mod Commands
pub mod Auth
pub mod Devices
pub mod Tracking
pub mod Conversation
