-- ===== src/Lib.antt =====
-- The daemon of the MCU bridge (mcubridge/mcubridge): it joins a Linux board to its microcontroller over
-- a serial line and to a cloud service. A frame (protocol/frame.py) is a protobuf envelope with a
-- checksum, sealed under a session key that the handshake (services/handshake.py) agrees on; nonces with
-- counters (security/security.py) keep frames from being replayed; the transport
-- (transport/serial.py) writes and reads frames, matches answers to commands and retries; state that
-- outlives a restart is in SQLite queues (state/storage.py); cloud requests are addressed by topics
-- (protocol/topics.py).
--
-- Base: shared names, lists and integers as bytes, dicts as association lists.
-- Protocol: tools/protocol/mcubridge.proto, the tables of tools/protocol/generate.py, and
--   mcubridge/mcubridge/protocol/__init__.py.
-- Security: mcubridge/mcubridge/security/security.py, one function each.
-- Frame: mcubridge/mcubridge/protocol/frame.py; `build_frame` and `parse_frame` with their parts.
-- Link: the link part of `RuntimeState` in mcubridge/mcubridge/state/context.py.
-- Handshake: mcubridge/mcubridge/services/handshake.py; Failure is the failure path, Response the
--   handling of LINK_SYNC_RESP, Sync one attempt of `synchronize`, Retry its repetition.
-- Transport: mcubridge/mcubridge/transport/serial.py; Correlation is `_correlate_frame`, Receive
--   `_process_packet` and the baud rate fallback, Send the tracked `send`, Session the read loop
--   and the sessions of the line.
-- Topics: mcubridge/mcubridge/protocol/topics.py.
-- Storage: mcubridge/mcubridge/state/storage.py.
-- Console: the console queue and the flow control of mcubridge/mcubridge/services/runtime.py.
-- Datastore: its datastore and mailbox handlers.
-- Processes: its process table and slots.
-- Cloud: the publication, the spool and the local clients in mcubridge/mcubridge/services/runtime.py;
--   Context is the requests, their answers and the envelopes, Session the calls of local clients. The flush and the
--   trimming recurse on the count of the spool, and each turn that goes on removes a message.
-- Config: the policy of commands and `validate_config` in mcubridge/mcubridge/protocol/structures.py;
--   Coerce and Load are mcubridge/mcubridge/config/settings.py and common.py.
-- State: what is left of mcubridge/mcubridge/state/context.py: supervisor records, and where queues are.
-- Metrics: the messages of mcubridge/mcubridge/metrics.py, and mcubridge/mcubridge/watchdog.py.
-- Gateway: the sessions of mcubridge-gateway/gateway.py.
-- Service: the rest of mcubridge/mcubridge/services/runtime.py. A request of the cloud goes through
--   `handle_request` (Requests): the topic, the authorization (Access), and a handler of the console,
--   the datastore, the mailbox, Pins, Board (system and SPI), Shell or Files. A frame of the MCU goes
--   through `handle_mcu_frame` (Frames), which knows the handlers by an interface; Node fills it with
--   the handlers over the whole state, and has the sessions of the line (Lifecycle,
--   Sessions). Toy is a service for the tests.
--
-- Protobuf, the ciphers, HKDF, HMAC, COBS, tenacity and the file system are parameters
-- (`Wire`, `Codec`, `Kdf`, `Cobs`, `Retrying`, `FileSystem`, `Builtins`, `Json`), with hypotheses on
-- their round trips only where a theorem needs them. Clock readings, random bytes, results of writes
-- and what arrives while a coroutine waits are arguments. Times are milliseconds. Loops are structural:
-- the retries of `send` recurse on the attempts left. Log lines and Prometheus counters that mirror a
-- field are left out, as are opening the port, process start and the gRPC streams, which are I/O.
mod Base
pub mod Protocol
pub mod Security
pub mod Frame
pub mod Link
pub mod Handshake
pub mod Transport
pub mod Topics
pub mod Storage
pub mod State
pub mod Metrics
pub mod Gateway
pub mod Cloud
pub mod Console
pub mod Datastore
pub mod Processes
pub mod Config
pub mod Service
