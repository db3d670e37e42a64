-- ===== src/Lib.antt =====
-- yappa-core: a node of a multi-tenant realtime chat server.
--
-- A client opens a WebSocket with a token; the limiter (limits/mod.rs) admits it if its tenant has room, and
-- the node's registry (connection/mod.rs) keeps the sending end of its channel. Each text that it sends is
-- handled by server/ws.rs: group messages change the group tables and the registry, chat messages are
-- published over Redis (redis/mod.rs) and persisted, through Kafka (kafka/consumer.rs) or directly, by
-- the message batcher (db/mod.rs). On every node a listener hands what comes in over Redis to the registry,
-- which queues it for the open connections of the users that it is for. Paths are below src/ of the
-- repository.
--
-- - Common: names of the libraries, Boolean tests, lists and texts over native numbers, keyed maps.
-- - Sample: small stand-ins for outside services, used by the tests only.
-- - Auth: auth/, `Identity`, `Claims` and `validate_jwt`; Auth.Config has `AuthConfig::new` and `Auth`.
-- - App: main.rs and app.rs. App.Config has the configuration from the environment, App.Cors `build_cors`, and
--   App.Start `run`, as the chain of what must succeed, with the state, the tasks, the router's paths and the
--   shutdown by a signal.
-- - Protocol: protocol/mod.rs, the message types and `generate_dm_conversation_id`.
-- - Connection: connection/mod.rs. `ConnectionRegistry` is a record of two nested association lists, in place
--   of DashMaps; `register` is `insert`, `unregister` is `remove`, split into `remove_connection` and
--   `drop_tenant` at the point where it lets go of the guard; the others keep their names. Connection.Spec
--   has the contract: calls, `Presence` and `expected`.
-- - Redis: redis/mod.rs, `publish`, `publish_grp` and `listener`, whose body is `receive` and `route`.
-- - Limits: limits/mod.rs, the two Lua scripts and `acquire` and `release`. Limits.Server states what the
--   documentation of Redis says of the commands that the scripts call.
-- - Db: db/mod.rs, `MessageBatcher` with `push` and `flush`.
-- - Kafka: kafka/consumer.rs, `run` as a step function over the events that `select!` picks; Kafka.Handle
--   has kafka/mod.rs and kafka/producer.rs, with the settings of both clients.
-- - Ws: server/ws.rs, `handle_text_message` with a function for each arm, and `persist_message`. Ws.Upgrade
--   has `ws_handler`, with the token of the header or the query; Ws.Socket has `handle_socket`, its receive
--   loop as a list of events, the send task and the guard's drop. Ws.Program cuts a turn of the receive loop,
--   the heartbeat and `handle_text_message`, at its awaits into single accesses to what tasks share, each of
--   which is answered, fails, or is done with its answer lost; an await that hangs is a step that is not
--   taken. Ws.Effects has what such accesses leave behind, and Ws.Tables what Create and Join do to the group tables.
-- - Server: server/history.rs, groups.rs and health.rs, the other endpoints. Server.Bounds states what the
--   documentation of Postgres says of the history's SELECT on a table. Server.Stored and Ws.History have
--   the way of a message from a client's frame to the history.
-- - Cluster: several nodes with one database and one Redis server, which is how the parts above meet: a
--   step is one handshake, the start of a turn, also of a task that is being aborted, one access of a
--   socket's task to what tasks share, a part of the guard's removal,
--   the limiter's release, one message at a listener, or what a send task takes from its channel.
--   Cluster.Invariant is what every step keeps; Cluster.Cap compares the limiter's data with the sockets of all
--   nodes, by Limits.Open; Cluster.Drained is about the end of all sockets; Cluster.Produced and
--   Cluster.Consumed follow what goes to Kafka and what a consumer stores of it.
--
-- Operations on the maps are atomic here, which the guards of a DashMap give for one entry; Connection.Race is
-- about two places where an operation is longer than its guard, of which Cluster has the first among its
-- interleavings. The registry's operations, the scripts and one round of the consumer are steps; histories
-- and streams are lists of them, of any length. No definition runs on fuel: loops are recursion on the list
-- they walk, and a turn is a finite program of accesses. A panic is `none`, where the code indexes. Integers:
-- a count in Redis is a signed number below 2^63, timestamps are cast as `as i64` does and back, a limit of
-- the history and a time in the database have a sign, the numbers of the configuration are parsed below
-- 2^64 and 2^16, and other numbers are lengths.
--
-- Parameters: tokio's `try_send`, serde, SHA-256, the UUID functions, jsonwebtoken, tower-http, axum's `serve`,
-- Postgres, rdkafka and its broker, and the Redis server. Not modelled: logging, and the SQL statements, whose
-- texts are passed on: these are I/O or calls of other libraries.
mod Common
mod Sample
pub mod App
pub mod Auth
pub mod Protocol
pub mod Connection
pub mod Redis
pub mod Limits
pub mod Db
pub mod Kafka
pub mod Ws
pub mod Server
pub mod Cluster
