-- ===== src/Lib.antt =====
-- golang-predix: a prediction market whose engine keeps orders and funds in memory, is fed by
-- streams of commands in Redis, one for each partition, and tells a database and web clients what
-- happened by envelopes on another stream. This library models the engine, the partitions, the
-- database worker, the WebSocket hub, the client of the command streams and the HTTP API.
--
-- Common: lists and Boolean tests over native numbers, Go strings as lists of bytes (Text), maps as
-- association lists in which a write replaces the entry of its key (Common/Dict), integers, and
-- int64 with its wrap-around (Common/Int64). Every sum, difference and product of int64s in the source is add64,
-- sub64 or mul64 here.
--
-- Engine, from internal/engine:
--   Types      types.go. An *Order is its id, and the heap of a Store gives the order behind it; a
--              Store is what the mutex of `Engine` guards.
--   Ledger     ledger.go: reservation, settlement, release. Ledger/Totals, Moves and Conservation
--              count the cash and the shares of all users; Settlement, RoundTrip and Gaps use them.
--   Matching   engine.go, `matchAgainstBook` and what it calls. The loop takes as fuel one more than
--              the number of resting orders, since a round exhausts the incoming order or removes a
--              resting one (Matching/Termination).
--   Book       engine.go, `addToBook` and `removeOrderFromSlice`; the stable sort is an insertion
--              sort.
--   Events     events.go and `emitEventP`; Outbox is outbox.go, `Recover`.
--   Orders     engine.go, `validateOrder`, `matchOrder` and the critical section of order creation;
--              Orders/Resting is about the book behind a match.
--   Handlers   engine.go, the handlers of the commands that change state, and `handleUserCreated`.
--   Depth      engine.go, the two queries; Depth/Sums is about what the depth adds up to.
--   Commands   engine.go, `handleMessage` and `processStreamEntry`, and replay.go. Commands/Replay
--              and Restart are about what a replay tells the outside, and what it rebuilds, Commands/Swallow about
--              the entries that it runs before they are consumed.
--   Undated    the orders, trades and stores of the above without their times: no command that changes the store
--              looks at a time.
-- A command goes through Commands to a handler; the handler runs its critical sections on the
-- store (Orders, Ledger, Matching, Book) and emits envelopes (Events).
--
-- Partition, from internal/partition: Router (router.go), Lease (lease.go), Fencing (fencing.go and
-- the rule of internal/dbworker/worker.go that reads the tokens), over Redis, a record of the
-- commands that they use with their documented behaviour as laws.
--
-- Database, from internal/dbworker/worker.go and the statements of internal/repository that it sends:
--   Rows       models.go, the tables. Money and shares are exact integers, as the worker writes them.
--   Queries    orders.sql.go, trades.sql.go, users.sql.go, postion.sql.go, transaction.sql.go,
--              events.sql.go: a statement is a function on the tables.
--   Settlement `validateTrade`, `settleTrade`, `applyOrderFill`. A `Server` says which statements are
--              refused; a transaction that fails leaves the tables as they were.
--   Worker     the handlers, `processStreamEntry`, and `Run` on the entries that it is given;
--              Worker/Reads has `Run` from its start. Worker/Accept and Worker/EndToEnd join it to the engine.
--
-- Websocket, from internal/websocket: Client (client.go, message.go), Hub (hub.go and the callers of it
-- in client.go and server.go), Subscriber (redis.go). A send on a closed channel, which panics, gives `none`.
-- Subscriber/Reach follows a trade from the engine to the buffers of the clients.
-- Hub/Steps has the calls of the connections and the broadcasts as steps, one at a time.
--
-- Manager, from pkg/redis/manager.go: the choice of streams, the envelopes, the append with its three
-- attempts, the fan-out, and the wait for the answer as a recursion on what is heard.
--
-- Ownership, from internal/engine/worker.go: the loop of `runPartition` and `renewLease`, cut at its calls
-- of Redis, as moves of any number of engines in any order.
--
-- Api, from internal/handler, internal/dto, internal/middleware, internal/router and pkg/auth:
--   Tables     the statements that the API sends, with the tables of users and events.
--   Auth       middleware/auth.go, pkg/auth/jwt.go, and the test of a token in websocket/server.go.
--   Answers    the answers, and `Outside`: what a request meets outside of the program.
--   Users, Orders, Events    the handlers. A handler is a chain of guards that answers, or lets the request through to
--              its effect. What the engine answers is heard, as in Manager; a handler that still waits has no answer.
--   Routes     router.go.
-- Sent, Guarded and Behalf are about what a request may write to the streams, Bearer about tokens, Rollback about the creation of
-- an event, Stuck about an id on its way from a request through the engine to the database worker.
--
-- Parameters: uuids, the clock, and what Redis and the disk accept are fields of a `World`. JSON is
-- not modelled: a payload is decoded, or `none` where decoding fails. A handler runs its critical
-- sections one after the other; what other goroutines do in between is not modelled. Not modelled
-- either: the start and stop of goroutines, the
-- network connections, the programs that start the parts, configuration and logging. What Redis answers to the
-- claims and the reads of the engine and the database worker is a list (Commands/Consume, Worker/Reads).
--
-- Some failures are coarser than in the source. A line whose write succeeds and whose sync fails counts as not
-- appended, a truncation whose seek fails as not done, and an XADD of the engine that fails as not applied, while that
-- of the client may be applied and unanswered; a retry inside of one call of the Redis library is not modelled. A
-- call of the ownership loop that fails counts as not applied.
--
-- Examples applies the theorems to the concrete data of Samples.
pub mod Common
pub mod Engine
pub mod Partition
pub mod Database
pub mod Websocket
pub mod Manager
pub mod Ownership
pub mod Api
mod Samples
mod Examples
