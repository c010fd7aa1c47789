-- ===== src/Api.antt =====
-- internal/handler, internal/middleware, internal/router and pkg/auth: the HTTP API.
--
-- A handler maps a request to an answer and what it leaves of the tables and the streams. What gin does, the parsing of a
-- body as JSON and the writing of an answer, is outside: a body is decoded, or `none`.
pub mod Tables
pub mod Auth
pub mod Answers
pub mod Users
pub mod Orders
pub mod Events
pub mod Routes
pub mod Sent
pub mod Guarded
pub mod Bearer
pub mod Behalf
pub mod Stuck
pub mod Rollback
