-- ===== src/Websocket.antt =====
-- internal/websocket: the connections of the clients, the hub, and the Redis subscriber that feeds it.
pub mod Sets
pub mod Client
pub mod Hub
pub mod Subscriber
