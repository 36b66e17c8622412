-- ===== src/Gateway.antt =====
-- keda/websocket-gateway: the hub of connections, and what the gateway does at each event.
pub mod Hub
pub mod Events
pub mod Delivery
pub mod Client
pub mod Fetch
mod Tests
