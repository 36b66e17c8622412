-- ===== src/Keda.antt =====
-- keda/mcp-server: the todo tools, over the todo API and Redis.
pub mod World
pub mod Tools
pub mod Steps
pub mod Catalog
pub mod Server
pub mod Mux
pub mod Merge
pub mod Priority
pub mod Delete
pub mod Writes
pub mod Hash
mod Tests
