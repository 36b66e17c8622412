-- ===== src/Kube.antt =====
-- agent/mcp-server: the cluster-reading tools and their JSON-RPC server.
pub mod Kinds
pub mod Objects
pub mod Summary
pub mod Fetch
pub mod Tools
pub mod Catalog
pub mod Server
mod Tables
pub mod Secrets
pub mod Refusal
pub mod Access
pub mod Mux
pub mod Listing
pub mod Events
pub mod Describe
mod Tests
