-- ===== src/System.antt =====
-- The services together: the todo server over the API, and the gateway over the todo server.
pub mod Over
pub mod Rows
pub mod Listing
mod Paths
mod Patching
mod Marking
pub mod Completing
pub mod Deleting
pub mod Live
mod Tests
