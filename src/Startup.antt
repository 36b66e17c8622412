-- ===== src/Startup.antt =====
-- The start and the end of the services: the waits for their databases, and their shutdown.
pub mod Wait
pub mod Patience
pub mod Success
pub mod Boot
pub mod Serves
pub mod Shutdown
pub mod Draining
pub mod Ending
mod Tests
