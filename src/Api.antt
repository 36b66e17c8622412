-- ===== src/Api.antt =====
-- api: the todo API over MySQL.
pub mod Todos
pub mod Sql
pub mod Requests
pub mod Handlers
pub mod Spec
mod Rows
mod Refines
mod Changes
pub mod Contract
mod Table
pub mod Invariant
mod Logged
pub mod Up
pub mod Answers
pub mod Statements
pub mod Memory
mod Tests
