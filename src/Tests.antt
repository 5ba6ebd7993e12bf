-- ===== src/Tests.antt =====
-- Witnesses: the theorems at concrete inputs, with small stand-ins for serde_json, rusqlite and the
-- file system.
mod Values
mod Machine
mod Library
mod Networks
mod Names
mod Wire
mod Queries
mod Requests
mod Tasks
mod Startup
mod Client
mod Commands
mod Demo
mod Unit
