-- ===== src/Postgres.antt =====
-- server/internal/adapters/postgres: the tables, the queries that sqlc generates, and the
-- repositories over them.
pub mod Frames
pub mod UserFrames
pub mod Table
pub mod Schema
pub mod Errors
pub mod Query
pub mod Ids
pub mod Events
pub mod AccountQuery
pub mod AgentQuery
pub mod Users
pub mod Agents
pub mod Accounts
