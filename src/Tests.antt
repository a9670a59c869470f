-- ===== src/Tests.antt =====
-- Runs of the definitions on concrete inputs, and each result applied to one.
pub mod Vectors
pub mod Clocks
pub mod Stores
pub mod Rings
pub mod Processes
pub mod Clients
pub mod Answers
pub mod Systems
pub mod Joins
pub mod Gossips
pub mod Lost
pub mod Buckets
