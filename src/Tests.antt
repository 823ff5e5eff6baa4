-- ===== src/Tests.antt =====
-- Concrete objects, and the theorems applied to them.
mod Fixtures
mod Names
mod Lifetimes
mod Claims
mod Pools
mod Timeline
mod Owners
mod Requesters
mod Instances
mod Requests
mod Entries
