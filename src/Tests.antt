-- ===== src/Tests.antt =====
-- Concrete systems, and the theorems applied to them.
mod Fixtures
mod Polls
mod Containers
mod Kills
mod Watches
mod Nodes
mod Commands
mod Files
mod Flags
mod Roots
mod Mains
mod Measures
