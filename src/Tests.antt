-- ===== src/Tests.antt =====
-- Concrete inputs, and the theorems applied to them.
mod Proto
mod Votes
mod Logs
mod Members
mod Networks
mod Engines
mod Tables
mod Crashes
mod Clients
mod Servers
mod Programs
