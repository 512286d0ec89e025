-- ===== src/Tests.antt =====
-- The theorems at concrete inputs.
mod Data
mod Operations
mod Locks
mod Guards
mod Leases
mod Accounts
mod Commits
mod Hosts
mod Networks
mod Nics
