-- ===== src/Examples.antt =====
-- The theorems at concrete inputs, and runs of the definitions.
pub mod Series
pub mod Reminders
pub mod Sends
pub mod Tasks
pub mod Commands
pub mod Guard
pub mod Acks
pub mod Debts
pub mod Promises
pub mod Briefings
pub mod Aliases
pub mod Probes
pub mod Sessions
pub mod Webhooks
pub mod Usages
pub mod Updates
