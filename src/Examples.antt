-- ===== src/Examples.antt =====
-- Runs of the models at concrete inputs, and the theorems applied to them.
mod Queues
mod Reviews
mod Policies
mod Commands
mod Leases
mod Approvals
mod Gaps
mod Responses
mod Privileges
