-- ===== src/Tests.antt =====
-- Runs of the model, and the theorems at concrete inputs.
mod Buffers
mod Table
mod Requests
mod Pending
mod Locks
mod Oneway
mod Wire
mod Sockets
mod Lifetime
mod Shares
mod Rounds
