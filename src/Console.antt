-- ===== src/Console.antt =====
-- openmux/server/console_manager.py: who may drive a port, and the requests that attach a client,
-- promote it, demote it, and take the write slot from another holder.
pub mod World
pub mod Ladder
pub mod Ask
pub mod Attach
pub mod Takeover
pub mod Invariant
pub mod Requests
pub mod History
pub mod Quiet
pub mod Targets
pub mod Transfer
pub mod Take
pub mod Access
pub mod Admission
pub mod Mistold
pub mod Exclusive
mod Tests
