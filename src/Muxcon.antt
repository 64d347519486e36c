-- ===== src/Muxcon.antt =====
-- openmux/server/muxcon_protocol.py and openmux/server/adapters/muxcon.py: the link between two
-- servers that share ports.
pub mod Numbered
pub mod Frame
pub mod Receive
pub mod Send
pub mod Channel
pub mod Paths
pub mod Filters
mod Tests
