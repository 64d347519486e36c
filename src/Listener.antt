-- ===== src/Listener.antt =====
-- openmux/server/listener_session.py: the terminal sessions of Telnet and SSH.
pub mod Escape
pub mod Input
mod Tests
