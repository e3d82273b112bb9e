-- ===== src/Plugin.antt =====
-- The input method plugin under src/: its client of the daemon's socket, its engine and the process
-- of the daemon.
pub mod Lines
pub mod Messages
pub mod Engine
pub mod Manager
pub mod Socket
