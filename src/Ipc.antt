-- ===== src/Ipc.antt =====
-- anytalk-daemon/src/ipc.rs: the messages between the input method and the daemon, and the handler
-- of one client.
pub mod Msg
pub mod Client
pub mod Task
