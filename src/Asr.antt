-- ===== src/Asr.antt =====
-- anytalk-daemon/src/asr.rs: the client of the speech recognition service.
pub mod Json
pub mod Connect
pub mod Pool
pub mod Request
pub mod Session
pub mod Sample
pub mod Texts
