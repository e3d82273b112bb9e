-- ===== src/Audio.antt =====
-- anytalk-daemon/src/audio.rs: capture, resampling and the chunks that go to the active session.
pub mod Fixed
mod Tests
pub mod Msg
pub mod Float
pub mod Samples
pub mod Resampler
pub mod Capture
pub mod Global
