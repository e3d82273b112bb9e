-- ===== src/Audio/Msg.antt =====
-- The message of the audio channel (AudioMsg of anytalk-daemon/src/audio.rs).
use fcitx5_anytalk.Prelude.{ℕ, List}

-- A chunk of samples, two bytes each.
pub data AudioMsg : Type 0 where
  chunk : List ℕ → AudioMsg
