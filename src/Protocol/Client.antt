-- ===== src/Protocol/Client.antt =====
-- The two frames that the daemon sends, read back by a reader written from the documentation of the
-- service (doubao语音-api.md): header, big-endian size, payload.
use fcitx5_anytalk.Prelude.{
  ℕ, ◌/◌, ◌%◌, ◌^◌, ◌<◌, ◌≡◌, refl, Bool, List, ◌∷◌, ◌++◌, Option, some, none, true, false, arith,
  ltb, ◌==◌, if◌then◌else◌, length, take, drop, length-append, take-append_length,
  drop-append_length, append_assoc, All,
}
use fcitx5_anytalk.Text.{Text, IsScalar}
use fcitx5_anytalk.Text.Utf8.{as_bytes, from_utf8_lossy, from_utf8_lossy-as_bytes}
use fcitx5_anytalk.Protocol.{
  build_header, nibbles, u32be, from_be_bytes, build_audio_only_request, build_full_client_request,
}
use fcitx5_anytalk.Protocol.Bits.{from_be_bytes-u32be}

pub record ClientFrame : Type 0 where
  pub message_type : ℕ
  pub flags : ℕ
  pub serialization : ℕ
  pub compression : ℕ
  pub payload : List ℕ

-- One frame from the front of a stream of bytes, and what follows it.
unfoldable pub read_client_frame : List ℕ → Option (ClientFrame × List ℕ)
unfolding from_be_bytes
read_client_frame (b0 ∷ b1 ∷ b2 ∷ b3 ∷ s0 ∷ s1 ∷ s2 ∷ s3 ∷ tail) =
    let size = from_be_bytes s0 s1 s2 s3 in
    if b0 == 0x11
    then (if ltb (length tail) size
        then none
        else some (
          record {
            message_type = b1 / 16;
            flags = b1 % 16;
            serialization = b2 / 16;
            compression = b2 % 16;
            payload = take size tail;
          },
          drop size tail,
        ))
    else none
read_client_frame _ = none

abbrev frame_of : ℕ → ℕ → List ℕ → ClientFrame
frame_of b1 b2 payload = record {
  message_type = b1 / 16;
  flags = b1 % 16;
  serialization = b2 / 16;
  compression = b2 % 16;
  payload = payload;
}

read-sized :
    (b1 b2 s0 s1 s2 s3 : ℕ) (payload rest : List ℕ)
    → from_be_bytes s0 s1 s2 s3 ≡ length payload
    → read_client_frame (0x11 ∷ b1 ∷ b2 ∷ 0 ∷ s0 ∷ s1 ∷ s2 ∷ s3 ∷ (payload ++ rest))
      ≡ some (frame_of b1 b2 payload, rest)
unfolding read_client_frame
read-sized b1 b2 s0 s1 s2 s3 payload rest e = ground (
  arith,
  length-append payload rest,
  take-append_length payload rest,
  drop-append_length payload rest,
)

read-framed :
    (b1 b2 : ℕ) (payload rest : List ℕ)
    → length payload < 2 ^ 32
    → read_client_frame (0x11 ∷ b1 ∷ b2 ∷ 0 ∷ (u32be (length payload) ++ (payload ++ rest)))
      ≡ some (frame_of b1 b2 payload, rest)
unfolding u32be
read-framed b1 b2 payload rest fits =
    read-sized b1 b2 _ _ _ _ payload rest (omega (arith, from_be_bytes-u32be (length payload)))

-- An audio frame whose samples fit the size field is read back: the type of an audio request, the
-- flag of the last packet exactly if it is the last, no serialization, no compression, and the
-- samples; what follows in the stream is left.
pub read-build_audio_only_request :
    (pcm_bytes rest : List ℕ) (last : Bool)
    → length pcm_bytes < 2 ^ 32
    → read_client_frame (build_audio_only_request pcm_bytes last ++ rest)
      ≡ some (
        record {
          message_type = 2;
          flags = if last then 2 else 0;
          serialization = 0;
          compression = 0;
          payload = pcm_bytes;
        },
        rest,
      )
unfolding build_audio_only_request build_header nibbles u32be
read-build_audio_only_request pcm_bytes rest true h =
    rw append_assoc (read-framed 0x22 0x00 pcm_bytes rest h)
read-build_audio_only_request pcm_bytes rest false h =
    rw append_assoc (read-framed 0x20 0x00 pcm_bytes rest h)

-- The first frame of a session is read back as a full client request, JSON, not compressed, and
-- its payload is the text in UTF-8, which decodes to the text.
pub read-build_full_client_request :
    (json : Text) (rest : List ℕ)
    → All IsScalar json
    → length (as_bytes json) < 2 ^ 32
    → (f : ClientFrame) × (read_client_frame (build_full_client_request json ++ rest)
        ≡ some (f, rest))
      × (f.message_type ≡ 1)
      × (f.flags ≡ 0)
      × (f.serialization ≡ 1)
      × (f.compression ≡ 0)
      × (from_utf8_lossy f.payload ≡ json)
unfolding build_full_client_request build_header nibbles u32be
read-build_full_client_request json rest s h = (
  frame_of 0x10 0x10 (as_bytes json),
  rw append_assoc (read-framed 0x10 0x10 (as_bytes json) rest h),
  refl,
  refl,
  refl,
  refl,
  from_utf8_lossy-as_bytes json s,
)
