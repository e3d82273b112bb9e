-- ===== src/Protocol.antt =====
-- anytalk-daemon/src/protocol.rs: the binary frames of the speech recognition service. A byte slice
-- is a list of numbers below 256, an index or a range out of bounds is a panic, `none`, and `usize`
-- has 64 bits, so that `12 + payload_size` cannot overflow.
pub mod Bits
pub mod Format
pub mod Sound
pub mod Client
mod Tests
use fcitx5_anytalk.Prelude.{
  ℕ, ◌+◌, ◌-◌, ◌*◌, ◌/◌, ◌%◌, ◌^◌, Bool, ◌||◌, not, List, [], ◌∷◌, ◌++◌, Option, none, some, ltb,
  ◌==◌, if◌then◌else◌, bit_and, bit_or, length, get_elem?, take, drop, ◌>>=◌,
}
use fcitx5_anytalk.Text.{Text}
use fcitx5_anytalk.Text.Utf8.{as_bytes, from_utf8_lossy}

abbrev pub proto_version : ℕ
proto_version = 0b0001

abbrev pub header_size_4b : ℕ
header_size_4b = 0b0001

abbrev pub msg_full_client_request : ℕ
msg_full_client_request = 0b0001

abbrev pub msg_audio_only_request : ℕ
msg_audio_only_request = 0b0010

abbrev pub msg_full_server_response : ℕ
msg_full_server_response = 0b1001

abbrev pub msg_error_response : ℕ
msg_error_response = 0b1111

abbrev pub flag_no_sequence : ℕ
flag_no_sequence = 0b0000

abbrev pub flag_last_no_sequence : ℕ
flag_last_no_sequence = 0b0010

abbrev pub serialization_json : ℕ
serialization_json = 0b0001

abbrev pub serialization_none : ℕ
serialization_none = 0b0000

abbrev pub compression_none : ℕ
compression_none = 0b0000

-- `x << 4` and `x >> 4` on a u8: the bits shifted out are lost.
abbrev shl4 : ℕ → ℕ
shl4 x = x * 16 % 256

abbrev shr4 : ℕ → ℕ
shr4 x = x / 16

-- `((hi & 0xF) << 4) | (lo & 0xF)`.
unfoldable pub nibbles : ℕ → ℕ → ℕ
nibbles hi lo = bit_or (shl4 (bit_and hi 0xf)) (bit_and lo 0xf)

unfoldable pub build_header : ℕ → ℕ → ℕ → ℕ → List ℕ
build_header message_type flags serialization compression =
    let b0 = nibbles proto_version header_size_4b in
    let b1 = nibbles message_type flags in
    let b2 = nibbles serialization compression in b0 ∷ b1 ∷ b2 ∷ 0x00 ∷ []

-- `(n as u32).to_be_bytes()`: a longer length is cut to 32 bits.
unfoldable pub u32be : ℕ → List ℕ
u32be n =
    let w = n % 2 ^ 32 in (w / 2 ^ 24) ∷ (w / 2 ^ 16 % 256) ∷ (w / 2 ^ 8 % 256) ∷ (w % 256) ∷ []

unfoldable pub build_full_client_request : Text → List ℕ
build_full_client_request payload_json_text =
    let payload = as_bytes payload_json_text in
    let header =
      build_header msg_full_client_request flag_no_sequence serialization_json compression_none in
    header ++ (u32be (length payload) ++ payload)

unfoldable pub build_audio_only_request : List ℕ → Bool → List ℕ
build_audio_only_request pcm_bytes last =
    let header =
      build_header msg_audio_only_request (if last then flag_last_no_sequence else flag_no_sequence)
        serialization_none compression_none in
    header ++ (u32be (length pcm_bytes) ++ pcm_bytes)

-- The three strings that the field `kind` takes.
pub data Kind : Type 0 where
  unknown response error : Kind

pub record ParsedServerMessage : Type 0 where
  pub kind : Kind
  pub flags : ℕ
  pub json_text : Option Text
  pub error_code : Option ℕ
  pub error_msg : Option Text

-- `u32::from_be_bytes`.
unfoldable pub from_be_bytes : ℕ → ℕ → ℕ → ℕ → ℕ
from_be_bytes a b c d = a * 2 ^ 24 + b * 2 ^ 16 + c * 2 ^ 8 + d

-- `&data[from..to]`.
unfoldable pub slice : List ℕ → ℕ → ℕ → Option (List ℕ)
slice bytes from to =
    if ltb to from || ltb (length bytes) to then none else some (take (to - from) (drop from bytes))

-- A message of no known kind, with the flags that were read.
unfoldable pub unknown_message : ℕ → ParsedServerMessage
unknown_message flags = record {
  kind = unknown;
  flags = flags;
  json_text = none;
  error_code = none;
  error_msg = none;
}

-- The big-endian number at four bytes from an index on.
unfoldable pub u32_at : List ℕ → ℕ → Option ℕ
unfolding from_be_bytes
u32_at bytes i = do
  a ← get_elem? bytes i
  b ← get_elem? bytes (i + 1)
  c ← get_elem? bytes (i + 2)
  d ← get_elem? bytes (i + 3)
  some (from_be_bytes a b c d)

-- The branch of a full server response.
unfoldable pub parse_response : List ℕ → ℕ → Option ParsedServerMessage
unfolding unknown_message
parse_response bytes flags = if ltb (length bytes) 12 then some (unknown_message flags) else do
  payload_size ← u32_at bytes 8
  if ltb (length bytes) (12 + payload_size) then some (unknown_message flags) else do
    payload ← slice bytes 12 (12 + payload_size)
    some (record {
      kind = response;
      flags = flags;
      json_text = some (from_utf8_lossy payload);
      error_code = none;
      error_msg = none;
    })

-- The branch of an error response.
unfoldable pub parse_error : List ℕ → ℕ → Option ParsedServerMessage
unfolding unknown_message
parse_error bytes flags = if ltb (length bytes) 12 then some (unknown_message flags) else do
  code ← u32_at bytes 4
  msg_size ← u32_at bytes 8
  if ltb (length bytes) (12 + msg_size) then some (unknown_message flags) else do
    msg ← slice bytes 12 (12 + msg_size)
    some (record {
      kind = error;
      flags = flags;
      json_text = none;
      error_code = some code;
      error_msg = some (from_utf8_lossy msg);
    })

unfoldable pub parse_server_message : List ℕ → Option ParsedServerMessage
unfolding unknown_message
parse_server_message bytes = if ltb (length bytes) 4 then some (unknown_message 0) else do
  b0 ← get_elem? bytes 0
  b1 ← get_elem? bytes 1
  b2 ← get_elem? bytes 2
  let version = bit_and (shr4 b0) 0xf
  let header_size_4 = bit_and b0 0xf
  if not (version == proto_version) || not (header_size_4 == header_size_4b)
      then some (unknown_message 0)
      else do
        let message_type = bit_and (shr4 b1) 0xf
        let flags = bit_and b1 0xf
        if message_type == msg_full_server_response
            then parse_response bytes flags
            else if message_type == msg_error_response
            then parse_error bytes flags
            else some (unknown_message flags)
