-- ===== src/Protocol/Tests.antt =====
-- The tests of protocol.rs, and the theorems at concrete inputs.
use fcitx5_anytalk.Prelude.{◌≡◌, refl, [], ◌∷◌, ◌++◌, some, none, true, arith, inl, Option}
use fcitx5_anytalk.Text.{Text, text}
use fcitx5_anytalk.Text.Utf8.{as_bytes, from_utf8_lossy, decode}
use fcitx5_anytalk.Protocol.{
  Kind, unknown, response, ParsedServerMessage, build_header, nibbles, u32be,
  build_full_client_request, build_audio_only_request, msg_full_client_request, flag_no_sequence,
  serialization_json, compression_none, parse_server_message, unknown_message, parse_response,
  u32_at, slice,
}
use fcitx5_anytalk.Protocol.Format.{
  ServerFrame, frame_bytes, IsFrame, response_of, unnumbered, parse-response_frames,
}
use fcitx5_anytalk.Protocol.Sound.{Reading, parse-Reading}
use fcitx5_anytalk.Protocol.Client.{
  ClientFrame, read_client_frame, read-build_audio_only_request, read-build_full_client_request,
}

build_header_test :
    build_header msg_full_client_request flag_no_sequence serialization_json compression_none
    ≡ 0x11 ∷ 0x10 ∷ 0x10 ∷ 0x00 ∷ []
unfolding build_header nibbles
build_header_test = refl

abbrev test_json : Text
test_json = text "{\"test\": \"value\"}"

full_client_request_test :
    build_full_client_request test_json ≡ 0x11 ∷ 0x10 ∷ 0x10 ∷ 0x00 ∷ 0 ∷ 0 ∷ 0 ∷ 17 ∷ test_json
unfolding build_full_client_request build_header nibbles u32be as_bytes
full_client_request_test = refl

audio_last_test :
    build_audio_only_request (1 ∷ 2 ∷ 3 ∷ 4 ∷ []) true
    ≡ 0x11 ∷ 0x22 ∷ 0x00 ∷ 0x00 ∷ 0 ∷ 0 ∷ 0 ∷ 4 ∷ 1 ∷ 2 ∷ 3 ∷ 4 ∷ []
unfolding build_audio_only_request build_header nibbles u32be
audio_last_test = refl

abbrev kind_of : Option ParsedServerMessage → Option Kind
kind_of none = none
kind_of (some m) = some m.kind

too_short_test : kind_of (parse_server_message (0x11 ∷ 0x90 ∷ 0x10 ∷ [])) ≡ some unknown
unfolding parse_server_message
too_short_test = refl

invalid_version_test :
    kind_of (parse_server_message (0x21 ∷ 0x90 ∷ 0x10 ∷ 0x00 ∷ [])) ≡ some unknown
unfolding parse_server_message
invalid_version_test = refl

abbrev result_frame : ServerFrame
result_frame = record {
  message_type = 9;
  flags = 3;
  b2 = 0x10;
  b3 = 0;
  w0 = 0;
  w1 = 0;
  w2 = 0;
  w3 = 7;
  payload = text "{}";
  rest = 0xff ∷ [];
}

abbrev error_frame : ServerFrame
error_frame = record result_frame { message_type = 15; payload = text "bad" }

result_frame-IsFrame : IsFrame result_frame
result_frame-IsFrame = omega arith

error_frame-IsFrame : IsFrame error_frame
error_frame-IsFrame = omega arith

response_test : kind_of (parse_server_message (frame_bytes result_frame)) ≡ some response
unfolding parse_server_message parse_response u32be u32_at slice from_utf8_lossy decode
response_test = refl

parse-response_frames_example :
    (parse_server_message (frame_bytes result_frame) ≡ some (response_of result_frame))
    × (parse_server_message (unnumbered result_frame (text "{\"a\":1}"))
        ≡ some (unknown_message result_frame.flags))
parse-response_frames_example =
    parse-response_frames result_frame 0x22 0x61 0x22 (text ":1}") result_frame-IsFrame refl
      (omega arith)

parse-Reading_example :
    (m : ParsedServerMessage) × (parse_server_message (0x11 ∷ 0x90 ∷ 0x10 ∷ 0 ∷ 5 ∷ []) ≡ some m)
    × Reading (0x11 ∷ 0x90 ∷ 0x10 ∷ 0 ∷ 5 ∷ []) m
parse-Reading_example = parse-Reading (0x11 ∷ 0x90 ∷ 0x10 ∷ 0 ∷ 5 ∷ []) (omega arith)

read-build_audio_only_request_example :
    read_client_frame (build_audio_only_request (1 ∷ 2 ∷ []) true ++ (9 ∷ []))
    ≡ some (
      record {
        message_type = 2;
        flags = 2;
        serialization = 0;
        compression = 0;
        payload = 1 ∷ 2 ∷ [];
      },
      9 ∷ [],
    )
read-build_audio_only_request_example =
    read-build_audio_only_request (1 ∷ 2 ∷ []) (9 ∷ []) true (omega arith)

-- One character of three bytes.
read-build_full_client_request_example :
    (f : ClientFrame) × (read_client_frame (build_full_client_request (0x4e2d ∷ []) ++ (9 ∷ []))
      ≡ some (f, 9 ∷ []))
    × (f.message_type ≡ 1)
    × (f.flags ≡ 0)
    × (f.serialization ≡ 1)
    × (f.compression ≡ 0)
    × (from_utf8_lossy f.payload ≡ 0x4e2d ∷ [])
unfolding as_bytes
read-build_full_client_request_example =
    read-build_full_client_request (0x4e2d ∷ []) (9 ∷ []) (inl (omega arith), tt) (omega arith)
