-- ===== src/Protocol/Format.antt =====
-- The frames of the service as its documentation draws them (doubao语音-api.md), and what the parser
-- makes of them. The word after the header is a sequence number or an error code.
use fcitx5_anytalk.Prelude.{
  ℕ, ◌+◌, ◌-◌, ◌*◌, ◌/◌, ◌%◌, ◌^◌, ◌≤◌, ◌<◌, ◌≡◌, refl, List, ◌∷◌, ◌++◌, some, none, true, false,
  arith, ltb, ◌==◌, ◌∙◌, if◌then◌else◌, length, take, length-append, take-append_length,
}
use fcitx5_anytalk.Text.Utf8.{from_utf8_lossy}
use fcitx5_anytalk.Protocol.{
  ParsedServerMessage, response, error, msg_full_server_response, msg_error_response, u32be,
  from_be_bytes, slice, u32_at, unknown_message, parse_response, parse_error, parse_server_message,
}
use fcitx5_anytalk.Protocol.Bits.{low_nibble, high_nibble, from_be_bytes-u32be}

-- The fields of a frame: the nibbles of type and flags, the two bytes that end the header, the
-- word, the payload, and bytes that follow it.
pub record ServerFrame : Type 0 where
  pub message_type : ℕ
  pub flags : ℕ
  pub b2 : ℕ
  pub b3 : ℕ
  pub w0 : ℕ
  pub w1 : ℕ
  pub w2 : ℕ
  pub w3 : ℕ
  pub payload : List ℕ
  pub rest : List ℕ

abbrev pub frame_bytes : ServerFrame → List ℕ
frame_bytes f =
    0x11
    ∷ (f.message_type * 16 + f.flags)
    ∷ f.b2
    ∷ f.b3
    ∷ f.w0
    ∷ f.w1
    ∷ f.w2
    ∷ f.w3
    ∷ (u32be (length f.payload) ++ (f.payload ++ f.rest))

-- The fields fit their widths.
pub record IsFrame (f : ServerFrame) : Type 0 where
  pub type_fits : f.message_type < 16
  pub flags_fit : f.flags < 16
  pub payload_fits : length f.payload < 2 ^ 32

abbrev pub response_of : ServerFrame → ParsedServerMessage
response_of f = record {
  kind = response;
  flags = f.flags;
  json_text = some (from_utf8_lossy f.payload);
  error_code = none;
  error_msg = none;
}

abbrev pub error_of : ServerFrame → ParsedServerMessage
error_of f = record {
  kind = error;
  flags = f.flags;
  json_text = none;
  error_code = some (from_be_bytes f.w0 f.w1 f.w2 f.w3);
  error_msg = some (from_utf8_lossy f.payload);
}

sub_twelve : (n : ℕ) → 12 + n - 12 ≡ n
sub_twelve n = omega arith

-- The parser on an input of twelve bytes or more.
module _ (b0 b1 b2 b3 b4 b5 b6 b7 b8 b9 b10 b11 : ℕ) (tail : List ℕ) where
  abbrev pub twelve : List ℕ
  twelve = b0 ∷ b1 ∷ b2 ∷ b3 ∷ b4 ∷ b5 ∷ b6 ∷ b7 ∷ b8 ∷ b9 ∷ b10 ∷ b11 ∷ tail

  slice-twelve : (n : ℕ) → n ≤ length tail → slice twelve 12 (12 + n) ≡ some (take n tail)
  unfolding slice
  slice-twelve n h = ground (arith, sub_twelve n)

  u32_at-four : u32_at twelve 4 ≡ some (from_be_bytes b4 b5 b6 b7)
  unfolding u32_at
  u32_at-four = refl

  u32_at-eight : u32_at twelve 8 ≡ some (from_be_bytes b8 b9 b10 b11)
  unfolding u32_at
  u32_at-eight = refl

  pub parse_response-twelve :
      (flags n : ℕ)
      → from_be_bytes b8 b9 b10 b11 ≡ n
      → parse_response twelve flags
        ≡ some (
            if ltb (length tail) n then unknown_message flags else record {
              kind = response;
              flags = flags;
              json_text = some (from_utf8_lossy (take n tail));
              error_code = none;
              error_msg = none;
            })
  unfolding parse_response
  parse_response-twelve flags n e = ground (arith, u32_at-eight, slice-twelve n)

  pub parse_error-twelve :
      (flags n : ℕ)
      → from_be_bytes b8 b9 b10 b11 ≡ n
      → parse_error twelve flags
        ≡ some (
            if ltb (length tail) n then unknown_message flags else record {
              kind = error;
              flags = flags;
              json_text = none;
              error_code = some (from_be_bytes b4 b5 b6 b7);
              error_msg = some (from_utf8_lossy (take n tail));
            })
  unfolding parse_error
  parse_error-twelve flags n e = ground (arith, u32_at-four, u32_at-eight, slice-twelve n)

-- A branch on a frame whose payload is all there.
payload_there : (f : ServerFrame) → ltb (length (f.payload ++ f.rest)) (length f.payload) ≡ false
payload_there f = ground (arith, length-append f.payload f.rest)

parse_response-frame :
    (f : ServerFrame) → IsFrame f → parse_response (frame_bytes f) f.flags ≡ some (response_of f)
unfolding u32be
parse_response-frame f h =
    parse_response-twelve _ _ _ _ _ _ _ _ _ _ _ _ (f.payload ++ f.rest) f.flags (length f.payload)
      (omega (arith, from_be_bytes-u32be (length f.payload), h))
    ∙ rw (payload_there f, take-append_length)

parse_error-frame :
    (f : ServerFrame) → IsFrame f → parse_error (frame_bytes f) f.flags ≡ some (error_of f)
unfolding u32be
parse_error-frame f h =
    parse_error-twelve _ _ _ _ _ _ _ _ _ _ _ _ (f.payload ++ f.rest) f.flags (length f.payload)
      (omega (arith, from_be_bytes-u32be (length f.payload), h))
    ∙ rw (payload_there f, take-append_length)

-- How the parser reads the header of an input of four bytes or more.
pub parse-header :
    (b1 b2 b3 : ℕ) (tail : List ℕ)
    → b1 < 256
    → let bytes = 0x11 ∷ b1 ∷ b2 ∷ b3 ∷ tail in
      parse_server_message bytes ≡ (
        if b1 / 16 == msg_full_server_response
        then parse_response bytes (b1 % 16)
        else if b1 / 16 == msg_error_response
        then parse_error bytes (b1 % 16)
        else some (unknown_message (b1 % 16)))
unfolding parse_server_message
parse-header b1 b2 b3 tail h = ground (arith, low_nibble b1, high_nibble b1)

frame_header :
    (f : ServerFrame) (t : ℕ)
    → IsFrame f
    → f.message_type ≡ t
    → ((f.message_type * 16 + f.flags) / 16 ≡ t) × ((f.message_type * 16 + f.flags) % 16 ≡ f.flags)
frame_header f t h e = omega arith

pub parse-response_frame :
    (f : ServerFrame)
    → IsFrame f
    → f.message_type ≡ msg_full_server_response
    → parse_server_message (frame_bytes f) ≡ some (response_of f)
parse-response_frame f h e =
    parse-header _ f.b2 f.b3 _ (omega arith)
    ∙ rw ((frame_header f 9 h e).0, (frame_header f 9 h e).1) (parse_response-frame f h)

-- The frame of a response without the word after the header, as the table of the flags in the
-- documentation has it where the flags are 0b0000 or 0b0010.
abbrev pub unnumbered : ServerFrame → List ℕ → List ℕ
unnumbered f payload =
    0x11 ∷ (f.message_type * 16 + f.flags) ∷ f.b2 ∷ f.b3 ∷ (u32be (length payload) ++ payload)

-- Less than 0x7b000000 bytes cannot be as long as a number that starts with the byte of `{`.
too_long : (p1 p2 p3 n : ℕ) → n < 0x7b000000 → ltb n (from_be_bytes 0x7b p1 p2 p3) ≡ true
unfolding from_be_bytes
too_long p1 p2 p3 n h = ground arith

-- A full server response with a word after the header, as the documentation draws the frame of a
-- response, is read as a response with its flags and its payload as text, whatever the flags, the
-- bytes that end the header, the word and the bytes behind the payload are. A response without the
-- word, as the table of the flags has it for the flags 0b0000 and 0b0010, whose payload starts with
-- `{`, has four bytes or more, and fewer than 0x7b000000 after the first four, is not recognized,
-- whatever its flags are: the length is looked for in the payload.
pub parse-response_frames :
    (f : ServerFrame) (p1 p2 p3 : ℕ) (tail : List ℕ)
    → IsFrame f
    → f.message_type ≡ msg_full_server_response
    → length tail < 0x7b000000
    → (parse_server_message (frame_bytes f) ≡ some (response_of f))
      × (parse_server_message (unnumbered f (0x7b ∷ p1 ∷ p2 ∷ p3 ∷ tail))
          ≡ some (unknown_message f.flags))
unfolding u32be
parse-response_frames f p1 p2 p3 tail h e fits = (
  parse-response_frame f h e,
  parse-header _ f.b2 f.b3 _ (omega arith)
      ∙ rw ((frame_header f 9 h e).0, (frame_header f 9 h e).1)
          (parse_response-twelve _ _ _ _ _ _ _ _ _ _ _ _ tail f.flags (from_be_bytes 0x7b p1 p2 p3)
              refl
            ∙ rw (too_long p1 p2 p3 (length tail) fits) refl),
)

-- An error message as documented is read as an error with its code and its text.
pub parse-error_frame :
    (f : ServerFrame)
    → IsFrame f
    → f.message_type ≡ msg_error_response
    → parse_server_message (frame_bytes f) ≡ some (error_of f)
parse-error_frame f h e =
    parse-header _ f.b2 f.b3 _ (omega arith)
    ∙ rw ((frame_header f 15 h e).0, (frame_header f 15 h e).1) (parse_error-frame f h)
