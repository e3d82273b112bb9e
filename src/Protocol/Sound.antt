-- ===== src/Protocol/Sound.antt =====
-- The parser on every input: it does not panic, and what it reads is a documented frame.
use fcitx5_anytalk.Prelude.{
  ℕ, ◌+◌, ◌*◌, ◌/◌, ◌%◌, ◌≤◌, ◌<◌, ◌≡◌, refl, ◌∙◌, ◌≢◌, inl, inr, List, ◌∷◌, some, Bool-cases,
  arith, ltb, ◌==◌, length, take, drop, All, take-append-drop, length-take, if◌then◌else◌,
  ℕ_discrete, Option,
}
use fcitx5_anytalk.Text.Utf8.{IsByte}
use fcitx5_anytalk.Protocol.{
  ParsedServerMessage, msg_full_server_response, msg_error_response, from_be_bytes, unknown_message,
  parse_response, parse_error, parse_server_message,
}
use fcitx5_anytalk.Protocol.Bits.{low_nibble, high_nibble, from_be_bytes-lt, u32be-from_be_bytes}
use fcitx5_anytalk.Protocol.Format.{
  ServerFrame, frame_bytes, IsFrame, response_of, error_of, twelve, parse_response-twelve,
  parse_error-twelve, parse-header,
}

-- What a message says of the input that it was read from.
pub data Reading (bytes : List ℕ) (m : ParsedServerMessage) : Type 0 where
  other : (flags : ℕ) → m ≡ unknown_message flags → Reading bytes m
  responds :
      (f : ServerFrame)
      → IsFrame f
      → f.message_type ≡ msg_full_server_response
      → bytes ≡ frame_bytes f
      → m ≡ response_of f
      → Reading bytes m
  fails :
      (f : ServerFrame)
      → IsFrame f
      → f.message_type ≡ msg_error_response
      → bytes ≡ frame_bytes f
      → m ≡ error_of f
      → Reading bytes m

abbrev Reads : List ℕ → Option ParsedServerMessage → Type 0
Reads bytes r = (m : ParsedServerMessage) × (r ≡ some m) × Reading bytes m

-- An input of twelve bytes or more with a good header, as a frame.
module _ (t flags b2 b3 b4 b5 b6 b7 b8 b9 b10 b11 : ℕ) (tail : List ℕ) where
  abbrev input : List ℕ
  input = twelve 0x11 (t * 16 + flags) b2 b3 b4 b5 b6 b7 b8 b9 b10 b11 tail

  abbrev size : ℕ
  size = from_be_bytes b8 b9 b10 b11

  abbrev framed : ServerFrame
  framed = record {
    message_type = t;
    flags = flags;
    b2 = b2;
    b3 = b3;
    w0 = b4;
    w1 = b5;
    w2 = b6;
    w3 = b7;
    payload = take size tail;
    rest = drop size tail;
  }

  module _ (h : All IsByte input) (fits : size ≤ length tail) where
    length-payload : length (take size tail) ≡ size
    length-payload = omega (arith, length-take size tail)

    input-frame_bytes : input ≡ frame_bytes framed
    input-frame_bytes =
        rw
          (
            length-payload,
            u32be-from_be_bytes b8 b9 b10 b11 (omega arith) (omega arith) (omega arith)
                (omega arith),
            take-append-drop,
          )
          refl

    framed-IsFrame : t < 16 → flags < 16 → IsFrame framed
    framed-IsFrame ht hf = record {
      type_fits = ht;
      flags_fit = hf;
      payload_fits = omega (arith, length-payload, from_be_bytes-lt b8 b9 b10 b11);
    }

  response-Reads :
      All IsByte input
      → t ≡ msg_full_server_response
      → flags < 16
      → Reads input (parse_response input flags)
  response-Reads h e hf = elim (Bool-cases (ltb (length tail) size)) [
    | inl short ↦ (
      unknown_message flags,
      parse_response-twelve _ _ _ _ _ _ _ _ _ _ _ _ tail flags size refl ∙ rw short,
      other flags refl,
    )
    | inr whole ↦ (
      response_of framed,
      parse_response-twelve _ _ _ _ _ _ _ _ _ _ _ _ tail flags size refl ∙ rw whole,
      responds framed (framed-IsFrame h (ground arith) (omega arith) hf) e
          (input-frame_bytes h (ground arith)) refl,
    )
  ]

  error-Reads :
      All IsByte input → t ≡ msg_error_response → flags < 16 → Reads input (parse_error input flags)
  error-Reads h e hf = elim (Bool-cases (ltb (length tail) size)) [
    | inl short ↦ (
      unknown_message flags,
      parse_error-twelve _ _ _ _ _ _ _ _ _ _ _ _ tail flags size refl ∙ rw short,
      other flags refl,
    )
    | inr whole ↦ (
      error_of framed,
      parse_error-twelve _ _ _ _ _ _ _ _ _ _ _ _ tail flags size refl ∙ rw whole,
      fails framed (framed-IsFrame h (ground arith) (omega arith) hf) e
          (input-frame_bytes h (ground arith)) refl,
    )
  ]

parse_response-short :
    (bytes : List ℕ) (flags : ℕ)
    → length bytes < 12
    → parse_response bytes flags ≡ some (unknown_message flags)
unfolding parse_response
parse_response-short bytes flags h = ground arith

parse_error-short :
    (bytes : List ℕ) (flags : ℕ)
    → length bytes < 12
    → parse_error bytes flags ≡ some (unknown_message flags)
unfolding parse_error
parse_error-short bytes flags h = ground arith

unknown-Reads :
    (bytes : List ℕ) (flags : ℕ) (r : Option ParsedServerMessage)
    → r ≡ some (unknown_message flags)
    → Reads bytes r
unknown-Reads bytes flags r e = (unknown_message flags, e, other flags refl)

-- The two branches, whatever follows the header.
module _ (t flags b2 b3 : ℕ) (hf : flags < 16) where
  branch_response :
      (tail : List ℕ)
      → let bytes = 0x11 ∷ (t * 16 + flags) ∷ b2 ∷ b3 ∷ tail in
        All IsByte bytes → t ≡ msg_full_server_response → Reads bytes (parse_response bytes flags)
  branch_response (b4 ∷ b5 ∷ b6 ∷ b7 ∷ b8 ∷ b9 ∷ b10 ∷ b11 ∷ tail) h e =
      response-Reads t flags b2 b3 b4 b5 b6 b7 b8 b9 b10 b11 tail h e hf
  branch_response _ h e = unknown-Reads _ flags _ (parse_response-short _ flags (omega arith))

  branch_error :
      (tail : List ℕ)
      → let bytes = 0x11 ∷ (t * 16 + flags) ∷ b2 ∷ b3 ∷ tail in
        All IsByte bytes → t ≡ msg_error_response → Reads bytes (parse_error bytes flags)
  branch_error (b4 ∷ b5 ∷ b6 ∷ b7 ∷ b8 ∷ b9 ∷ b10 ∷ b11 ∷ tail) h e =
      error-Reads t flags b2 b3 b4 b5 b6 b7 b8 b9 b10 b11 tail h e hf
  branch_error _ h e = unknown-Reads _ flags _ (parse_error-short _ flags (omega arith))

  parse-nibbles :
      (tail : List ℕ)
      → t < 16
      → let bytes = 0x11 ∷ (t * 16 + flags) ∷ b2 ∷ b3 ∷ tail in
        parse_server_message bytes ≡ (
          if t == msg_full_server_response
          then parse_response bytes flags
          else if t == msg_error_response
          then parse_error bytes flags
          else some (unknown_message flags))
  parse-nibbles tail ht =
      parse-header (t * 16 + flags) b2 b3 tail (omega arith) ∙ rw (quotient, remainder)
    where
      quotient : (t * 16 + flags) / 16 ≡ t
      quotient = omega arith

      remainder : (t * 16 + flags) % 16 ≡ flags
      remainder = omega arith

  branch-Reads :
      (tail : List ℕ)
      → t < 16
      → let bytes = 0x11 ∷ (t * 16 + flags) ∷ b2 ∷ b3 ∷ tail in
        All IsByte bytes → Reads bytes (parse_server_message bytes)
  branch-Reads tail ht h = elim (Bool-cases (t == msg_full_server_response)) [
    | inl nine ↦ rw (parse-nibbles tail ht, nine) (branch_response tail h (ground arith))
    | inr more ↦ elim (Bool-cases (t == msg_error_response)) [
      | inl fifteen ↦ rw (parse-nibbles tail ht, more, fifteen) (branch_error tail h (ground arith))
      | inr none_known ↦ unknown-Reads _ flags _ (parse-nibbles tail ht ∙ rw (more, none_known))
    ]
  ]

parse-bad_header :
    (b0 b1 b2 b3 : ℕ) (tail : List ℕ)
    → b0 < 256
    → b0 ≢ 0x11
    → parse_server_message (b0 ∷ b1 ∷ b2 ∷ b3 ∷ tail) ≡ some (unknown_message 0)
unfolding parse_server_message
parse-bad_header b0 b1 b2 b3 tail h e = ground (arith, low_nibble b0, high_nibble b0)

-- On every input of bytes the parser returns a message. It is of kind "unknown" with no text, code
-- or error text, or the input is a documented frame with the fields that the message holds.
pub parse-Reading :
    (bytes : List ℕ)
    → All IsByte bytes
    → (m : ParsedServerMessage) × (parse_server_message bytes ≡ some m) × Reading bytes m
parse-Reading (b0 ∷ b1 ∷ b2 ∷ b3 ∷ tail) h = elim (ℕ_discrete b0 0x11) [
  | yes e ↦
      rw (e, split_b1)
        (branch-Reads (b1 / 16) (b1 % 16) b2 b3 (omega arith) tail (omega arith)
          (omega arith, (omega arith, h.1.1)))
  | no e ↦ unknown-Reads _ 0 _ (parse-bad_header b0 b1 b2 b3 tail h.0 e)
]
  where
    split_b1 : b1 ≡ b1 / 16 * 16 + b1 % 16
    split_b1 = omega arith
parse-Reading _ h = unknown-Reads _ 0 _ (unfold parse_server_message in refl)
