-- ===== src/Text/Utf8.antt =====
-- UTF-8 both ways: `str::as_bytes`, and `String::from_utf8_lossy`, which puts U+FFFD for each
-- maximal prefix of an ill-formed sequence.
use fcitx5_anytalk.Prelude.{
  ℕ, ◌+◌, ◌*◌, ◌/◌, ◌%◌, ◌-◌, ◌<◌, ◌≡◌, refl, sym, ap, ◌∙◌, List, [], ◌∷◌, ◌++◌, ltb, leb, ◌==◌,
  ◌&&◌, append_assoc, append-nil, if◌then◌else◌, arith, All, All-append, length, length-append,
}
use fcitx5_anytalk.Text.{Text, IsScalar, len_utf8, byte_len}

abbrev pub IsByte : ℕ → Type 0
IsByte b = b < 256

unfoldable pub encode_char : ℕ → List ℕ
encode_char c =
    if ltb c 0x80
    then c ∷ []
    else if ltb c 0x800
    then (0xc0 + c / 64) ∷ (0x80 + c % 64) ∷ []
    else if ltb c 0x10000
    then (0xe0 + c / 4096) ∷ (0x80 + c / 64 % 64) ∷ (0x80 + c % 64) ∷ []
    else (0xf0 + c / 262144) ∷ (0x80 + c / 4096 % 64) ∷ (0x80 + c / 64 % 64) ∷ (0x80 + c % 64) ∷ []

unfoldable pub as_bytes : Text → List ℕ
unfolding encode_char
as_bytes [] = []
as_bytes (c ∷ cs) = encode_char c ++ as_bytes cs

-- Between characters, or in one: the bytes that it still wants, the range of the next of them
-- and the bits read.
pub data Decoder : Type 0 where
  start : Decoder
  more : ℕ → ℕ → ℕ → ℕ → Decoder

abbrev pub replacement : ℕ
replacement = 0xfffd

unfoldable pub lead_byte : ℕ → List ℕ × Decoder
lead_byte b =
    if ltb b 0x80
    then (b ∷ [], start)
    else if leb 0xc2 b && leb b 0xdf
    then ([], more 1 0x80 0xbf (b - 0xc0))
    else if b == 0xe0
    then ([], more 2 0xa0 0xbf 0)
    else if b == 0xed
    then ([], more 2 0x80 0x9f 13)
    else if leb 0xe1 b && leb b 0xef
    then ([], more 2 0x80 0xbf (b - 0xe0))
    else if b == 0xf0
    then ([], more 3 0x90 0xbf 0)
    else if leb 0xf1 b && leb b 0xf3
    then ([], more 3 0x80 0xbf (b - 0xf0))
    else if b == 0xf4
    then ([], more 3 0x80 0x8f 4)
    else (replacement ∷ [], start)

-- A byte out of range ends the character as ill-formed, and begins the next.
unfoldable pub decode_byte : Decoder → ℕ → List ℕ × Decoder
unfolding lead_byte
decode_byte start b = lead_byte b
decode_byte (more n lo hi bits) b =
    if leb lo b && leb b hi
    then (if n == 1
        then ((bits * 64 + (b - 0x80)) ∷ [], start)
        else ([], more (n - 1) 0x80 0xbf (bits * 64 + (b - 0x80))))
    else (replacement ∷ (lead_byte b).0, (lead_byte b).1)

unfoldable pub decode : Decoder → List ℕ → Text
decode start [] = []
decode (more n lo hi bits) [] = replacement ∷ []
decode d (b ∷ bs) = (decode_byte d b).0 ++ decode (decode_byte d b).1 bs

unfoldable pub from_utf8_lossy : List ℕ → Text
from_utf8_lossy = decode start

decode-encode_char :
    (c : ℕ) (rest : List ℕ)
    → IsScalar c
    → decode start (encode_char c ++ rest) ≡ c ∷ decode start rest
unfolding decode decode_byte encode_char
decode-encode_char c rest h = ground arith

decode-as_bytes :
    (t : Text) (rest : List ℕ)
    → All IsScalar t
    → decode start (as_bytes t ++ rest) ≡ t ++ decode start rest
unfolding as_bytes
decode-as_bytes [] rest h = refl
decode-as_bytes (c ∷ cs) rest h =
    rw append_assoc (
      decode-encode_char c (as_bytes cs ++ rest) h.0
      ∙ ap (λ t. c ∷ t) (decode-as_bytes cs rest h.1))

-- A text comes back from its bytes.
pub from_utf8_lossy-as_bytes : (t : Text) → All IsScalar t → from_utf8_lossy (as_bytes t) ≡ t
unfolding from_utf8_lossy decode
from_utf8_lossy-as_bytes t h =
    ap (decode start) (sym (append-nil (as_bytes t))) ∙ decode-as_bytes t [] h ∙ append-nil t

encode_char-IsByte : (c : ℕ) → IsScalar c → All IsByte (encode_char c)
unfolding encode_char
encode_char-IsByte c h = ground arith

pub as_bytes-IsByte : (t : Text) → All IsScalar t → All IsByte (as_bytes t)
unfolding as_bytes
as_bytes-IsByte [] h = tt
as_bytes-IsByte (c ∷ cs) h =
    All-append IsByte (encode_char c) (as_bytes cs) (encode_char-IsByte c h.0)
      (as_bytes-IsByte cs h.1)

length-encode_char : (c : ℕ) → length (encode_char c) ≡ len_utf8 c
unfolding encode_char len_utf8
length-encode_char c = ground arith

-- `s.as_bytes().len()` is `s.len()`.
pub length-as_bytes : (t : Text) → length (as_bytes t) ≡ byte_len t
unfolding as_bytes byte_len
length-as_bytes [] = refl
length-as_bytes (c ∷ cs) =
    rw length-append (omega (arith, length-encode_char c, length-as_bytes cs))
