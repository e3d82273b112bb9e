-- ===== src/Plugin/Messages/Fixed.antt =====
-- A json-c and a serde_json that agree. The line of a message is a
-- letter for its type and, for each character of its text, as many letters `a` as its code and a `b`.
use fcitx5_anytalk.Prelude.{
  ℕ, zero, suc, ◌+◌, ◌≡◌, refl, ◌∙◌, ap, Option, none, some, List, [], ◌∷◌, ◌==◌, if◌then◌else◌,
  arith,
}
use fcitx5_anytalk.Text.{Text, text, text_eq, is_empty}
use fcitx5_anytalk.Text.Utf8.{as_bytes, encode_char}
use fcitx5_anytalk.Ipc.Msg.{ServerMsg, status, partial, final, error}
use fcitx5_anytalk.Plugin.Lines.{find}
use fcitx5_anytalk.Plugin.Messages.{JsonC, c_str}
use fcitx5_anytalk.Plugin.Messages.Wire.{IsWire, kind_of, key_of, value_of}

abbrev repeat_a : ℕ → List ℕ → List ℕ
repeat_a zero rest = 98 ∷ rest
repeat_a (suc n) rest = 97 ∷ repeat_a n rest

abbrev escape : Text → List ℕ
escape [] = []
escape (c ∷ cs) = repeat_a c (escape cs)

abbrev unescape : ℕ → List ℕ → Text
unescape n [] = []
unescape n (b ∷ bytes) =
    let more = unescape (suc n) bytes in
    let next = unescape 0 bytes in if b == 97 then more else n ∷ next

unescape-repeat_a :
    (k n : ℕ) (rest : List ℕ) → unescape k (repeat_a n rest) ≡ (n + k) ∷ unescape 0 rest
unescape-repeat_a k zero rest = ap (λ (m : ℕ). m ∷ unescape 0 rest) (omega arith)
unescape-repeat_a k (suc n) rest =
    unescape-repeat_a (suc k) n rest ∙ ap (λ (m : ℕ). m ∷ unescape 0 rest) (omega arith)

unescape-escape : (t : Text) → unescape 0 (escape t) ≡ t
unescape-escape [] = refl
unescape-escape (c ∷ cs) = unescape-repeat_a 0 c (escape cs) ∙ ground (arith, unescape-escape cs)

abbrev letter : ServerMsg → ℕ
letter (status s) = 115
letter (partial t) = 112
letter (final t) = 102
letter (error m) = 101

abbrev line_of : ServerMsg → Text
line_of msg = letter msg ∷ escape (value_of msg)

abbrev pub to_line : ServerMsg → Option Text
to_line msg = some (line_of msg)

-- The bytes of a line are its characters, and end neither a line nor a C string.
abbrev Plain : List ℕ → Type 0
Plain bytes = (as_bytes bytes ≡ bytes) × (c_str bytes ≡ bytes) × (find 0x0a bytes ≡ none)

repeat_a-Plain : (n : ℕ) (rest : List ℕ) → Plain rest → Plain (repeat_a n rest)
unfolding as_bytes encode_char c_str find
repeat_a-Plain zero rest (bytes, whole, one) =
    (ap (λ (r : List ℕ). 98 ∷ r) bytes, ap (λ (r : List ℕ). 98 ∷ r) whole, rw one refl)
repeat_a-Plain (suc n) rest h =
    let (bytes, whole, one) = repeat_a-Plain n rest h in
    (ap (λ (r : List ℕ). 97 ∷ r) bytes, ap (λ (r : List ℕ). 97 ∷ r) whole, rw one refl)

escape-Plain : (t : Text) → Plain (escape t)
escape-Plain [] = unfold as_bytes encode_char c_str find in (refl, refl, refl)
escape-Plain (c ∷ cs) = repeat_a-Plain c (escape cs) (escape-Plain cs)

line_of-Plain : (msg : ServerMsg) → Plain (line_of msg)
unfolding as_bytes encode_char c_str find
line_of-Plain (status t) =
    let (bytes, whole, one) = escape-Plain t in
    (ap (λ (r : List ℕ). 115 ∷ r) bytes, ap (λ (r : List ℕ). 115 ∷ r) whole, rw one refl)
line_of-Plain (partial t) =
    let (bytes, whole, one) = escape-Plain t in
    (ap (λ (r : List ℕ). 112 ∷ r) bytes, ap (λ (r : List ℕ). 112 ∷ r) whole, rw one refl)
line_of-Plain (final t) =
    let (bytes, whole, one) = escape-Plain t in
    (ap (λ (r : List ℕ). 102 ∷ r) bytes, ap (λ (r : List ℕ). 102 ∷ r) whole, rw one refl)
line_of-Plain (error t) =
    let (bytes, whole, one) = escape-Plain t in
    (ap (λ (r : List ℕ). 101 ∷ r) bytes, ap (λ (r : List ℕ). 101 ∷ r) whole, rw one refl)

-- An object of json-c: that of a message, or a string.
pub data Value : Type 0 where
  object : ServerMsg → Value
  string : List ℕ → Value

abbrev parse_line : List ℕ → Option Value
parse_line [] = none
parse_line (b ∷ bytes) =
    let t = unescape 0 bytes in
    if b == 115
    then some (object (status t))
    else if b == 112
    then some (object (partial t))
    else if b == 102
    then some (object (final t))
    else some (object (error t))

abbrev get : Value → List ℕ → Option Value
get (string t) key = none
get (object msg) key =
    if text_eq key (text "type")
    then some (string (kind_of msg))
    else if text_eq key (key_of msg)
    then some (string (as_bytes (value_of msg)))
    else none

abbrev string_of : Value → Option (List ℕ)
string_of (object msg) = none
string_of (string t) = some t

abbrev pub agreed : JsonC
agreed = record { Object = Value; parse = parse_line; get_ex = get; get_string = string_of }

parse-line_of : (msg : ServerMsg) → parse_line (line_of msg) ≡ some (object msg)
parse-line_of (status t) = rw (unescape-escape t) refl
parse-line_of (partial t) = rw (unescape-escape t) refl
parse-line_of (final t) = rw (unescape-escape t) refl
parse-line_of (error t) = rw (unescape-escape t) refl

get-key_of :
    (msg : ServerMsg) → get (object msg) (key_of msg) ≡ some (string (as_bytes (value_of msg)))
unfolding text_eq
get-key_of (status t) = refl
get-key_of (partial t) = refl
get-key_of (final t) = refl
get-key_of (error t) = refl

pub agreed-Wire : IsWire agreed to_line
agreed-Wire = record {
  line = line_of;
  writes = λ msg. refl;
  one_line = λ msg. ap (find 0x0a) ((line_of-Plain msg).0) ∙ (line_of-Plain msg).2;
  some_bytes = λ msg. ap is_empty ((line_of-Plain msg).0);
  object = object;
  reads = λ msg.
      ap (λ (b : List ℕ). parse_line (c_str b)) ((line_of-Plain msg).0)
      ∙ ap parse_line ((line_of-Plain msg).1)
      ∙ parse-line_of msg;
  type_of = λ msg. string (kind_of msg);
  has_type = λ msg. unfold text_eq in refl;
  type_string = λ msg. refl;
  member = λ msg. string (as_bytes (value_of msg));
  has_member = get-key_of;
  member_string = λ msg. refl;
}
