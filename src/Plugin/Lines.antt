-- ===== src/Plugin/Lines.antt =====
-- The receiving side of IpcClient in src/ipc_client.cpp. A std::string is a list of bytes; what a
-- line makes of the callbacks is in Plugin/Messages.
pub mod Split
use fcitx5_anytalk.Prelude.{
  ℕ, zero, suc, ◌+◌, Option, none, some, List, [], ◌∷◌, ◌++◌, length, take, drop, ◌==◌,
  if◌then◌else◌,
}

-- `s.find(c)`.
unfoldable pub find : ℕ → List ℕ → Option ℕ
find c [] = none
find c (b ∷ bytes) =
    if b == c then some 0 else elim (find c bytes) [ none ↦ none | some i ↦ some (suc i) ]

-- `processMessages`: the lines handed to `handleJsonMessage`, and what is left of `recv_buffer_`. A
-- round takes a byte at least, so as many rounds as there are bytes are enough.
unfoldable pub process_messages : ℕ → List ℕ → List (List ℕ) × List ℕ
process_messages zero buffer = ([], buffer)
process_messages (suc fuel) buffer = elim (find 0x0a buffer) [
  | none ↦ ([], buffer)
  | some i ↦
      let (lines, left) = process_messages fuel (drop (suc i) buffer) in
      (take i buffer ∷ lines, left)
]

-- `recv_buffer_.append(buf, n); processMessages();` of `recvLoop`.
unfoldable pub receive : List ℕ → List ℕ → List (List ℕ) × List ℕ
receive buffer chunk = let buffer = buffer ++ chunk in process_messages (length buffer) buffer

-- The rounds of `recvLoop` on what `recv` gives in a row.
unfoldable pub receive_all : List ℕ → List (List ℕ) → List (List ℕ) × List ℕ
receive_all buffer [] = ([], buffer)
receive_all buffer (chunk ∷ chunks) =
    let (lines, buffer') = receive buffer chunk in
    let (lines', left) = receive_all buffer' chunks in (lines ++ lines', left)
