-- ===== src/Plugin/Socket/Streams.antt =====
-- Each connection is a stream of lines of its own: what the steps of the client come to.
pub mod Rounds
pub mod Kept
use fcitx5_anytalk.Prelude.{
  ℕ, Bool, true, false, Bool-cases, ◌≡◌, refl, sym, ◌∙◌, ap, inl, inr, Option, none, some, List, [],
  ◌∷◌, ◌++◌, map, arith, append_assoc, append-nil, map-append,
}
use fcitx5_anytalk.Plugin.Lines.{receive}
use fcitx5_anytalk.Plugin.Lines.Split.{split_lines, receive-lines, split_lines-append}
use fcitx5_anytalk.Plugin.Socket.{
  Conn, unconnected, SocketAction, shuts_down, closes, sleeps, hands, tells_idle, Dial, no_socket,
  refused, connected, SendResult, close_socket_locked, close_if, connect_socket, send_both,
  send_json, receive_round, ClientStep, receives, sends, cuts, client_step, client_run,
}

-- What reaches the callbacks.
abbrev pub deliveries : List SocketAction → List SocketAction
deliveries [] = []
deliveries (shuts_down fd ∷ actions) = deliveries actions
deliveries (closes fd ∷ actions) = deliveries actions
deliveries (sleeps ms ∷ actions) = deliveries actions
deliveries (hands line ∷ actions) = hands line ∷ deliveries actions
deliveries (tells_idle ∷ actions) = tells_idle ∷ deliveries actions

-- A client without a connection, or with one and all the bytes received on it.
abbrev pub Stream : Type 0
Stream = Option (List ℕ)

-- The lines of the bytes of a connection.
abbrev pub lines_of : Stream → List SocketAction
lines_of none = []
lines_of (some bytes) = map hands ((split_lines bytes).0)

-- A step begins with a connection if there is one or the dial succeeds.
abbrev pub dialed : Dial → Stream → Stream
dialed dial (some bytes) = some bytes
dialed no_socket none = none
dialed (refused fd) none = none
dialed (connected fd) none = some []

-- A step on a stream: the bytes are added to it, or it ends, and then its lines are known.
abbrev pub received : Option (List ℕ) → Stream → List SocketAction × Stream
received got none = ([], none)
received (some more) (some bytes) = ([], some (bytes ++ more))
received none (some bytes) = (lines_of (some bytes) ++ (tells_idle ∷ []), none)

abbrev pub written : Bool → Stream → List SocketAction × Stream
written whole none = ([], none)
written true (some bytes) = ([], some bytes)
written false (some bytes) = (lines_of (some bytes), none)

abbrev pub stream_step : ClientStep → Stream → List SocketAction × Stream
stream_step (receives dial got) st = received got (dialed dial st)
stream_step (sends dial results json) st = written (send_both results json) (dialed dial st)
stream_step (cuts dial results json) st = received none (dialed dial st)

-- The lines of each connection, all its bytes taken together, and the loss of each by the receiver.
abbrev pub streams : List ClientStep → Stream → List SocketAction
streams [] st = lines_of st
streams (step ∷ steps) st = let (ended, next) = stream_step step st in ended ++ streams steps next

-- The state of the client on a stream.
abbrev pub Matches : Stream → Conn → Type 0
Matches none conn = (conn.sock ≡ none) × (conn.recv_buffer ≡ [])
Matches (some bytes) conn =
    ((fd : ℕ) × (conn.sock ≡ some fd)) × (conn.recv_buffer ≡ (split_lines bytes).1)

pub deliveries-append :
    (xs ys : List SocketAction) → deliveries (xs ++ ys) ≡ deliveries xs ++ deliveries ys
deliveries-append [] ys = refl
deliveries-append (shuts_down fd ∷ xs) ys = deliveries-append xs ys
deliveries-append (closes fd ∷ xs) ys = deliveries-append xs ys
deliveries-append (sleeps ms ∷ xs) ys = deliveries-append xs ys
deliveries-append (hands line ∷ xs) ys =
    ap (λ (r : List SocketAction). hands line ∷ r) (deliveries-append xs ys)
deliveries-append (tells_idle ∷ xs) ys =
    ap (λ (r : List SocketAction). tells_idle ∷ r) (deliveries-append xs ys)

pub deliveries-hands : (lines : List (List ℕ)) → deliveries (map hands lines) ≡ map hands lines
deliveries-hands [] = refl
deliveries-hands (line ∷ lines) =
    ap (λ (r : List SocketAction). hands line ∷ r) (deliveries-hands lines)

-- What a step keeps: the deliveries so far on a stream and those of the step are those of streams
-- that ended and of the one that goes on.
abbrev pub Keeps : Stream → List SocketAction × Stream → Conn × List SocketAction → Type 0
Keeps st (ended, next) (conn, actions) =
    (lines_of st ++ deliveries actions ≡ ended ++ lines_of next) × Matches next conn
