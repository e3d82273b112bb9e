-- ===== src/Plugin/Socket.antt =====
-- The connection of IpcClient in src/ipc_client.cpp: the socket and the buffer, which the thread that
-- receives and the one that sends share. What the calls of the system give is a parameter, and what
-- is done is listed in order. A step is a round of `recvLoop` or a call of `sendJson` as a whole, or a
-- round with a call of `sendJson` while its `recv` waits.
pub mod Streams
mod Tests
use fcitx5_anytalk.Prelude.{
  ℕ, zero, suc, ◌+◌, ◌-◌, Bool, true, false, Option, none, some, List, [], ◌∷◌, ◌++◌, map, length,
  ◌==◌, if◌then◌else◌,
}
use fcitx5_anytalk.Plugin.Lines.{receive}

-- A descriptor is a number, and `none` the -1 of `sock_`.
pub record Conn : Type 0 where
  pub sock : Option ℕ
  pub recv_buffer : List ℕ

unfoldable pub unconnected : Conn
unconnected = record { sock = none; recv_buffer = [] }

pub data SocketAction : Type 0 where
  shuts_down : ℕ → SocketAction
  closes : ℕ → SocketAction
  sleeps : ℕ → SocketAction
  hands : List ℕ → SocketAction  -- a line to handleJsonMessage
  tells_idle : SocketAction  -- `on_status_(STATE_IDLE)`

-- What `socket` and `connect` give.
pub data Dial : Type 0 where
  no_socket : Dial
  refused : ℕ → Dial
  connected : ℕ → Dial

-- What `send` gives: a number of bytes, EINTR, or any other error.
pub data SendResult : Type 0 where
  sent : ℕ → SendResult
  interrupted : SendResult
  failed : SendResult

unfoldable pub close_socket_locked : Conn → Conn × List SocketAction
close_socket_locked conn = elim conn.sock [
  | none ↦ (record { sock = none; recv_buffer = [] }, [])
  | some fd ↦ (record { sock = none; recv_buffer = [] }, shuts_down fd ∷ closes fd ∷ [])
]

-- `if (sock_ == fd) closeSocketLocked();`.
unfoldable pub close_if : ℕ → Conn → Conn × List SocketAction
close_if fd conn = elim conn.sock [
  | none ↦ (conn, [])
  | some other ↦ if other == fd then close_socket_locked conn else (conn, [])
]

-- `connectSocket`, with what the other thread does between the two critical sections.
unfoldable pub connect_socket : Dial → (Conn → Conn) → Conn → Conn × List SocketAction
connect_socket dial between conn = elim conn.sock [
  | some fd ↦ (conn, [])
  | none ↦ elim dial [
    | no_socket ↦ (between conn, [])
    | refused fd ↦ (between conn, closes fd ∷ [])
    | connected fd ↦ elim (between conn).sock [
      | some other ↦ (between conn, closes fd ∷ [])
      | none ↦ (record { sock = some fd; recv_buffer = [] }, [])
    ]
  ]
]

-- The loop of `send_all` over the bytes that are left: whether all are sent, and the results of
-- `send` that are left. Results that end before count as a failure.
unfoldable pub send_all : List SendResult → ℕ → Bool × List SendResult
send_all results zero = (true, results)
send_all [] (suc n) = (false, [])
send_all (sent zero ∷ results) (suc n) = (false, results)
send_all (sent (suc k) ∷ results) (suc n) = send_all results (n - k)
send_all (interrupted ∷ results) (suc n) = send_all results (suc n)
send_all (failed ∷ results) (suc n) = (false, results)

-- The text, and then the newline.
unfoldable pub send_both : List SendResult → List ℕ → Bool
send_both results json =
    let (whole, results') = send_all results (length json) in
    let (ended, results'') = send_all results' 1 in if whole then ended else false

unfoldable pub send_json :
    Dial → (Conn → Conn) → List SendResult → List ℕ → Conn → Conn × List SocketAction
send_json dial between results json conn =
    let (conn, actions) = connect_socket dial between conn in
    elim conn.sock [
      | none ↦ (conn, actions)
      | some fd ↦
          let (conn', closing) = close_if fd conn in
          if send_both results json then (conn, actions) else (conn', actions ++ closing)
    ]

-- A round of `recvLoop`: `ensureConnected`, `receiveData` with the bytes of `recv` or `none`, and the
-- lines.
unfoldable pub receive_round :
    Dial → (Conn → Conn) → Option (List ℕ) → Conn → Conn × List SocketAction
receive_round dial between got conn =
    let (conn, actions) = connect_socket dial between conn in
    elim conn.sock [
      | none ↦ (conn, actions ++ (sleeps 200 ∷ []))
      | some fd ↦ elim got [
        | none ↦
            let (conn', closing) = close_if fd conn in
            (conn', actions ++ (closing ++ (tells_idle ∷ [])))
        | some bytes ↦
            let (lines, left) = receive conn.recv_buffer bytes in
            (record conn { recv_buffer = left }, actions ++ map hands lines)
      ]
    ]

-- A round in which a call of `sendJson` runs while `recv` waits on the socket, and `recv` then gives no
-- bytes: if the call has closed the socket, it is not closed again, and `idle` is told all the same.
unfoldable pub receive_cut : Dial → List SendResult → List ℕ → Conn → Conn × List SocketAction
receive_cut dial results json conn =
    let (conn, actions) = connect_socket dial (λ c. c) conn in
    elim conn.sock [
      | none ↦ (conn, actions ++ (sleeps 200 ∷ []))
      | some fd ↦
          let (conn, sending) = send_json no_socket (λ c. c) results json conn in
          let (conn, closing) = close_if fd conn in
          (conn, actions ++ (sending ++ (closing ++ (tells_idle ∷ []))))
    ]

-- A round, a call of `sendJson` with a text, or the one in the other, each with what the system gives.
pub data ClientStep : Type 0 where
  receives : Dial → Option (List ℕ) → ClientStep
  sends : Dial → List SendResult → List ℕ → ClientStep
  cuts : Dial → List SendResult → List ℕ → ClientStep

unfoldable pub client_step : ClientStep → Conn → Conn × List SocketAction
client_step (receives dial got) conn = receive_round dial (λ c. c) got conn
client_step (sends dial results json) conn = send_json dial (λ c. c) results json conn
client_step (cuts dial results json) conn = receive_cut dial results json conn

unfoldable pub client_run : List ClientStep → Conn → Conn × List SocketAction
client_run [] conn = (conn, [])
client_run (step ∷ steps) conn =
    let (conn', now) = client_step step conn in
    let (last, later) = client_run steps conn' in (last, now ++ later)
