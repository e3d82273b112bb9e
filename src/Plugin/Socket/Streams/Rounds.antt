-- ===== src/Plugin/Socket/Streams/Rounds.antt =====
-- A step in each of its cases.
use fcitx5_anytalk.Prelude.{
  ℕ, true, false, Bool-cases, Option-cases, inl, inr, ap, ◌∙◌, ◌≡◌, refl, Option, none, some, List,
  [], ◌∷◌, ◌++◌, map, arith,
}
use fcitx5_anytalk.Plugin.Lines.{receive}
use fcitx5_anytalk.Plugin.Socket.{
  Conn, unconnected, SocketAction, shuts_down, closes, sleeps, hands, tells_idle, Dial, no_socket,
  refused, connected, SendResult, close_socket_locked, close_if, connect_socket, send_both,
  send_json, receive_round, receive_cut,
}
use fcitx5_anytalk.Plugin.Socket.Streams.{deliveries, Stream, lines_of, dialed, Matches}

-- The connection that a step begins with.
pub dialed-Matches :
    (dial : Dial) (st : Stream) (conn : Conn)
    → Matches st conn
    → let next = connect_socket dial (λ c. c) conn in
      (deliveries (next.1) ≡ []) × Matches (dialed dial st) (next.0)
unfolding connect_socket
dialed-Matches dial (some bytes) conn ((fd, at), kept) =
    rw (at, connect_socket) (refl, ((fd, at), kept))
dialed-Matches no_socket none conn (off, empty) = rw (off, connect_socket) (refl, (off, empty))
dialed-Matches (refused fd) none conn (off, empty) = rw (off, connect_socket) (refl, (off, empty))
dialed-Matches (connected fd) none conn (off, empty) =
    rw (off, connect_socket) (rw off (refl, ((fd, refl), refl)))

pub lines_of-dialed : (dial : Dial) (st : Stream) → lines_of (dialed dial st) ≡ lines_of st
lines_of-dialed dial (some bytes) = refl
lines_of-dialed no_socket none = refl
lines_of-dialed (refused fd) none = refl
lines_of-dialed (connected fd) none = refl

close_if-same :
    (fd : ℕ) (conn : Conn)
    → conn.sock ≡ some fd
    → close_if fd conn ≡ (unconnected, shuts_down fd ∷ closes fd ∷ [])
unfolding close_if close_socket_locked unconnected
close_if-same fd conn at = ground (arith, at)

close_if-none : (fd : ℕ) → close_if fd unconnected ≡ (unconnected, [])
unfolding close_if unconnected
close_if-none fd = refl

module _ (dial : Dial) (conn : Conn) where
  abbrev pub next : Conn × List SocketAction
  next = connect_socket dial (λ c. c) conn

  pub round_off :
      (got : Option (List ℕ))
      → (next.0).sock ≡ none
      → receive_round dial (λ c. c) got conn ≡ (next.0, next.1 ++ (sleeps 200 ∷ []))
  unfolding receive_round
  round_off got off = ground (arith, off)

  pub round_lost :
      (fd : ℕ)
      → (next.0).sock ≡ some fd
      → receive_round dial (λ c. c) none conn
        ≡ (unconnected, next.1 ++ (shuts_down fd ∷ closes fd ∷ tells_idle ∷ []))
  unfolding receive_round
  round_lost fd at = ground (arith, at, close_if-same fd (next.0) at)

  pub round_got :
      (fd : ℕ) (bytes : List ℕ)
      → (next.0).sock ≡ some fd
      → let r = receive ((next.0).recv_buffer) bytes in
        receive_round dial (λ c. c) (some bytes) conn
        ≡ (record (next.0) { recv_buffer = r.1 }, next.1 ++ map hands (r.0))
  unfolding receive_round
  round_got fd bytes at = ground (arith, at)

  pub send_off :
      (results : List SendResult) (json : List ℕ)
      → (next.0).sock ≡ none
      → send_json dial (λ c. c) results json conn ≡ next
  unfolding send_json
  send_off results json off = ground (arith, off)

  pub send_whole :
      (fd : ℕ) (results : List SendResult) (json : List ℕ)
      → (next.0).sock ≡ some fd
      → send_both results json ≡ true
      → send_json dial (λ c. c) results json conn ≡ next
  unfolding send_json
  send_whole fd results json at whole = ground (arith, at, whole)

  pub send_broken :
      (fd : ℕ) (results : List SendResult) (json : List ℕ)
      → (next.0).sock ≡ some fd
      → send_both results json ≡ false
      → send_json dial (λ c. c) results json conn
        ≡ (unconnected, next.1 ++ (shuts_down fd ∷ closes fd ∷ []))
  unfolding send_json
  send_broken fd results json at broken = ground (arith, at, broken, close_if-same fd (next.0) at)

connected_already : (fd : ℕ) (conn : Conn) → conn.sock ≡ some fd → next no_socket conn ≡ (conn, [])
unfolding connect_socket
connected_already fd conn at = ground (arith, at)

-- Whichever of the two threads closes the socket, it is closed once and `idle` is told.
pub receive_cut_lem :
    (dial : Dial) (results : List SendResult) (json : List ℕ) (conn : Conn)
    → receive_cut dial results json conn ≡ receive_round dial (λ c. c) none conn
unfolding receive_cut
receive_cut_lem dial results json conn = elim (Option-cases ((next dial conn).0.sock)) [
  | inl off ↦ ground (arith, off, round_off dial conn none off)
  | inr (fd, at) ↦
      let c = (next dial conn).0 in
      let here = connected_already fd c at in
      let up : ((next no_socket c).0).sock ≡ some fd = ap (λ p. p.0.sock) here ∙ at in
      elim (Bool-cases (send_both results json)) [
        | inl whole ↦ ground (
          arith,
          at,
          round_lost dial conn fd at,
          send_whole no_socket c fd results json up whole,
          here,
          close_if-same fd c at,
        )
        | inr broken ↦ ground (
          arith,
          at,
          round_lost dial conn fd at,
          send_broken no_socket c fd results json up broken,
          here,
          close_if-none fd,
        )
      ]
]
