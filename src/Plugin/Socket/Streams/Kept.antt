-- ===== src/Plugin/Socket/Streams/Kept.antt =====
-- The steps of the client keep the streams apart.
use fcitx5_anytalk.Prelude.{
  ℕ, Bool-cases, ◌≡◌, refl, sym, ◌∙◌, ap, inl, inr, Option, none, some, List, [], ◌∷◌, ◌++◌, map,
  append_assoc, append-nil, map-append,
}
use fcitx5_anytalk.Plugin.Lines.{receive}
use fcitx5_anytalk.Plugin.Lines.Split.{split_lines, receive-lines, split_lines-append}
use fcitx5_anytalk.Plugin.Socket.{
  Conn, unconnected, SocketAction, shuts_down, closes, sleeps, hands, tells_idle, Dial, SendResult,
  send_both, send_json, receive_round, ClientStep, receives, sends, cuts, client_step, client_run,
}
use fcitx5_anytalk.Plugin.Socket.Streams.{
  deliveries, Stream, lines_of, dialed, received, written, stream_step, streams, Matches, Keeps,
  deliveries-append, deliveries-hands,
}
use fcitx5_anytalk.Plugin.Socket.Streams.Rounds.{
  dialed-Matches, lines_of-dialed, next, round_off, round_lost, round_got, receive_cut_lem,
  send_off, send_whole, send_broken,
}

quiet-append :
    (xs ys : List SocketAction) → deliveries xs ≡ [] → deliveries (xs ++ ys) ≡ deliveries ys
quiet-append xs ys quiet =
    deliveries-append xs ys ∙ ap (λ (r : List SocketAction). r ++ deliveries ys) quiet

-- More bytes on a stream: its lines, and what is left.
more_lines :
    (bytes more buffer : List ℕ)
    → buffer ≡ (split_lines bytes).1
    → let r = receive buffer more in
      (lines_of (some bytes) ++ map hands (r.0) ≡ lines_of (some (bytes ++ more)))
      × (r.1 ≡ (split_lines (bytes ++ more)).1)
more_lines bytes more buffer same =
    let first = split_lines bytes in
    let here : receive buffer more ≡ split_lines (first.1 ++ more) =
      receive-lines buffer more ∙ ap (λ (b : List ℕ). split_lines (b ++ more)) same in
    let whole = split_lines-append bytes more in
    (
      ap (λ (r : List (List ℕ) × List ℕ). map hands (first.0) ++ map hands (r.0)) here
          ∙ sym (map-append hands (first.0) _)
          ∙ sym (ap (λ (r : List (List ℕ) × List ℕ). map hands (r.0)) whole),
      ap (λ (r : List (List ℕ) × List ℕ). r.1) here
          ∙ sym (ap (λ (r : List (List ℕ) × List ℕ). r.1) whole),
    )

received-Keeps :
    (dial : Dial) (got : Option (List ℕ)) (st : Stream) (conn : Conn)
    → deliveries ((next dial conn).1) ≡ []
    → Matches st ((next dial conn).0)
    → Keeps st (received got st) (receive_round dial (λ c. c) got conn)
received-Keeps dial got none conn quiet (off, empty) =
    rw (round_off dial conn got off)
      (quiet-append ((next dial conn).1) (sleeps 200 ∷ []) quiet, (off, empty))
received-Keeps dial none (some bytes) conn quiet ((fd, at), kept) =
    rw (round_lost dial conn fd at) (
      ap (λ (r : List SocketAction). lines_of (some bytes) ++ r)
            (quiet-append ((next dial conn).1) (shuts_down fd ∷ closes fd ∷ tells_idle ∷ []) quiet)
          ∙ sym (append-nil (lines_of (some bytes) ++ (tells_idle ∷ []))),
      (unfold unconnected in (refl, refl)),
    )
received-Keeps dial (some more) (some bytes) conn quiet ((fd, at), kept) =
    let (lines, left) = more_lines bytes more ((next dial conn).0).recv_buffer kept in
    let r = receive ((next dial conn).0).recv_buffer more in
    rw (round_got dial conn fd more at) (
      ap (λ (r : List SocketAction). lines_of (some bytes) ++ r)
            (quiet-append ((next dial conn).1) (map hands (r.0)) quiet ∙ deliveries-hands (r.0))
          ∙ lines,
      ((fd, at), left),
    )

sent-Keeps :
    (dial : Dial) (results : List SendResult) (json : List ℕ) (st : Stream) (conn : Conn)
    → deliveries ((next dial conn).1) ≡ []
    → Matches st ((next dial conn).0)
    → Keeps st (written (send_both results json) st) (send_json dial (λ c. c) results json conn)
sent-Keeps dial results json none conn quiet (off, empty) =
    rw (send_off dial conn results json off) (quiet, (off, empty))
sent-Keeps dial results json (some bytes) conn quiet ((fd, at), kept) =
    elim (Bool-cases (send_both results json)) [
      | inl whole ↦
          rw (whole, send_whole dial conn fd results json at whole)
            (
              ap (λ (r : List SocketAction). lines_of (some bytes) ++ r) quiet ∙ append-nil _,
              ((fd, at), kept),
            )
      | inr broken ↦
          rw (broken, send_broken dial conn fd results json at broken)
            (
              ap (λ (r : List SocketAction). lines_of (some bytes) ++ r)
                  (quiet-append ((next dial conn).1) (shuts_down fd ∷ closes fd ∷ []) quiet),
              (unfold unconnected in (refl, refl)),
            )
    ]

round-Keeps :
    (dial : Dial) (got : Option (List ℕ)) (st : Stream) (conn : Conn)
    → Matches st conn
    → Keeps st (received got (dialed dial st)) (receive_round dial (λ c. c) got conn)
round-Keeps dial got st conn h =
    let (quiet, now) = dialed-Matches dial st conn h in
    let (same, after) = received-Keeps dial got (dialed dial st) conn quiet now in
    (
      ap (λ (r : List SocketAction). r ++ deliveries ((receive_round dial (λ c. c) got conn).1))
            (sym (lines_of-dialed dial st))
          ∙ same,
      after,
    )

step-Keeps :
    (step : ClientStep) (st : Stream) (conn : Conn)
    → Matches st conn
    → Keeps st (stream_step step st) (client_step step conn)
unfolding client_step
step-Keeps (receives dial got) st conn h = round-Keeps dial got st conn h
step-Keeps (sends dial results json) st conn h =
    let (quiet, now) = dialed-Matches dial st conn h in
    let (same, after) = sent-Keeps dial results json (dialed dial st) conn quiet now in
    (
      ap
            (λ (r : List SocketAction).
              r ++ deliveries ((send_json dial (λ c. c) results json conn).1))
            (sym (lines_of-dialed dial st))
          ∙ same,
      after,
    )
step-Keeps (cuts dial results json) st conn h =
    rw (receive_cut_lem dial results json conn) (round-Keeps dial none st conn h)

-- From a client on a stream, and a step after the other, the callbacks get the lines of each
-- connection as if all its bytes had come at once, in order and without those of any other, and a
-- status `idle`, once, behind the lines of a connection that the receiver loses, also where a call of
-- `sendJson` has closed it while `recv` waits.
pub client_run-streams :
    (steps : List ClientStep) (st : Stream) (conn : Conn)
    → Matches st conn
    → lines_of st ++ deliveries ((client_run steps conn).1) ≡ streams steps st
unfolding client_run
client_run-streams [] st conn h = append-nil (lines_of st)
client_run-streams (step ∷ steps) st conn h =
    let now = client_step step conn in
    let ended = stream_step step st in
    let (same, after) = step-Keeps step st conn h in
    let later = (client_run steps (now.0)).1 in
    ap (λ (r : List SocketAction). lines_of st ++ r) (deliveries-append (now.1) later)
    ∙ sym (append_assoc (lines_of st) (deliveries (now.1)) (deliveries later))
    ∙ ap (λ (r : List SocketAction). r ++ deliveries later) same
    ∙ append_assoc (ended.0) (lines_of (ended.1)) (deliveries later)
    ∙ ap (λ (r : List SocketAction). ended.0 ++ r)
        (client_run-streams steps (ended.1) (now.0) after)
