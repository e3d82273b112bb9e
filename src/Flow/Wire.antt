-- ===== src/Flow/Wire.antt =====
-- What a service that reads the documented frames gets from a session of the flow: from the stream's
-- callback (anytalk-daemon/src/audio.rs) over the channel and run_session (asr.rs) to the frames
-- (protocol.rs).
use fcitx5_anytalk.Prelude.{
  ℕ, ◌^◌, ◌<◌, Bool, true, false, Option-cases, inl, inr, ◌≡◌, refl, sym, ◌∙◌, ap, subst, Option,
  none, some, List, [], ◌∷◌, ◌++◌, map, length, append-nil, All, All-append, if◌then◌else◌, arith,
}
use fcitx5_anytalk.Prelude.Families.{update_all}
use fcitx5_anytalk.Text.{IsScalar}
use fcitx5_anytalk.Text.Utf8.{as_bytes, from_utf8_lossy}
use fcitx5_anytalk.Mpsc.{IsFifo}
use fcitx5_anytalk.Protocol.{build_full_client_request, build_audio_only_request}
use fcitx5_anytalk.Protocol.Client.{
  ClientFrame, read_client_frame, read-build_audio_only_request, read-build_full_client_request,
}
use fcitx5_anytalk.Audio.Msg.{AudioMsg, chunk}
use fcitx5_anytalk.Audio.Resampler.{Outcome, done, panicked, no_fuel}
use fcitx5_anytalk.Audio.Capture.{Capture}
use fcitx5_anytalk.Audio.Global.{Data, on_data}
use fcitx5_anytalk.Audio.Global.Sizes.{IsFull, on_data-Full}
use fcitx5_anytalk.Ipc.Client.{Client}
use fcitx5_anytalk.Asr.Session.{Session}
use fcitx5_anytalk.Asr.Session.Frames.{audio_frames}
use fcitx5_anytalk.Flow.{Setting, Flow, offer, on_callback}
use fcitx5_anytalk.Flow.Reach.{
  Log, logged, FlowReaches, idle, called, accepted, moved, pool_changed, ran,
}
use fcitx5_anytalk.Flow.Delivery.{session_at, flow-frames}

-- An audio packet as the reader gives it, with nothing after it.
abbrev pub packet : List ℕ → Bool → Option (ClientFrame × List ℕ)
packet bytes last = some (
  record {
    message_type = 2;
    flags = if last then 2 else 0;
    serialization = 0;
    compression = 0;
    payload = bytes;
  },
  [],
)

abbrev pub packets : List (List ℕ) → Bool → List (Option (ClientFrame × List ℕ))
packets chunks closed =
    map (λ b. packet b false) chunks ++ (if closed then packet [] true ∷ [] else [])

read_packet :
    (bytes : List ℕ) (last : Bool)
    → length bytes < 2 ^ 32
    → read_client_frame (build_audio_only_request bytes last) ≡ packet bytes last
read_packet bytes last fits =
    ap read_client_frame (sym (append-nil (build_audio_only_request bytes last)))
    ∙ read-build_audio_only_request bytes [] last fits

read_packets :
    (chunks : List (List ℕ)) (closed : Bool)
    → All IsFull (map chunk chunks)
    → map read_client_frame (audio_frames chunks closed) ≡ packets chunks closed
read_packets [] true h =
    ap (λ (p : Option (ClientFrame × List ℕ)). p ∷ []) (read_packet [] true (omega arith))
read_packets [] false h = refl
read_packets (bytes ∷ chunks) closed (here, h) =
    ap
      (λ (p : Option (ClientFrame × List ℕ)).
        p ∷ map read_client_frame (audio_frames chunks closed))
      (read_packet bytes false (omega (arith, here)))
    ∙ ap (λ (ps : List (Option (ClientFrame × List ℕ))). packet bytes false ∷ ps)
        (read_packets chunks closed h)

front-Full : (front back : List AudioMsg) → All IsFull (front ++ back) → All IsFull front
front-Full [] back h = tt
front-Full (x ∷ front) back (here, h) = (here, front-Full front back h)

module _ (w : Setting) where
  open w use {nt, Ws, req_json, fl, f32, fuel, channels, format, ch}

  offer-Full :
      (msgs : List AudioMsg) (q : ch.State) → All IsFull msgs → All IsFull ((offer w msgs q).0)
  unfolding offer
  offer-Full [] q h = tt
  offer-Full (msg ∷ msgs) q (here, h) = elim (Option-cases (ch.try_send msg q)) [
    | inl refused ↦ rw (refused, offer) (offer-Full msgs q h)
    | inr (q', went) ↦ rw (went, offer) (here, offer-Full msgs q' h)
  ]

  -- Of the chunks that a call of the callback has taken.
  abbrev TakenFull : Option (Flow w × List AudioMsg) → Type 0
  TakenFull none = Unit {0}
  TakenFull (some (s, taken)) = All IsFull taken

  called-TakenFull :
      (slice : Data f32 format) (s : Flow w) (o : Outcome (List AudioMsg × Capture fl))
      (target : Option ℕ)
      → on_data fl f32 fuel channels format s.shared.audio.target s.capture slice ≡ o
      → s.shared.audio.target ≡ target
      → TakenFull (on_callback w slice s)
  unfolding on_callback
  called-TakenFull slice s panicked target e at = rw (e, TakenFull, on_callback) tt
  called-TakenFull slice s no_fuel target e at = rw (e, TakenFull, on_callback) tt
  called-TakenFull slice s (done (msgs, c)) none e at =
      rw (e, TakenFull, on_callback) (rw (at, TakenFull) tt)
  called-TakenFull slice s (done (msgs, c)) (some t) e at =
      let full =
        on_data-Full fl f32 fuel channels format s.shared.audio.target s.capture c slice msgs e in
      rw (e, TakenFull, on_callback) (rw (at, TakenFull) (offer-Full msgs (s.queues t) full))

  logged-Full :
      (target : Option ℕ) (taken : List AudioMsg) (log : Log w)
      → All IsFull taken
      → ((t : ℕ) → All IsFull (log t))
      → (t : ℕ) → All IsFull (logged w target taken log t)
  logged-Full none taken log new h = h
  logged-Full (some u) taken log new h =
      update_all (λ v l. All IsFull l) log u (log u ++ taken)
        (All-append IsFull (log u) taken (h u) new) h

  flow-Full :
      {s : Flow w} {cs : List (Client nt Ws)} {log : Log w}
      → FlowReaches w s cs log
      → (t : ℕ) → All IsFull (log t)
  flow-Full (idle sh c queues quiet) t = tt
  flow-Full (called slice s s' cs log taken before e) t =
      logged-Full s.shared.audio.target taken log
        (subst TakenFull e (
          called-TakenFull slice s
            (on_data fl f32 fuel channels format s.shared.audio.target s.capture slice)
            s.shared.audio.target refl refl))
        (flow-Full before) t
  flow-Full (accepted s cs log before) t = flow-Full before t
  flow-Full (moved s left right log c c1 event sh before e) t = flow-Full before t
  flow-Full (pool_changed s cs log pool before) t = flow-Full before t
  flow-Full (ran s cs log u event state q before allowed e) t = flow-Full before t

module _ (w : Setting) (fifo : IsFifo (w.ch)) where
  open w use {nt, Ws, req_json, ch}
  open fifo use {unread}

  -- What the reader makes of the frames of a session, for chunks that its channel has taken.
  abbrev pub ReadAs : Session → List AudioMsg → Type 0
  ReadAs u taken =
      (f : ClientFrame) × (chunks : List (List ℕ)) × (closed : Bool) × (rest : List AudioMsg) × (map
          read_client_frame u.frames
        ≡ some (f, []) ∷ packets chunks closed)
      × (f.message_type ≡ 1)
      × (from_utf8_lossy f.payload ≡ req_json)
      × (map chunk chunks ++ rest ≡ taken)
      × All IsFull taken

  frames-ReadAs :
      (u : Session) (chunks : List (List ℕ)) (closed : Bool) (rest taken : List AudioMsg)
      → All IsScalar req_json
      → length (as_bytes req_json) < 2 ^ 32
      → All IsFull taken
      → u.frames ≡ build_full_client_request req_json ∷ audio_frames chunks closed
      → map chunk chunks ++ rest ≡ taken
      → ReadAs u taken
  frames-ReadAs u chunks closed rest taken scalars fits full frames order =
      let (f, read, kind, flags, json, plain, text) =
        read-build_full_client_request req_json [] scalars fits in
      let first : read_client_frame (build_full_client_request req_json) ≡ some (f, []) =
        ap read_client_frame (sym (append-nil (build_full_client_request req_json))) ∙ read in
      let at_chunks = front-Full (map chunk chunks) rest (subst (All IsFull) (sym order) full) in
      (
        f,
        chunks,
        closed,
        rest,
        ap (map read_client_frame) frames
            ∙ ap
                (λ (p : Option (ClientFrame × List ℕ)).
                  p ∷ map read_client_frame (audio_frames chunks closed))
                first
            ∙ ap (λ (ps : List (Option (ClientFrame × List ℕ))). some (f, []) ∷ ps)
                (read_packets chunks closed at_chunks),
        kind,
        text,
        order,
        full,
      )

  -- In every state of the flow, a reader of the documented frames that gets what the session of a
  -- task has sent finds each message to be one whole frame: first the full client request, which
  -- decodes to the text of the request, if that is Unicode and its size fits 32 bits; then an audio
  -- packet for each of the first chunks that the channel of the task has taken from the microphone,
  -- byte by byte and in order, each of 200 ms, 6400 bytes; then at most one last packet, empty.
  pub flow-ReadAs :
      (s : Flow w) (cs : List (Client nt Ws)) (log : Log w) (t : ℕ) (u : Session)
      → All IsScalar req_json
      → length (as_bytes req_json) < 2 ^ 32
      → FlowReaches w s cs log
      → session_at (s.tasks t) ≡ some u
      → ReadAs u (log t)
  flow-ReadAs s cs log t u scalars fits reached e =
      let (chunks, sent) = flow-frames w fifo s cs log t u reached e in
      let full = flow-Full w reached t in
      elim sent [
        | inl (frames, order) ↦
            frames-ReadAs u chunks false (unread (s.queues t)) (log t) scalars fits full frames
              order
        | inr (frames, order, away) ↦
            frames-ReadAs u chunks true [] (log t) scalars fits full frames
              (append-nil (map chunk chunks) ∙ order)
      ]
