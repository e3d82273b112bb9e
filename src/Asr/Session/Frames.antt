-- ===== src/Asr/Session/Frames.antt =====
-- The frames that a session sends: the request, the chunks in the order of the audio channel, and
-- the last frame once.
use fcitx5_anytalk.Prelude.{
  inl, inr, Bool-cases, subst, inl, inr, ℕ, ◌≡◌, refl, sym, ap, ◌∙◌, Bool, true, false, List, [],
  ◌∷◌, ◌++◌, map, Option, none, some, arith, append_assoc, append-nil, if◌then◌else◌,
}
use fcitx5_anytalk.Text.{Text}
use fcitx5_anytalk.Protocol.{build_full_client_request, build_audio_only_request}
use fcitx5_anytalk.Audio.Msg.{AudioMsg, chunk}
use fcitx5_anytalk.Asr.Json.{JsonLib}
use fcitx5_anytalk.Asr.Session.Runs.{session_of, run_induction}
use fcitx5_anytalk.Asr.Session.{
  WsItem, Event, audio, message, Session, goes_on, ended, on_audio, on_response, on_parsed,
  on_message, step, run, opened,
}

-- The chunks that arrive on the audio channel in a list of events.
unfoldable pub received : List Event → List (List ℕ)
received [] = []
received (audio (some (chunk bytes)) sent ∷ es) = bytes ∷ received es
received (audio none sent ∷ es) = received es
received (message item ∷ es) = received es

abbrev chunk_frame : List ℕ → List ℕ
chunk_frame bytes = build_audio_only_request bytes false

abbrev pub last_frame : List ℕ
last_frame = build_audio_only_request [] true

-- The frames sent for some chunks, and for the end of the audio if it was seen.
abbrev pub audio_frames : List (List ℕ) → Bool → List (List ℕ)
audio_frames chunks closed =
    map (λ bytes. build_audio_only_request bytes false) chunks
    ++ (if closed then build_audio_only_request [] true ∷ [] else [])

-- How the frames at the end of some events stem from those before them, and from the chunks of the
-- audio channel: a first part of the chunks, in order, and the last frame if `closed`.
pub record SentFrames (s : Session) (es : List Event) (u : Session) : Type 0 where
  pub chunks : List (List ℕ)
  pub dropped : List (List ℕ)
  pub closed : Bool
  pub sent : u.frames ≡ s.frames ++ audio_frames chunks closed
  pub order : received es ≡ chunks ++ dropped
  pub silent : s.audio_active ≡ false → (chunks ≡ []) × (closed ≡ false)

module _ (json : JsonLib) (mode : Text) where
  -- A message of the service sends nothing and leaves the audio side alone.
  pub on_message-audio :
      (s : Session) (item : Option WsItem) {s' : Session}
      → session_of (on_message json mode s item) ≡ some s'
      → (s'.frames ≡ s.frames) × (s'.audio_active ≡ s.audio_active)
  unfolding on_message on_parsed on_response
  on_message-audio s none h = ground arith
  on_message-audio s (some WsItem.close) h = ground arith
  on_message-audio s (some WsItem.other) h = ground arith
  on_message-audio s (some WsItem.failure) h = ground arith
  on_message-audio s (some (WsItem.binary bytes)) h = ground arith

  step_audio_on :
      (s t : Session) (msg : Option AudioMsg) (sent : Bool)
      → s.audio_active ≡ true
      → step json mode s (audio msg sent) ≡ goes_on t
      → t ≡ on_audio s msg sent
  unfolding step
  step_audio_on s t msg sent on h = ground arith

  step_audio_off :
      (s t : Session) (msg : Option AudioMsg) (sent : Bool)
      → s.audio_active ≡ false
      → step json mode s (audio msg sent) ≡ goes_on t
      → t ≡ s
  unfolding step
  step_audio_off s t msg sent off h = ground arith

  nothing_sent : (s : Session) (es : List Event) → SentFrames s es s
  nothing_sent s es = record {
    chunks = [];
    dropped = received es;
    closed = false;
    sent = sym (append-nil s.frames);
    order = refl;
    silent = λ _. (refl, refl);
  }

  chunk_sent :
      (s u : Session) (bytes : List ℕ) (sent : Bool) (es : List Event)
      → s.audio_active ≡ true
      → SentFrames (on_audio s (some (chunk bytes)) sent) es u
      → SentFrames s (audio (some (chunk bytes)) sent ∷ es) u
  unfolding on_audio received
  chunk_sent s u bytes sent es on r = record {
    chunks = bytes ∷ r.chunks;
    dropped = r.dropped;
    closed = r.closed;
    sent = r.sent ∙ append_assoc s.frames _ _;
    order = ap (λ cs. bytes ∷ cs) r.order;
    silent = λ off. cc;
  }

  end_sent :
      (s u : Session) (sent : Bool) (es : List Event)
      → s.audio_active ≡ true
      → SentFrames (on_audio s none sent) es u
      → SentFrames s (audio none sent ∷ es) u
  unfolding on_audio received
  end_sent s u sent es on r =
      let (no_chunks, open_) = r.silent refl in
      record {
        chunks = [];
        dropped = r.dropped;
        closed = true;
        sent = r.sent ∙ rw (no_chunks, open_) (append-nil _);
        order = r.order ∙ rw no_chunks;
        silent = λ off. cc;
      }

  chunk_dropped :
      (s u : Session) (bytes : List ℕ) (sent : Bool) (es : List Event)
      → s.audio_active ≡ false
      → SentFrames s es u
      → SentFrames s (audio (some (chunk bytes)) sent ∷ es) u
  unfolding received
  chunk_dropped s u bytes sent es off r = record {
    chunks = [];
    dropped = bytes ∷ r.dropped;
    closed = r.closed;
    sent = r.sent ∙ rw (r.silent off).0;
    order = ap (λ cs. bytes ∷ cs) (r.order ∙ rw (r.silent off).0);
    silent = λ off. (refl, (r.silent off).1);
  }

  end_ignored :
      (s u : Session) (sent : Bool) (es : List Event)
      → SentFrames s es u
      → SentFrames s (audio none sent ∷ es) u
  unfolding received
  end_ignored s u sent es r = record {
    chunks = r.chunks;
    dropped = r.dropped;
    closed = r.closed;
    sent = r.sent;
    order = r.order;
    silent = r.silent;
  }

  message_sent :
      (s t u : Session) (item : Option WsItem) (es : List Event)
      → (t.frames ≡ s.frames) × (t.audio_active ≡ s.audio_active)
      → SentFrames t es u
      → SentFrames s (message item ∷ es) u
  unfolding received
  message_sent s t u item es (same, same_on) r = record {
    chunks = r.chunks;
    dropped = r.dropped;
    closed = r.closed;
    sent = r.sent ∙ rw same;
    order = r.order;
    silent = λ off. r.silent (same_on ∙ off);
  }

  audio_next :
      (s t u : Session) (msg : Option AudioMsg) (sent : Bool) (es : List Event)
      → step json mode s (audio msg sent) ≡ goes_on t
      → SentFrames t es u
      → SentFrames s (audio msg sent ∷ es) u
  audio_next s t u (some (chunk bytes)) sent es h r = elim (Bool-cases s.audio_active) [
    | inl on ↦
        chunk_sent s u bytes sent es on
          (subst (λ t. SentFrames t es u) (step_audio_on s t _ sent on h) r)
    | inr off ↦
        chunk_dropped s u bytes sent es off
          (subst (λ t. SentFrames t es u) (step_audio_off s t _ sent off h) r)
  ]
  audio_next s t u none sent es h r = elim (Bool-cases s.audio_active) [
    | inl on ↦
        end_sent s u sent es on (subst (λ t. SentFrames t es u) (step_audio_on s t _ sent on h) r)
    | inr off ↦
        end_ignored s u sent es (subst (λ t. SentFrames t es u) (step_audio_off s t _ sent off h) r)
  ]

  next_frames :
      (s t u : Session) (e : Event) (es : List Event)
      → step json mode s e ≡ goes_on t
      → SentFrames t es u
      → SentFrames s (e ∷ es) u
  next_frames s t u (audio msg sent) es h r = audio_next s t u msg sent es h r
  next_frames s t u (message item) es h r =
      message_sent s t u item es
        (on_message-audio s item {s' = t} (unfold step in ground (arith, h))) r

  last_frames :
      (s t : Session) (e : Event) (es : List Event)
      → step json mode s e ≡ ended t
      → SentFrames s (e ∷ es) t
  last_frames s t (audio msg sent) es h = absurd (unfold step in ground (arith, h))
  last_frames s t (message item) es h =
      message_sent s t t item es
        (on_message-audio s item {s' = t} (unfold step in ground (arith, h))) (nothing_sent t es)

  run-SentFrames :
      (s u : Session) (es : List Event)
      → session_of (run json mode s es) ≡ some u
      → SentFrames s es u
  run-SentFrames s u es h =
      run_induction json mode (λ s es u. SentFrames s es u) (λ s. nothing_sent s []) next_frames
        last_frames s u es h

  -- The frames of a session that has not panicked, whatever comes in and whichever sends fail: the
  -- full client request, then a frame for each of the first chunks of the audio channel, in order,
  -- then at most one last frame, which is empty.
  pub run-frames :
      (req_json : Text) (u : Session) (es : List Event)
      → session_of (run json mode (opened req_json) es) ≡ some u
      → (chunks dropped : List (List ℕ)) × (closed : Bool) × (received es ≡ chunks ++ dropped)
        × (u.frames ≡ build_full_client_request req_json ∷ audio_frames chunks closed)
  unfolding opened
  run-frames req_json u es h =
      let r = run-SentFrames (opened req_json) u es h in
      (r.chunks, r.dropped, r.closed, r.order, r.sent)
