-- ===== src/Lib.antt =====
-- The voice input of fcitx5-anytalk: a verification library for the daemon, anytalk-daemon (Rust), and
-- for the plugin of the input method fcitx5 that talks to it (src, C++).
--
-- The daemon records the microphone all the time. An input method connects over a socket and sends
-- start, stop and cancel; a start opens a session with a speech recognition service over a WebSocket,
-- to which the audio then goes in chunks of 200 ms; the responses of the service become messages to
-- the input method, provisional texts and committed ones. A pool keeps one spare connection to the
-- service, so that a start need not wait.
--
-- Parts of the model, each with the code it is about:
-- - Text, Text/*: str of Rust as a list of scalar values: UTF-8, trim, slices at byte positions.
-- - Config: anytalk-daemon/src/config.rs, load_config over an environment.
-- - Protocol, Protocol/*: anytalk-daemon/src/protocol.rs, the binary frames. Bytes are numbers below
--   256; an index out of bounds is `none`. Format has the documented frames, Sound what parsing
--   finds, Client the frames that the daemon sends.
-- - Asr/Texts, Asr/Texts/*: parse_asr_texts of anytalk-daemon/src/asr.rs, with the two variables that
--   it updates as a record. Asr/Texts/Commits has the responses that list utterances, Asr/Texts/Told
--   those with one text for the session. Asr/Json is the interface of serde_json.
-- - Asr/Request: asr_url and default_request_json. Asr/Connect: connect_to_asr over an interface for
--   the WebSocket library.
-- - Asr/Session, Asr/Session/*: run_session, whose rounds of select! are steps on events; frames and
--   lines that are sent are logged in the state. Asr/Session/Commits and Asr/Session/Told have whole
--   sessions of the two kinds of responses: the request does not set show_utterances, so the service
--   lists utterances only where its default is another.
-- - Asr/Pool, Asr/Pool/*: ConnectionPool; run_maintainer is a state machine whose states are the
--   places where it awaits. Notify of tokio is an interface with one law.
-- - Ipc/Msg, Ipc/Client, Ipc/Client/*: anytalk-daemon/src/ipc.rs, the messages and handle_client. The
--   handler is a state machine on what its awaits give; the audio target, the pool and the tasks are
--   state that it shares, with the tasks whose handles a handler drops when it returns and the
--   connection that each task runs on. Ipc/Client/Reach has the states that one handler reaches,
--   Ipc/Client/Every those of any number of handlers together, Ipc/Task the messages of a session's
--   task.
-- - Audio/Samples, Audio/Resampler, Audio/Capture, Audio/Global and their folders:
--   anytalk-daemon/src/audio.rs, the samples, the resampler, the callbacks of the stream with
--   AudioController, and start_global_audio over an interface for cpal. Floating-point numbers are the
--   interface Audio/Float, and Audio/Fixed has numbers that meet it. Audio/Resampler/Times and Stream
--   have the signal that the resampler is to put out.
-- - Mpsc: the channels of tokio as an interface, with the laws that its documentation states.
-- - Flow, Flow/*: the audio from the microphone to the service, across audio.rs, ipc.rs and asr.rs: the
--   callback, any number of handlers and any number of session tasks, whose steps come in any order.
--   Flow/Reach has the states that they reach with what each channel has taken, Flow/Ledger and
--   Flow/Sound what holds in all of them, Flow/Handlers and Flow/Kept that each step keeps it,
--   Flow/Delivery and Flow/Wire what the service gets. Mpsc/Bounded is a channel that meets the laws.
-- - Relay, Relay/*: the responses from the tasks of a client to the client, across ipc.rs and asr.rs:
--   each send is a step, the handler writes what comes out of the channel, and other clients change
--   what is shared. Relay/Kept and Relay/Order have the order of the messages, Relay/Idle their end, and
--   Relay/Passes that the handler writes what waits.
-- - Daemon, Daemon/Takeover: anytalk-daemon/src/main.rs, socket_path and main, as the list of what the
--   daemon does to its surroundings.
-- - Error: anytalk-daemon/src/error.rs.
-- - Plugin/Lines, Plugin/Messages: src/ipc_client.cpp of the plugin for fcitx5, written in C++: the
--   lines of the bytes that are received, and what a line calls. json-c is an interface, and
--   Messages/Wire says what it and serde_json do together.
-- - Plugin/Socket: the connection in src/ipc_client.cpp, as steps that list what they do.
-- - Plugin/Engine: src/addon.cpp, the plugin's state as a record, and its handlers as steps that list
--   what they do to fcitx5. Engine/Recording and Engine/Late join it with the daemon's handler by the
--   messages, and Engine/Dictation with the session, from the responses to the committed text.
-- - Plugin/Manager: src/daemon_manager.cpp, the start and the end of the daemon's process, and the
--   path of the socket in src/ipc_client.cpp.
-- - Prelude, Prelude/*: lists, options, results and integers over the native numbers.
--
-- Panics are values: `none`, or `panicked` in an Outcome. Counters wrap around, as in the release
-- build that CMake makes by default; the count of a session's chunks would panic in a debug build
-- after thirteen years of audio. The loop of the resampler takes fuel, and the fuel that its theorem
-- asks for, more than the samples times the output rate, is enough because each round moves the
-- position by a positive number of parts of 1 / out_rate of a sample. The cut of a buffer into
-- chunks takes as many rounds as it has samples at most.
-- Positions of the resampler are
-- f64 values; the theorems on it assume that sums, differences and floor are exact on them up to a
-- limit, as they are where the quotient of the rates is a binary fraction.
--
-- Not modelled: logging; the start and stop of the plugin's client, and how its two threads interleave
-- inside a step, but for a call of sendJson while recv waits; the configuration file of the plugin and
-- its status action, which are calls of fcitx5; the build files.
-- The flow of the audio and the relay of the responses are two models over the same handlers and
-- sessions. In the flow, taking a chunk from the channel and sending its frame are one step, and in the
-- relay, a round of the session that has messages for the client, up to the first send.
pub mod Prelude
pub mod Text
pub mod Config
pub mod Protocol
pub mod Audio
pub mod Ipc
pub mod Asr
pub mod Daemon
pub mod Error
pub mod Plugin
pub mod Mpsc
pub mod Flow
pub mod Relay
