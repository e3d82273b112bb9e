-- ===== src/Asr/Connect.antt =====
-- connect_to_asr of anytalk-daemon/src/asr.rs. The WebSocket library, the header values and the
-- random identifier are parameters.
pub mod Headers
mod Tests
use fcitx5_anytalk.Prelude.{Option, none, some, ◌≡◌, ◌++◌}
use fcitx5_anytalk.Prelude.Results.{Result, ok, err, ◌>>=◌}
use fcitx5_anytalk.Text.{Text, text}
use fcitx5_anytalk.Config.{AsrConfig}
use fcitx5_anytalk.Asr.Request.{asr_url}

-- Errors are texts, as `{e}` formats them.
pub record WsLib : Type 1 where
  pub Request : Type 0
  pub HeaderValue : Type 0
  pub WsStream : Type 0
  pub into_client_request : Text → Result Text Request
  pub insert : Request → Text → HeaderValue → Request
  pub parse : Text → Option HeaderValue
  pub connect_async : Request → Result Text WsStream

-- `map_err(|e| format!("…: {e}"))`.
unfoldable pub with_prefix : {A : Type 0} → Text → Result Text A → Result Text A
with_prefix prefix (ok a) = ok a
with_prefix prefix (err e) = err (prefix ++ e)

module _ (lib : WsLib) where
  -- `headers.insert(name, value.parse().map_err(|_| bad)?)`.
  unfoldable pub insert_header : Text → Text → Text → lib.Request → Result Text (lib.Request)
  insert_header name value bad request = elim (lib.parse value) [
    | none ↦ err bad
    | some v ↦ ok (lib.insert request name v)
  ]

  unfoldable pub client_request : Text → AsrConfig → Result Text (lib.Request)
  client_request uuid cfg = do
    request ← with_prefix (text "ws request error: ") (lib.into_client_request (asr_url cfg.mode))
    request ← insert_header (text "X-Api-App-Key") cfg.app_id (text "bad app id") request
    request ←
        insert_header (text "X-Api-Access-Key") cfg.access_token (text "bad access token") request
    request ←
        insert_header (text "X-Api-Resource-Id") cfg.resource_id (text "bad resource id") request
    insert_header (text "X-Api-Connect-Id") uuid (text "bad uuid") request

  unfoldable pub connect_to_asr : Text → AsrConfig → Result Text (lib.WsStream)
  connect_to_asr uuid cfg =
      client_request uuid cfg
      >>= (λ request. with_prefix (text "ws connect error: ") (lib.connect_async request))
