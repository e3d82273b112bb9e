-- ===== src/Asr/Connect/Headers.antt =====
-- The request that connect_to_asr sends.
use fcitx5_anytalk.Prelude.{◌+◌, leb, ◌&&◌, if◌then◌else◌, [], ◌∷◌, Option, some, ◌≡◌, false}
use fcitx5_anytalk.Prelude.Results.{ok}
use fcitx5_anytalk.Text.{Text, text, text_eq}
use fcitx5_anytalk.Config.{AsrConfig}
use fcitx5_anytalk.Asr.Request.{asr_url}
use fcitx5_anytalk.Asr.Connect.{WsLib}

-- The name of a header in ASCII lower case.
abbrev pub lower : Text → Text
lower [] = []
lower (c ∷ cs) = (if leb 65 c && leb c 90 then c + 32 else c) ∷ lower cs

-- What an `insert` does to the headers of a request: it sets the header of that name, and keeps those
-- whose name is another one, where upper and lower case count as the same.
pub record IsHeaderMap (lib : WsLib) : Type 0 where
  pub get : lib.Request → Text → Option lib.HeaderValue
  pub same : (r : lib.Request) (k : Text) (v : lib.HeaderValue) → get (lib.insert r k v) k ≡ some v
  pub other :
      (r : lib.Request) (k k' : Text) (v : lib.HeaderValue)
      → text_eq (lower k) (lower k') ≡ false
      → get (lib.insert r k v) k' ≡ get r k'

-- The headers of a request that is sent.
pub record IsSent (lib : WsLib) (map : IsHeaderMap lib) (uuid : Text) (cfg : AsrConfig)
    (ws : lib.WsStream) : Type 0 where
  pub base : lib.Request
  pub request : lib.Request
  pub to_url : lib.into_client_request (asr_url cfg.mode) ≡ ok base
  pub connected : lib.connect_async request ≡ ok ws
  pub key :
      (v : lib.HeaderValue) × (lib.parse cfg.app_id ≡ some v)
      × (map.get request (text "X-Api-App-Key") ≡ some v)
  pub access :
      (v : lib.HeaderValue) × (lib.parse cfg.access_token ≡ some v)
      × (map.get request (text "X-Api-Access-Key") ≡ some v)
  pub resource :
      (v : lib.HeaderValue) × (lib.parse cfg.resource_id ≡ some v)
      × (map.get request (text "X-Api-Resource-Id") ≡ some v)
  pub id :
      (v : lib.HeaderValue) × (lib.parse uuid ≡ some v)
      × (map.get request (text "X-Api-Connect-Id") ≡ some v)
