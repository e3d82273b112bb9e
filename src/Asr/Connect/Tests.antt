-- ===== src/Asr/Connect/Tests.antt =====
-- A concrete dial: a request is the list of its headers, and a connection is a request.
use fcitx5_anytalk.Prelude.{Option, none, some, List, [], ◌∷◌, if◌then◌else◌}
use fcitx5_anytalk.Prelude.Results.{ok}
use fcitx5_anytalk.Text.{Text, text, text_eq}
use fcitx5_anytalk.Config.{AsrConfig}
use fcitx5_anytalk.Asr.Connect.{WsLib}
use fcitx5_anytalk.Asr.Connect.Headers.{lower}

abbrev header : List (Text × Text) → Text → Option Text
header [] k = none
header ((k', v) ∷ rest) k = if text_eq (lower k') (lower k) then some v else header rest k

abbrev listed : WsLib
listed = record {
  Request = List (Text × Text);
  HeaderValue = Text;
  WsStream = List (Text × Text);
  into_client_request = λ url. ok [];
  insert = λ r k v. (k, v) ∷ r;
  parse = λ t. some t;
  connect_async = λ r. ok r;
}

abbrev config : AsrConfig
config = record {
  app_id = text "app";
  access_token = text "token";
  resource_id = text "resource";
  mode = text "bidi";
}

abbrev sent : List (Text × Text)
sent =
    (text "X-Api-Connect-Id", text "id")
    ∷ (text "X-Api-Resource-Id", text "resource")
    ∷ (text "X-Api-Access-Key", text "token")
    ∷ (text "X-Api-App-Key", text "app")
    ∷ []
