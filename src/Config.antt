-- ===== src/Config.antt =====
-- anytalk-daemon/src/config.rs. The environment is a parameter: `none` for a variable that is not set
-- or not Unicode.
use fcitx5_anytalk.Prelude.{Option, none, some}
use fcitx5_anytalk.Prelude.Results.{Result, ok, err}
use fcitx5_anytalk.Text.{Text, text, trim}

pub record AsrConfig : Type 0 where
  pub app_id : Text
  pub access_token : Text
  pub resource_id : Text
  pub mode : Text

unfoldable pub load_config : (Text → Option Text) → Result Text AsrConfig
load_config env = elim (env (text "ANYTALK_APP_ID")) [
  | none ↦ err (text "missing ANYTALK_APP_ID")
  | some app_id ↦ elim (env (text "ANYTALK_ACCESS_TOKEN")) [
    | none ↦ err (text "missing ANYTALK_ACCESS_TOKEN")
    | some access_token ↦ ok (record {
      app_id = trim app_id;
      access_token = trim access_token;
      resource_id = elim (env (text "ANYTALK_RESOURCE_ID")) [
        | none ↦ text "volc.seedasr.sauc.duration"
        | some s ↦ trim s
      ];
      mode = elim (env (text "ANYTALK_MODE")) [ none ↦ text "bidi_async" | some s ↦ trim s ];
    })
  ]
]
