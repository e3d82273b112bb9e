-- ===== src/Asr/Request.antt =====
-- The request that opens a session: asr_url and default_request_json of anytalk-daemon/src/asr.rs.
use fcitx5_anytalk.Prelude.{ℕ, Bool, true, false, String, if◌then◌else◌}
use fcitx5_anytalk.Text.{Text, text, text_eq}

unfoldable pub asr_url : Text → Text
asr_url mode =
    if text_eq mode (text "bidi")
    then text "wss://openspeech.bytedance.com/api/v3/sauc/bigmodel"
    else if text_eq mode (text "bidi_async")
    then text "wss://openspeech.bytedance.com/api/v3/sauc/bigmodel_async"
    else text "wss://openspeech.bytedance.com/api/v3/sauc/bigmodel_nostream"

-- The JSON values that the macro `json!` of the source builds.
mutual
  pub data Json : Type 0 where
    boolean : Bool → Json
    number : ℕ → Json
    string : Text → Json
    object : Members → Json

  pub data Members : Type 0 where
    end : Members
    member : Text → Json → Members → Members

abbrev yes_no : String → Bool → Members → Members
yes_no key b rest = member (text key) (boolean b) rest

-- `audio["language"] = …` adds the member; `json!` has none of that name before.
unfoldable pub audio_members : Text → Members
audio_members mode = member (text "format") (string (text "pcm")) (
    member (text "rate") (number 16000) (
      member (text "bits") (number 16) (
        member (text "channel") (number 1) (
          if text_eq mode (text "nostream")
          then member (text "language") (string (text "zh-CN")) end
          else end))))

unfoldable pub default_request : Text → Json
default_request mode = object (
    member (text "user") (object (member (text "uid") (string (text "anytalk")) end)) (
      member (text "audio") (object (audio_members mode)) (
        member (text "request")
          (object (
            member (text "model_name") (string (text "bigmodel")) (
              yes_no "enable_itn" true (
                yes_no "enable_punc" true (
                  yes_no "enable_ddc" false (
                    yes_no "enable_word" false (
                      member (text "res_type") (string (text "full"))
                        (member (text "nbest") (number 1) (yes_no "use_vad" true end)))))))))
          end)))

-- `obj.to_string()`, the printer of serde_json, is a parameter.
unfoldable pub default_request_json : (Json → Text) → Text → Text
default_request_json to_string mode = to_string (default_request mode)
