-- ===== src/Plugin/Manager/Startup.antt =====
-- The daemon that the plugin starts finds its configuration, and both sides use one socket.
use fcitx5_anytalk.Prelude.{
  false, Option-cases, inl, inr, ◌≡◌, refl, ◌∙◌, ap, subst, append_assoc, Option, none, some, [],
  ◌∷◌, ◌++◌, arith,
}
use fcitx5_anytalk.Prelude.Results.{Result, ok}
use fcitx5_anytalk.Text.{
  Text, text, text_eq, is_empty, trim, trim_start, trim_end, is_whitespace, starts_with,
}
use fcitx5_anytalk.Config.{AsrConfig, load_config}
use fcitx5_anytalk.Daemon.{ends_with_slash, join, socket_path}
use fcitx5_anytalk.Plugin.Manager.{Env, setenv, child_env, anytalk_socket_path}

-- A variable that the user may have set, trimmed, or a default.
abbrev pub or_default : Option Text → Text → Text
or_default none d = d
or_default (some t) d = trim t

abbrev loaded_with : Text → Text → Text → Text → Result Text AsrConfig
loaded_with app_id access_token resource mode = ok (record {
  app_id = trim app_id;
  access_token = trim access_token;
  resource_id = resource;
  mode = mode;
})

-- The default of the child's environment is the one of the daemon.
resource-default :
    (o : Option Text)
    → let set : Option Text = elim o [
      | none ↦ some (text "volc.seedasr.sauc.duration")
      | some v ↦ some v
    ] in
      let read : Text = elim set [ none ↦ text "volc.seedasr.sauc.duration" | some s ↦ trim s ] in
      read ≡ or_default o (text "volc.seedasr.sauc.duration")
unfolding trim trim_start trim_end is_whitespace
resource-default none = refl
resource-default (some v) = refl

mode-default :
    (o : Option Text)
    → let read : Text = elim o [ none ↦ text "bidi_async" | some s ↦ trim s ] in
      read ≡ or_default o (text "bidi_async")
mode-default none = refl
mode-default (some v) = refl

-- Whatever the environment of the plugin, the daemon started with an application id and an access
-- token loads a configuration with these two, trimmed, and with the resource id and the mode of the
-- environment, trimmed, or their defaults.
pub load_config-child_env :
    (app_id access_token : Text) (env : Env)
    → load_config (child_env app_id access_token env)
      ≡ ok (record {
        app_id = trim app_id;
        access_token = trim access_token;
        resource_id =
            or_default (env (text "ANYTALK_RESOURCE_ID")) (text "volc.seedasr.sauc.duration");
        mode = or_default (env (text "ANYTALK_MODE")) (text "bidi_async");
      })
unfolding load_config child_env setenv text_eq
load_config-child_env app_id access_token env =
    let with = λ (r m : Text). loaded_with app_id access_token r m in
    let mode : Text = elim (env (text "ANYTALK_MODE")) [
      | none ↦ text "bidi_async"
      | some s ↦ trim s
    ] in
    ap (λ (r : Text). with r mode) (resource-default (env (text "ANYTALK_RESOURCE_ID")))
    ∙ ap (with (or_default (env (text "ANYTALK_RESOURCE_ID")) (text "volc.seedasr.sauc.duration")))
        (mode-default (env (text "ANYTALK_MODE")))

-- A variable that is not set, or holds a path that is not blank and does not end with a slash.
abbrev pub Plain : Option Text → Type 0
Plain none = Unit
Plain (some t) = (is_empty (trim t) ≡ false) × (ends_with_slash t ≡ false)

-- A variable that is not set, or holds a relative path of that kind.
abbrev pub Relative : Option Text → Type 0
Relative none = Unit
Relative (some t) =
    (is_empty (trim t) ≡ false) × (ends_with_slash t ≡ false) × (starts_with t (text "/") ≡ false)

not_empty : (t : Text) → is_empty (trim t) ≡ false → is_empty t ≡ false
unfolding trim trim_start trim_end
not_empty [] h = h
not_empty (c ∷ t) h = refl

ends_with_slash-append :
    (s t : Text) → is_empty t ≡ false → ends_with_slash (s ++ t) ≡ ends_with_slash t
unfolding ends_with_slash
ends_with_slash-append [] t h = refl
ends_with_slash-append (c ∷ []) [] h = absurd (ground (arith, h))
ends_with_slash-append (c ∷ []) (d ∷ t) h = refl
ends_with_slash-append (c ∷ d ∷ s) t h = ends_with_slash-append (d ∷ s) t h

-- `join` of a directory with a relative name.
join-relative :
    (dir name : Text)
    → is_empty dir ≡ false
    → ends_with_slash dir ≡ false
    → starts_with name (text "/") ≡ false
    → join dir name ≡ dir ++ (text "/" ++ name)
unfolding join
join-relative dir name some_dir plain relative = ground (arith, some_dir, plain, relative)

join-socket :
    (dir : Text)
    → is_empty (trim dir) ≡ false
    → ends_with_slash dir ≡ false
    → join dir (text "anytalk.sock") ≡ dir ++ text "/anytalk.sock"
join-socket dir h plain =
    join-relative dir (text "anytalk.sock") (not_empty dir h) plain (unfold starts_with in refl)

join-uid :
    (uid : Text)
    → Relative (some uid)
    → join (join (text "/run/user") uid) (text "anytalk.sock")
      ≡ text "/run/user/" ++ (uid ++ text "/anytalk.sock")
join-uid uid (h, plain, relative) =
    let some_uid = not_empty uid h in
    let under =
      join-relative (text "/run/user") uid refl (unfold ends_with_slash in refl) relative in
    let ends = ends_with_slash-append (text "/run/user/") uid some_uid ∙ plain in
    ap (λ (d : Text). join d (text "anytalk.sock")) under
    ∙ join-relative (text "/run/user/" ++ uid) (text "anytalk.sock") refl ends
        (unfold starts_with in refl)
    ∙ append_assoc (text "/run/user/") uid (text "/anytalk.sock")

sockets_uid :
    (env : Env) (o : Option Text)
    → env (text "UID") ≡ o
    → Relative o
    → env (text "XDG_RUNTIME_DIR") ≡ none
    → anytalk_socket_path env ≡ socket_path env
unfolding anytalk_socket_path socket_path
sockets_uid env none at h unset = ground (arith, at, unset)
sockets_uid env (some uid) at h unset =
    ground (arith, at, unset, h.0, not_empty uid h.0, join-uid uid h)

sockets_dir :
    (env : Env) (dir : Text)
    → env (text "XDG_RUNTIME_DIR") ≡ some dir
    → Plain (some dir)
    → anytalk_socket_path env ≡ socket_path env
unfolding anytalk_socket_path socket_path
sockets_dir env dir at (h, plain) = ground (arith, at, h, not_empty dir h, join-socket dir h plain)

-- Where XDG_RUNTIME_DIR is not set or holds a path that is not blank and does not end with a slash,
-- and UID is not set or holds such a path that is relative, the plugin connects to the very path on
-- which the daemon listens.
pub anytalk_socket_path-eq-socket_path :
    (env : Env)
    → Plain (env (text "XDG_RUNTIME_DIR"))
    → Relative (env (text "UID"))
    → anytalk_socket_path env ≡ socket_path env
anytalk_socket_path-eq-socket_path env plain relative =
    elim (Option-cases (env (text "XDG_RUNTIME_DIR"))) [
      | inl unset ↦ sockets_uid env (env (text "UID")) refl relative unset
      | inr (dir, at) ↦ sockets_dir env dir at (subst Plain at plain)
    ]
