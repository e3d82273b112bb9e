-- ===== src/Plugin/Messages/Wire.antt =====
-- What the daemon writes is what the plugin's callbacks get.
use fcitx5_anytalk.Prelude.{
  ℕ, false, ◌≡◌, refl, sym, ◌∙◌, ap, Option, none, some, List, [], ◌∷◌, ◌++◌, map, concat, arith,
  append_assoc,
}
use fcitx5_anytalk.Text.{Text, text, text_eq, is_empty}
use fcitx5_anytalk.Text.Utf8.{as_bytes, encode_char}
use fcitx5_anytalk.Ipc.Msg.{ServerMsg, status, partial, final, error, serialize_msg}
use fcitx5_anytalk.Plugin.Lines.{find, receive_all}
use fcitx5_anytalk.Plugin.Lines.Split.{split_lines, split_lines-ends, receive_all-lines}
use fcitx5_anytalk.Plugin.Messages.{
  JsonC, Callback, on_partial, on_final, on_status, c_str, deliver, dispatch, handle_json_message,
  handle_lines,
}

-- The fields of a server message.
abbrev pub kind_of : ServerMsg → Text
kind_of (status s) = text "status"
kind_of (partial t) = text "partial"
kind_of (final t) = text "final"
kind_of (error m) = text "error"

abbrev pub key_of : ServerMsg → Text
key_of (status s) = text "state"
key_of (partial t) = text "text"
key_of (final t) = text "text"
key_of (error m) = text "message"

abbrev pub value_of : ServerMsg → Text
value_of (status s) = s
value_of (partial t) = t
value_of (final t) = t
value_of (error m) = m

-- What the two JSON libraries do together: serde_json writes a message as one line, an object that
-- json-c reads with the same two members.
pub record IsWire (json : JsonC) (to_string : ServerMsg → Option Text) : Type 0 where
  pub line : ServerMsg → Text
  pub writes : (msg : ServerMsg) → to_string msg ≡ some (line msg)
  pub one_line : (msg : ServerMsg) → find 0x0a (as_bytes (line msg)) ≡ none
  pub some_bytes : (msg : ServerMsg) → is_empty (as_bytes (line msg)) ≡ false
  pub object : ServerMsg → json.Object
  pub reads : (msg : ServerMsg) → json.parse (c_str (as_bytes (line msg))) ≡ some (object msg)
  pub type_of : ServerMsg → json.Object
  pub has_type : (msg : ServerMsg) → json.get_ex (object msg) (text "type") ≡ some (type_of msg)
  pub type_string : (msg : ServerMsg) → json.get_string (type_of msg) ≡ some (kind_of msg)
  pub member : ServerMsg → json.Object
  pub has_member : (msg : ServerMsg) → json.get_ex (object msg) (key_of msg) ≡ some (member msg)
  pub member_string :
      (msg : ServerMsg) → json.get_string (member msg) ≡ some (as_bytes (value_of msg))

-- The callback of a message; an error has none.
abbrev pub callbacks_of : ServerMsg → List Callback
callbacks_of (status s) = on_status (c_str (as_bytes s)) ∷ []
callbacks_of (partial t) = on_partial (c_str (as_bytes t)) ∷ []
callbacks_of (final t) = on_final (c_str (as_bytes t)) ∷ []
callbacks_of (error m) = []

-- What `dispatch` calls for a message that is no error.
abbrev on_kind : ServerMsg → List ℕ → Callback
on_kind (status s) = on_status
on_kind (partial t) = on_partial
on_kind (final t) = on_final
on_kind (error m) = on_partial

-- The bytes that the daemon writes for messages.
abbrev pub wire_bytes : (ServerMsg → Option Text) → List ServerMsg → List ℕ
wire_bytes to_string [] = []
wire_bytes to_string (msg ∷ msgs) =
    as_bytes (serialize_msg to_string msg) ++ wire_bytes to_string msgs

as_bytes-append : (s t : Text) → as_bytes (s ++ t) ≡ as_bytes s ++ as_bytes t
unfolding as_bytes
as_bytes-append [] t = refl
as_bytes-append (c ∷ cs) t =
    ap (λ (r : List ℕ). encode_char c ++ r) (as_bytes-append cs t)
    ∙ sym (append_assoc (encode_char c) (as_bytes cs) (as_bytes t))

module _ (json : JsonC) (to_string : ServerMsg → Option Text) (wire : IsWire json to_string) where
  open wire use {line}

  -- The line of a message is taken by its type.
  handle-dispatch :
      (msg : ServerMsg)
      → handle_json_message json (as_bytes (line msg))
        ≡ dispatch json (wire.object msg) (kind_of msg)
  unfolding handle_json_message
  handle-dispatch msg =
      ground (arith, wire.some_bytes msg, wire.reads msg, wire.has_type msg, wire.type_string msg)

  deliver-member :
      (msg : ServerMsg) (callback : List ℕ → Callback)
      → deliver json (wire.object msg) (key_of msg) callback
        ≡ some (callback (c_str (as_bytes (value_of msg))) ∷ [])
  unfolding deliver
  deliver-member msg callback = ground (arith, wire.has_member msg, wire.member_string msg)

  -- The comparisons on the four types.
  dispatch-error :
      (m : Text) (obj : json.Object)
      → dispatch json obj (kind_of (error m)) ≡ some (callbacks_of (error m))
  unfolding dispatch text_eq c_str
  dispatch-error m obj = refl

  dispatch-kind :
      (msg : ServerMsg) (obj : json.Object)
      → deliver json obj (key_of msg) (on_kind msg) ≡ some (callbacks_of msg)
      → dispatch json obj (kind_of msg) ≡ some (callbacks_of msg)
  unfolding dispatch text_eq c_str
  dispatch-kind (status s) obj h = h
  dispatch-kind (partial t) obj h = h
  dispatch-kind (final t) obj h = h
  dispatch-kind (error m) obj h = refl

  handle-callbacks :
      (msg : ServerMsg) → handle_json_message json (as_bytes (line msg)) ≡ some (callbacks_of msg)
  handle-callbacks msg = handle-dispatch msg ∙ dispatch_member msg
    where
      dispatch_member :
          (msg : ServerMsg)
          → dispatch json (wire.object msg) (kind_of msg) ≡ some (callbacks_of msg)
      dispatch_member (status s) =
          dispatch-kind (status s) (wire.object (status s)) (deliver-member (status s) on_status)
      dispatch_member (partial t) =
          dispatch-kind (partial t) (wire.object (partial t))
            (deliver-member (partial t) on_partial)
      dispatch_member (final t) =
          dispatch-kind (final t) (wire.object (final t)) (deliver-member (final t) on_final)
      dispatch_member (error m) = dispatch-error m (wire.object (error m))

  wire-bytes :
      (msg : ServerMsg)
      → as_bytes (serialize_msg to_string msg) ≡ as_bytes (line msg) ++ (0x0a ∷ [])
  unfolding serialize_msg
  wire-bytes msg =
      rw (wire.writes msg, serialize_msg)
        (as_bytes-append (line msg) (0x0a ∷ []) ∙ (unfold as_bytes encode_char in refl))

  -- The lines of the bytes are those of the messages.
  wire-lines :
      (msgs : List ServerMsg)
      → split_lines (wire_bytes to_string msgs) ≡ (map (λ msg. as_bytes (line msg)) msgs, [])
  wire-lines [] = refl
  wire-lines (msg ∷ msgs) =
      ap (λ (b : List ℕ). split_lines (b ++ wire_bytes to_string msgs)) (wire-bytes msg)
      ∙ ap split_lines (append_assoc (as_bytes (line msg)) (0x0a ∷ []) (wire_bytes to_string msgs))
      ∙ split_lines-ends (as_bytes (line msg)) (wire_bytes to_string msgs) (wire.one_line msg)
      ∙ ap (λ (r : List (List ℕ) × List ℕ). (as_bytes (line msg) ∷ r.0, r.1)) (wire-lines msgs)

  lines-callbacks :
      (msgs : List ServerMsg)
      → handle_lines json (map (λ msg. as_bytes (line msg)) msgs)
        ≡ some (concat (map callbacks_of msgs))
  unfolding handle_lines
  lines-callbacks [] = refl
  lines-callbacks (msg ∷ msgs) = rw (handle-callbacks msg, lines-callbacks msgs) refl

  -- Where the two JSON libraries read what each other writes, the messages that the daemon writes, in
  -- whatever chunks their bytes come, call the plugin's callbacks once for each message in order:
  -- with the state of a status and the text of a partial or final message, each up to its first
  -- null byte, and with nothing for an error. No bytes are left over.
  pub receive-callbacks :
      (msgs : List ServerMsg) (chunks : List (List ℕ))
      → concat chunks ≡ wire_bytes to_string msgs
      → let received = receive_all [] chunks in
        (handle_lines json (received.0) ≡ some (concat (map callbacks_of msgs))) × (received.1 ≡ [])
  receive-callbacks msgs chunks same =
      let lines = receive_all-lines [] chunks refl ∙ ap split_lines same ∙ wire-lines msgs in
      (
        ap (λ (r : List (List ℕ) × List ℕ). handle_lines json (r.0)) lines ∙ lines-callbacks msgs,
        ap (λ (r : List (List ℕ) × List ℕ). r.1) lines,
      )
