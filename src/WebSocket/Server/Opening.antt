-- ===== src/WebSocket/Server/Opening.antt =====
-- The server side of an opening handshake: a request as a client writes it is read and answered, and
-- an incomplete one waits.
use incubator.Prelude.{
  ℕ, ◌≡◌, refl, ap, sym, ◌∙◌, Bool, true, false, leb, ◌==◌, if◌then◌else◌, Option, some, List, [],
  ◌∷◌, ◌++◌, append_assoc, arith, length, length-append, drop, drop_prefix, Bool-cases, inl, inr,
}
use incubator.Bytes.{Bytes, AreBytes}
use incubator.Net.Consumed.{taken, failed}
use incubator.Net.Down.{Down}
use incubator.WebSocket.Http.{text, nl, is_empty, cut, split, split2, trim_blanks, same_text}
use incubator.WebSocket.Http.Cuts.{lacks, cut_at, split_at}
use incubator.WebSocket.Http.Lines.{
  render, fold_lines, fold_lines-append, for_each-header, plain-AreLines,
}
use incubator.WebSocket.Http.Trimming.{trim_blanks_solid, trim_blanks_word}
use incubator.WebSocket.Handshake.{
  Digest, Handshake, first_char, lookup, assign_key, write_http_1_request, split_http_1_header,
  max_http_size,
}
use incubator.WebSocket.Handshake
use incubator.WebSocket.Handshake.Header.{split_http_1_header-render, split_http_1_header_short}
use incubator.WebSocket.Handshake.Response.{is_solid-IsBase64}
use incubator.WebSocket.Handshake.Request.{
  IsField, AreFields, IsRequest, field_line, field_lines, request_line, key_line, request_lines,
  write_http_1_request-render, request_lines-AreLines,
}
use incubator.WebSocket.Layer.{Layer, after_header, too_large, with_role}
use incubator.WebSocket.Server.{
  Settings, Server, with_first_line, with_request, with_split, method_of, put_line, store_request,
  answered, opened, handle_header, consume,
}

-- The key that a client sends is the key that the server takes.
pub assign_key-encode :
    ⦃digest : Digest⦄ (h : Handshake)
    → AreBytes h.key
    → length h.key ≡ 16
    → assign_key (digest.base64_encode h.key) Handshake.init
      ≡ (true, record Handshake.init { key = h.key })
unfolding assign_key
assign_key-encode ⦃digest⦄ h bytes size =
    let (front, n, e) = digest.encode_key h.key bytes size in
    let long : length (digest.base64_encode h.key) ≡ 24 =
      ap (length {A = ℕ}) e ∙ length-append {0} front (text "==") ∙ omega arith in
    let padded : drop 22 (digest.base64_encode h.key) ≡ text "==" =
      ap (drop 22) e ∙ drop_prefix front (text "==") 22 n in
    rw (long, padded, digest.decode-encode h.key bytes) refl

module _ {C : Type 0} (settings : Settings C) where
  put_own :
      (k v : Bytes) (c : C)
      → IsField k v
      → settings.get_field
          (text "Sec-WebSocket-Key")
          (if is_empty k then c else settings.put_field k (trim_blanks (32 ∷ v)) c)
        ≡ settings.get_field (text "Sec-WebSocket-Key") c
  put_own [] v c h = refl
  put_own (b ∷ bs) v c h = settings.get-put_other _ (b ∷ bs) _ c refl h.no_dot h.own

  put_line_field :
      (k v : Bytes) (c : C)
      → IsField k v
      → settings.get_field (text "Sec-WebSocket-Key") (put_line settings (field_line k v) c)
        ≡ settings.get_field (text "Sec-WebSocket-Key") c
  unfolding put_line
  put_line_field k v c h =
      rw (cut_at b':' [] k (32 ∷ v) h.no_colon, trim_blanks_word k h.solid) (put_own k v c h)

  get-field_lines :
      (fields : List (Bytes × Bytes)) (c : C)
      → AreFields fields
      → settings.get_field
          (text "Sec-WebSocket-Key")
          (fold_lines (put_line settings) (field_lines fields) c)
        ≡ settings.get_field (text "Sec-WebSocket-Key") c
  get-field_lines [] c h = refl
  get-field_lines ((k, v) ∷ fields) c h = elim (Bool-cases (first_char k == b'_')) [
    | inl hidden ↦ rw hidden (get-field_lines fields c h.1)
    | inr shown ↦ rw shown (
        get-field_lines fields (put_line settings (field_line k v) c) h.1
        ∙ put_line_field k v c h.0)
  ]

  put_line-key :
      ⦃digest : Digest⦄ (h : Handshake) (c : C)
      → AreBytes h.key
      → put_line settings (key_line h) c
        ≡ settings.put_field (text "Sec-WebSocket-Key") (digest.base64_encode h.key) c
  unfolding put_line
  put_line-key ⦃digest⦄ h c bytes =
      rw
        (
          cut_at b':' [] (text "Sec-WebSocket-Key") (32 ∷ digest.base64_encode h.key) refl,
          trim_blanks_word (text "Sec-WebSocket-Key") refl,
          trim_blanks_solid (digest.base64_encode h.key)
              (is_solid-IsBase64 _ (digest.encode-IsBase64 h.key bytes)),
        )
        refl

-- The steps of the server on any texts.
module _ {C U : Type 0} (settings : Settings C) (upper : Layer C U) ⦃digest : Digest⦄ (s : Server C)
    (u : U) (d : Down) where
  with_request_lem :
      (request : Bytes × Bytes × Bytes) (remainder skey : Bytes) (hs : Handshake) (cfg : C)
      → same_text (method_of request) (text "GET") ≡ true
      → store_request settings request remainder (settings.open_web_socket s.cfg) ≡ cfg
      → settings.get_field (text "Sec-WebSocket-Key") cfg ≡ some skey
      → assign_key skey Handshake.init ≡ (true, hs)
      → with_request settings upper s u d request remainder
        ≡ opened (record s { cfg = cfg }) (upper.init cfg u (answered hs d))
  with_request_lem request remainder skey hs cfg get kept found taken_key =
      rw (get, kept, found, taken_key) refl

  handle_header_lem :
      (first_line remainder : Bytes)
      → lacks 13 first_line ≡ true
      → handle_header settings upper (first_line ++ (nl ++ remainder)) s u d
        ≡ with_request settings upper s u d (split2 first_line (text " ")) remainder
  unfolding handle_header
  handle_header_lem first_line remainder h =
      ap (with_first_line settings upper s u d) (split_at 13 (10 ∷ []) first_line remainder h)

  consume_lem :
      (input delta hdr remainder : Bytes)
      → s.handshake_complete ≡ false
      → split_http_1_header input ≡ (hdr, remainder)
      → consume settings upper input delta s u d
        ≡ with_split settings upper input s u d (hdr, remainder)
  unfolding consume
  consume_lem input delta hdr remainder fresh e =
      ap
        (λ (b : Bool).
          if b
          then with_role s (upper.consume input delta u d)
          else with_split settings upper input s u d (split_http_1_header input))
        fresh
      ∙ ap (with_split settings upper input s u d) e

  taken_header :
      (input hdr remainder : Bytes)
      → is_empty hdr ≡ false
      → with_split settings upper input s u d (hdr, remainder)
        ≡ after_header upper hdr remainder (handle_header settings upper hdr s u d)
  taken_header input hdr remainder h = rw h refl

-- The settings once the request is read.
abbrev pub stored : {C : Type 0} → Settings C → ⦃digest : Digest⦄ → Handshake → C → C
stored settings h c =
    store_request settings (split2 (request_line h) (text " ")) (render (request_lines h) ++ nl)
      (settings.open_web_socket c)

abbrev get_key : {C : Type 0} → Settings C → C → Option Bytes
get_key settings c = settings.get_field (text "Sec-WebSocket-Key") c

module _ {C : Type 0} (settings : Settings C) ⦃digest : Digest⦄ (h : Handshake)
    (r : IsRequest h) where
  put_empty : (c : C) → put_line settings [] c ≡ c
  unfolding put_line cut
  put_empty c = refl

  folded-key :
      (c : C)
      → get_key settings (fold_lines (put_line settings) (request_lines h ++ ([] ∷ [])) c)
        ≡ some (digest.base64_encode h.key)
  folded-key c =
      let f = put_line settings in
      let before = f (text "Sec-WebSocket-Version: 13") (
        f (text "Connection: Upgrade")
          (f (text "Upgrade: websocket") (f (text "Host: " ++ lookup (text "_host") h) c))) in
      ap (get_key settings) (
        fold_lines-append f (field_lines h.fields) ([] ∷ []) (f (key_line h) before)
        ∙ put_empty (fold_lines f (field_lines h.fields) (f (key_line h) before)))
      ∙ get-field_lines settings h.fields (f (key_line h) before) r.fields_own
      ∙ ap (get_key settings) (put_line-key settings h before r.bytes)
      ∙ settings.get-put_same (text "Sec-WebSocket-Key") (digest.base64_encode h.key) before refl

  stored-key : (c : C) → get_key settings (stored settings h c) ≡ some (digest.base64_encode h.key)
  stored-key c =
      ap (get_key settings) (
        for_each-header (put_line settings) (request_lines h) _
          (plain-AreLines (request_lines h) (request_lines-AreLines h r).1))
      ∙ folded-key _

  method-get : same_text (split2 (request_line h) (text " ")).0 (text "GET") ≡ true
  unfolding split2 split cut
  method-get = refl

  module _ {U : Type 0} (upper : Layer C U) (s : Server C) (u : U) (d : Down) where
    -- What follows the request once it is read: the answer, and the upper layer.
    abbrev pub after_request : Bool × Server C × U × Down
    after_request =
        let cfg = stored settings h s.cfg in
        opened (record s { cfg = cfg }) (upper.init cfg u (answered h d))

    answered-key : answered (record Handshake.init { key = h.key }) d ≡ answered h d
    unfolding Handshake.write_http_1_response
    answered-key = refl

    header_handled :
        handle_header settings upper (render (request_line h ∷ request_lines h) ++ nl) s u d
        ≡ after_request
    header_handled =
        ap (λ (t : Bytes). handle_header settings upper t s u d)
          (append_assoc (request_line h) (nl ++ render (request_lines h)) nl)
        ∙ handle_header_lem settings upper s u d (request_line h) (render (request_lines h) ++ nl)
            (request_lines-AreLines h r).0.plain
        ∙ with_request_lem settings upper s u d (split2 (request_line h) (text " "))
            (render (request_lines h) ++ nl) (digest.base64_encode h.key)
            (record Handshake.init { key = h.key }) (stored settings h s.cfg) method-get refl
            (stored-key s.cfg) (assign_key-encode h r.bytes r.key_length)
        ∙ ap
            (λ (d' : Down).
              opened (record s { cfg = stored settings h s.cfg })
                (upper.init (stored settings h s.cfg) u d'))
            answered-key

    -- A request as a client writes it is read and answered, whatever follows it.
    pub request_answered :
        (rest delta : Bytes)
        → s.handshake_complete ≡ false
        → consume settings upper (write_http_1_request h [] ++ rest) delta s u d
          ≡ after_header upper (write_http_1_request h []) rest after_request
    request_answered rest delta fresh =
        let rendered = write_http_1_request-render h [] in
        let hdr = render (request_line h ∷ request_lines h) ++ nl in
        ap (λ (t : Bytes). consume settings upper (t ++ rest) delta s u d) rendered
        ∙ consume_lem settings upper s u d (hdr ++ rest) delta hdr rest fresh (
            ap split_http_1_header
              (append_assoc (render (request_line h ∷ request_lines h)) nl rest)
            ∙ split_http_1_header-render (request_line h) (request_lines h) rest
                (request_lines-AreLines h r))
        ∙ taken_header settings upper s u d (hdr ++ rest) hdr rest refl
        ∙ ap (after_header upper hdr rest) header_handled
        ∙ ap (λ (t : Bytes). after_header upper t rest after_request) (sym rendered)

    -- A part of a request that is short of its end waits for more: nothing is taken and nothing
    -- changes, unless there are as many bytes as a header may have.
    pub request_awaited :
        (part missing delta : Bytes)
        → s.handshake_complete ≡ false
        → part ++ missing ≡ write_http_1_request h []
        → is_empty missing ≡ false
        → consume settings upper part delta s u d ≡ (
            if leb max_http_size (length part)
            then (failed, s, u, too_large d)
            else (taken 0, s, u, d))
    request_awaited part missing delta fresh e filled =
        consume_lem settings upper s u d part delta [] part fresh (
          split_http_1_header_short (request_line h) (request_lines h) part missing
            (request_lines-AreLines h r) (e ∙ write_http_1_request-render h []) filled)
