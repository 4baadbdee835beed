-- ===== src/WebSocket/Client/Opening.antt =====
-- The client side of an opening handshake: which responses it takes.
use incubator.Prelude.{
  ◌≡◌, refl, ap, sym, ◌∙◌, Bool, true, false, none, some, [], ◌++◌, append_assoc, Bool-cases, inl,
  inr,
}
use incubator.Bytes.{Bytes}
use incubator.Net.Consumed.{failed}
use incubator.Net.Error.{Error, make_error, runtime_error}
use incubator.Net.Down.{Down, abort_reason}
use incubator.WebSocket.Http.{nl, is_empty}
use incubator.WebSocket.Http.Lines.{render}
use incubator.WebSocket.Handshake.{
  Digest, Handshake, response_key, write_http_1_response, is_valid_http_1_response,
  split_http_1_header,
}
use incubator.WebSocket.Handshake.Header.{split_http_1_header-render}
use incubator.WebSocket.Handshake.Response.{
  status_line, answer_lines, response_lines, response_lines-AreLines, write_http_1_response-render,
  response_accepted,
}
use incubator.WebSocket.Handshake.Accepted.{IsAnswer, accepted-IsAnswer}
use incubator.WebSocket.Layer.{Layer, after_header}
use incubator.WebSocket.Client.{
  Client, opened, checked, handle_header, with_split, consume_with, consume, abort,
}

module _ {C U : Type 0} (upper : Layer C U) ⦃digest : Digest⦄ (h : Handshake) (c : Client C) (u : U)
    (d : Down) (waiting : c.handshake ≡ some h) where
  consume_lem :
      (input delta hdr remainder : Bytes)
      → split_http_1_header input ≡ (hdr, remainder)
      → consume upper input delta c u d ≡ with_split upper input h c u d (hdr, remainder)
  unfolding consume
  consume_lem input delta hdr remainder e =
      ap (consume_with upper input delta c u d) waiting ∙ ap (with_split upper input h c u d) e

  taken_header :
      (input hdr remainder : Bytes)
      → is_empty hdr ≡ false
      → with_split upper input h c u d (hdr, remainder)
        ≡ after_header upper hdr remainder (handle_header upper hdr h c u d)
  taken_header input hdr remainder e = rw e refl

  handle_header_lem :
      (hdr : Bytes) (ok : Bool)
      → is_valid_http_1_response h hdr ≡ ok
      → handle_header upper hdr h c u d ≡ checked upper (record c { handshake = none }) u d ok
  unfolding handle_header
  handle_header_lem hdr ok e = ap (checked upper (record c { handshake = none }) u d) e

  -- The answer to the request is taken, whatever follows it, and the upper layer is initialized.
  pub response_completes :
      (rest delta : Bytes)
      → consume upper (write_http_1_response h [] ++ rest) delta c u d
        ≡ after_header upper
            (write_http_1_response h [])
            rest
            (opened (record c { handshake = none }) (upper.init c.cfg u d))
  response_completes rest delta =
      let rendered = write_http_1_response-render h [] in
      let hdr = render (response_lines h) ++ nl in
      ap (λ (t : Bytes). consume upper (t ++ rest) delta c u d) rendered
      ∙ consume_lem (hdr ++ rest) delta hdr rest (
          ap split_http_1_header (append_assoc (render (response_lines h)) nl rest)
          ∙ split_http_1_header-render status_line (answer_lines h) rest
              (response_lines-AreLines h))
      ∙ taken_header (hdr ++ rest) hdr rest refl
      ∙ ap (after_header upper hdr rest) (
          handle_header_lem hdr true
            (ap (is_valid_http_1_response h) (sym rendered) ∙ response_accepted h))
      ∙ ap
          (λ (t : Bytes).
            after_header upper t rest
              (opened (record c { handshake = none }) (upper.init c.cfg u d)))
          (sym rendered)

  invalid :
      (hdr : Bytes) → ¬ (IsAnswer (response_key h) hdr) → is_valid_http_1_response h hdr ≡ false
  invalid hdr wrong = elim (Bool-cases (is_valid_http_1_response h hdr)) [
    | inl ok ↦ absurd (wrong (accepted-IsAnswer h hdr ok))
    | inr e ↦ e
  ]

  abbrev pub refusal : Down
  refusal =
      abort_reason
        (make_error runtime_error "received invalid WebSocket handshake response from server") d

  -- A header that lacks one of the lines of an answer is refused, and the upper layer is not
  -- initialized. Still the handshake counts as completed from then on: the abort that follows is
  -- passed on to the upper layer.
  pub response_refused :
      (input delta hdr remainder : Bytes) (reason : Error)
      → split_http_1_header input ≡ (hdr, remainder)
      → is_empty hdr ≡ false
      → ¬ (IsAnswer (response_key h) hdr)
      → (consume upper input delta c u d ≡ (failed, record c { handshake = none }, u, refusal))
        × (abort upper reason (record c { handshake = none }) u refusal
            ≡ upper.abort reason u refusal)
  unfolding abort
  response_refused input delta hdr remainder reason e filled wrong = (
    consume_lem input delta hdr remainder e
        ∙ taken_header input hdr remainder filled
        ∙ ap (after_header upper hdr remainder) (handle_header_lem hdr false (invalid hdr wrong)),
    refl,
  )
