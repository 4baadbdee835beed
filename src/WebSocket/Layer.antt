-- ===== src/WebSocket/Layer.antt =====
-- What the two roles of caf/net/web_socket/client.hpp and caf/net/web_socket/server.hpp share: the
-- framing layer on top of them as a record of operations, and the lines of `consume` that are the same
-- in both.
use incubator.Prelude.{ℕ, Bool, if◌then◌else◌, Option, length}
use incubator.Bytes.{Bytes, NetworkOrder}
use incubator.Net.Consumed.{Consumed, taken, failed}
use incubator.Net.Error.{Error, make_error, too_many_characters}
use incubator.Net.Down.{Down, begin_output, end_output, abort_reason}
use incubator.WebSocket.Framing.{Framing, add_taken, consume, init}
use incubator.WebSocket.Handshake.{write_http_1_header_too_large}
use incubator.WebSocket.Http.{is_empty}

-- `upper_layer_` with a state `U` of its own; `C` are the settings.
pub record Layer (C U : Type 0) : Type 0 where
  pub init : C → U → Down → Option Error × U × Down
  pub prepare_send : U → Down → Bool × U × Down
  pub done_sending : U → Down → Bool × U × Down
  pub abort : Error → U → Down → U × Down
  pub consume : Bytes → Bytes → U → Down → Consumed × U × Down

-- The application on top of the framing.
pub record Application (C V : Type 0) : Type 0 where
  pub init : C → V → Framing → Option Error × V × Framing
  pub prepare_send : V → Framing → Bool × V × Framing
  pub done_sending : V → Framing → Bool × V × Framing
  pub abort : Error → V → Framing → V × Framing
  pub consume_text : Bytes → V → Framing → Bool × V × Framing
  pub consume_binary : Bytes → V → Framing → Bool × V × Framing

module _ ⦃net : NetworkOrder⦄ {C V : Type 0} (seeded : ℕ → ℕ) (app : Application C V) where
  abbrev below {κ} : {A : Type κ} → A × V × Framing → A × (V × Framing) × Down
  below (a, v, f) = (a, (v, f), f.down)

  abbrev above : Framing → Down → Framing
  above f d = record f { down = d }

  abbrev init_framing : C → V × Framing → Down → Option Error × (V × Framing) × Down
  init_framing cfg (v, f) d = below (app.init cfg v (init seeded (above f d)))

  abbrev prepare_framing : V × Framing → Down → Bool × (V × Framing) × Down
  prepare_framing (v, f) d = below (app.prepare_send v (above f d))

  abbrev done_framing : V × Framing → Down → Bool × (V × Framing) × Down
  done_framing (v, f) d = below (app.done_sending v (above f d))

  abbrev aborted : V × Framing → (V × Framing) × Down
  aborted (v, f) = ((v, f), f.down)

  abbrev abort_framing : Error → V × Framing → Down → (V × Framing) × Down
  abort_framing e (v, f) d = aborted (app.abort e v (above f d))

  abbrev consume_framing : Bytes → Bytes → V × Framing → Down → Consumed × (V × Framing) × Down
  consume_framing input delta (v, f) d =
      below (consume app.consume_text app.consume_binary input v (above f d))

  -- framing.hpp as such a layer, on top of a lower layer. The generator is seeded when the layer is
  -- initialized.
  abbrev pub framing_layer : Layer C (V × Framing)
  framing_layer = record {
    init = init_framing;
    prepare_send = prepare_framing;
    done_sending = done_framing;
    abort = abort_framing;
    consume = consume_framing;
  }

-- The answer to a header that is too large.
abbrev pub too_large : Down → Down
too_large d =
    let d' = begin_output d in
    abort_reason (make_error too_many_characters "exceeded maximum header size")
      (end_output (record d' { write_buf = write_http_1_header_too_large d'.write_buf }))

abbrev counted : {R U : Type 0} → ℕ → R → Consumed × U × Down → Consumed × R × U × Down
counted n role (r, u, d) = (add_taken n r, role, u, d)

-- The lines of `consume` behind the call of handle_header; `R` is the role, client or server.
abbrev pub after_header :
    {C R U : Type 0} → Layer C U → Bytes → Bytes → Bool × R × U × Down → Consumed × R × U × Down
after_header upper hdr remainder (ok, role, u, d) =
    if ok
    then (if is_empty remainder
        then (taken (length hdr), role, u, d)
        else counted (length hdr) role (upper.consume remainder remainder u d))
    else (failed, role, u, d)

abbrev pub with_role : {A R U : Type 0} → R → A × U × Down → A × R × U × Down
with_role role (a, u, d) = (a, role, u, d)
