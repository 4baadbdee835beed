-- ===== src/WebSocket/Client.antt =====
-- caf/net/web_socket/client.hpp: the role of a client.
pub mod Opening
use incubator.Prelude.{Bool, true, false, leb, if◌then◌else◌, Option, none, some, length, ℕ}
use incubator.Bytes.{Bytes}
use incubator.Net.Consumed.{Consumed, taken, failed}
use incubator.Net.Error.{Error, make_error, runtime_error}
use incubator.Net.ReceivePolicy.{up_to}
use incubator.Net.Down.{Down, begin_output, end_output, abort_reason, configure_read}
use incubator.WebSocket.Http.{is_empty}
use incubator.WebSocket.Handshake.{
  Handshake, Digest, max_http_size, has_mandatory_fields, has_valid_key, randomize_key,
  write_http_1_request, is_valid_http_1_response, split_http_1_header,
}
use incubator.WebSocket.Layer.{Layer, too_large, after_header, with_role}

-- The handshake is there until it completed.
pub record Client (C : Type 0) : Type 0 where
  pub handshake : Option Handshake
  pub cfg : C

abbrev pub handshake_complete : {C : Type 0} → Client C → Bool
handshake_complete c = elim (c.handshake) [ none ↦ true | some hs ↦ false ]

abbrev pub with_random_key : (ℕ → ℕ) → Handshake → Handshake
with_random_key rng hs = if has_valid_key hs then hs else randomize_key rng hs

module _ ⦃digest : Digest⦄ where
  abbrev pub requested : Handshake → Down → Down
  requested hs d =
      let d' = begin_output d in
      let written = end_output (record d' { write_buf = write_http_1_request hs d'.write_buf }) in
      configure_read (up_to max_http_size) written

  module _ {C : Type 0} where
    abbrev init_with :
        (ℕ → ℕ) → C → Client C → Down → Option Handshake → Option Error × Client C × Down
    init_with rng cfg c d none = (none, c, d)
    init_with rng cfg c d (some hs) =
        let hs' = with_random_key rng hs in
        if has_mandatory_fields hs
        then (none, record { handshake = some hs'; cfg = cfg }, requested hs' d)
        else (some (make_error runtime_error "handshake data lacks mandatory fields"), c, d)

    -- The source asserts that the handshake is there.
    unfoldable pub init : (ℕ → ℕ) → C → Client C → Down → Option Error × Client C × Down
    init rng cfg c d = init_with rng cfg c d c.handshake

abbrev pub opened : {C U : Type 0} → Client C → Option Error × U × Down → Bool × Client C × U × Down
opened c (none, u, d) = (true, c, u, d)
opened c (some err, u, d) = (false, c, u, abort_reason err d)

module _ {C U : Type 0} (upper : Layer C U) ⦃digest : Digest⦄ where
  abbrev pub checked : Client C → U → Down → Bool → Bool × Client C × U × Down
  checked c u d true = opened c (upper.init c.cfg u d)
  checked c u d false = (
    false,
    c,
    u,
    abort_reason
        (make_error runtime_error "received invalid WebSocket handshake response from server") d,
  )

  -- The handshake is dropped, whatever the response is.
  unfoldable pub handle_header :
      Bytes → Handshake → Client C → U → Down → Bool × Client C × U × Down
  handle_header http hs c u d =
      checked (record c { handshake = none }) u d (is_valid_http_1_response hs http)

  abbrev pub with_split :
      Bytes → Handshake → Client C → U → Down → Bytes × Bytes → Consumed × Client C × U × Down
  with_split input hs c u d (hdr, remainder) =
      if is_empty hdr
      then (if leb max_http_size (length input)
          then (failed, c, u, too_large d)
          else (taken 0, c, u, d))
      else after_header upper hdr remainder (handle_header hdr hs c u d)

  abbrev consume_with :
      Bytes → Bytes → Client C → U → Down → Option Handshake → Consumed × Client C × U × Down
  consume_with input delta c u d none = with_role c (upper.consume input delta u d)
  consume_with input delta c u d (some hs) = with_split input hs c u d (split_http_1_header input)

  unfoldable pub consume : Bytes → Bytes → Client C → U → Down → Consumed × Client C × U × Down
  unfolding handle_header
  consume input delta c u d = consume_with input delta c u d c.handshake

  abbrev pub prepare_send : Client C → U → Down → Bool × U × Down
  prepare_send c u d = if handshake_complete c then upper.prepare_send u d else (true, u, d)

  abbrev pub done_sending : Client C → U → Down → Bool × U × Down
  done_sending c u d = if handshake_complete c then upper.done_sending u d else (true, u, d)

  unfoldable pub abort : Error → Client C → U → Down → U × Down
  abort reason c u d = if handshake_complete c then upper.abort reason u d else (u, d)
