-- ===== src/WebSocket/Server.antt =====
-- caf/net/web_socket/server.hpp: the role of a server. The dictionaries of the settings belong to the
-- CAF core library: they are a parameter, `Settings`.
pub mod Opening
use incubator.Prelude.{
  ℕ, suc, ◌≡◌, ◌≢◌, Bool, true, false, not, leb, if◌then◌else◌, Option, none, some, List, [], ◌∷◌,
  length,
}
use incubator.Bytes.{Bytes}
use incubator.Net.Consumed.{Consumed, taken, failed}
use incubator.Net.Error.{Error, make_error, invalid_argument, missing_field}
use incubator.Net.ReceivePolicy.{up_to}
use incubator.Net.Down.{Down, begin_output, end_output, abort_reason, configure_read}
use incubator.WebSocket.Http.{
  text, nl, is_empty, same_text, cut, split, split2, trim_blanks, for_each_line,
}
use incubator.WebSocket.Http.Cuts.{lacks}
use incubator.WebSocket.Handshake
use incubator.WebSocket.Handshake.{
  Handshake, Digest, max_http_size, assign_key, write_http_1_response, split_http_1_header,
}
use incubator.WebSocket.Layer.{Layer, too_large, after_header, with_role}

-- `cfg_["web-socket"]`, its entry "fields", and the access to them. A name with a dot is a path.
pub record Settings (C : Type 0) : Type 0 where
  pub open_web_socket : C → C
  pub put : Bytes → Bytes → C → C
  pub open_fields : C → C
  pub put_field : Bytes → Bytes → C → C
  pub get_field : Bytes → C → Option Bytes
  pub get-put_same :
      (name value : Bytes) (c : C)
      → lacks b'.' name ≡ true
      → get_field name (put_field name value c) ≡ some value
  pub get-put_other :
      (name other value : Bytes) (c : C)
      → lacks b'.' name ≡ true
      → lacks b'.' other ≡ true
      → name ≢ other
      → get_field name (put_field other value c) ≡ get_field name c

pub record Server (C : Type 0) : Type 0 where
  pub handshake_complete : Bool
  pub cfg : C

-- `init`, without the pointer to the owner.
abbrev pub init : {C : Type 0} → C → Server C → Down → Server C × Down
init cfg s d = (record s { cfg = cfg }, configure_read (up_to max_http_size) d)

abbrev pub method_of : Bytes × Bytes × Bytes → Bytes
method_of (method, request_uri, version) = method

-- The server handshake is sent.
abbrev pub answered : ⦃digest : Digest⦄ → Handshake → Down → Down
answered hs d =
    let d' = begin_output d in
    end_output (record d' { write_buf = write_http_1_response hs d'.write_buf })

abbrev pub try_key : ⦃digest : Digest⦄ → Option Bytes → Bool × Handshake
try_key none = (false, Handshake.init)
try_key (some skey) = assign_key skey Handshake.init

abbrev pub opened : {C U : Type 0} → Server C → Option Error × U × Down → Bool × Server C × U × Down
opened s (none, u, d) = (true, record s { handshake_complete = true }, u, d)
opened s (some err, u, d) = (false, s, u, abort_reason err d)

module _ {C U : Type 0} (upper : Layer C U) where
  abbrev pub prepare_send : Server C → U → Down → Bool × U × Down
  prepare_send s u d = if s.handshake_complete then upper.prepare_send u d else (true, u, d)

  abbrev pub done_sending : Server C → U → Down → Bool × U × Down
  done_sending s u d = if s.handshake_complete then upper.done_sending u d else (true, u, d)

  abbrev pub abort : Error → Server C → U → Down → U × Down
  abort reason s u d = if s.handshake_complete then upper.abort reason u d else (u, d)

module _ {C : Type 0} (settings : Settings C) where
  abbrev put_parts : C → Option (Bytes × Bytes) → C
  put_parts c none = c
  put_parts c (some (k, v)) =
      let key = trim_blanks k in
      if is_empty key then c else settings.put_field key (trim_blanks v) c

  -- The lambda of handle_header.
  unfoldable pub put_line : Bytes → C → C
  put_line line c = put_parts c (cut (text ":") line)

  -- The request line and the fields go into the settings.
  abbrev pub store_request : Bytes × Bytes × Bytes → Bytes → C → C
  store_request (method, request_uri, version) remainder c =
      let with_uri =
        settings.put (text "request-uri") request_uri (settings.put (text "method") method c) in
      let hdr = settings.open_fields (settings.put (text "http-version") version with_uri) in
      for_each_line put_line (suc (length remainder)) remainder hdr

  module _ {U : Type 0} (upper : Layer C U) ⦃digest : Digest⦄ where
    abbrev pub with_key : Server C → U → Down → Bool × Handshake → Bool × Server C × U × Down
    with_key s u d (true, hs) = opened s (upper.init s.cfg u (answered hs d))
    with_key s u d (false, hs) = (
      false,
      s,
      u,
      abort_reason (make_error missing_field "mandatory field Sec-WebSocket-Key missing or invalid")
          d,
    )

    abbrev pub with_request :
        Server C → U → Down → Bytes × Bytes × Bytes → Bytes → Bool × Server C × U × Down
    with_request s u d request remainder =
        let hdr = settings.open_web_socket s.cfg in
        let cfg = store_request request remainder hdr in
        if not (same_text (method_of request) (text "GET"))
        then (
          false,
          record s { cfg = hdr },
          u,
          abort_reason (make_error invalid_argument "invalid operation: expected GET, got ") d,
        )
        else with_key (record s { cfg = cfg }) u d
            (try_key (settings.get_field (text "Sec-WebSocket-Key") cfg))

    abbrev pub with_first_line : Server C → U → Down → Bytes × Bytes → Bool × Server C × U × Down
    with_first_line s u d (first_line, remainder) =
        with_request s u d (split2 first_line (text " ")) remainder

    -- The text of the first error goes on with the method, which is left out.
    unfoldable pub handle_header : Bytes → Server C → U → Down → Bool × Server C × U × Down
    unfolding put_line
    handle_header http s u d = with_first_line s u d (split http nl)

    abbrev pub with_split :
        Bytes → Server C → U → Down → Bytes × Bytes → Consumed × Server C × U × Down
    with_split input s u d (hdr, remainder) =
        if is_empty hdr
        then (if leb max_http_size (length input)
            then (failed, s, u, too_large d)
            else (taken 0, s, u, d))
        else after_header upper hdr remainder (handle_header hdr s u d)

    unfoldable pub consume : Bytes → Bytes → Server C → U → Down → Consumed × Server C × U × Down
    unfolding handle_header
    consume input delta s u d =
        if s.handshake_complete
        then with_role s (upper.consume input delta u d)
        else with_split input s u d (split_http_1_header input)
