-- ===== src/WebSocket/Tests/HandshakeTests.antt =====
-- The opening handshake on a concrete request.
use incubator.Prelude.{
  ◌+◌, ◌≡◌, ◌≢◌, refl, sym, ap, ◌∙◌, arith, Bool, true, false, none, some, List, [], ◌∷◌, ◌++◌,
  length, drop, Bool-cases, inl, inr,
}
use incubator.Bytes.{Bytes, big_endian}
use incubator.Net.Consumed.{taken, failed}
use incubator.Net.Error.{make_error, runtime_error}
use incubator.Net.Down.{Down}
use incubator.WebSocket.Framing.{Framing, nil_code}
use incubator.WebSocket.Http.{text, nl, is_empty, same_text, cut, split, trim, lowercase_equal}
use incubator.WebSocket.Http.Cuts.{lacks, lacks_parts, cut_nowhere}
use incubator.WebSocket.Handshake
use incubator.WebSocket.Handshake.{
  Handshake, find_field, max_http_size, write_http_1_request, response_key, split_http_1_header,
  write_http_1_response, is_valid_http_1_response,
}
use incubator.WebSocket.Handshake.Request.{IsRequest}
use incubator.WebSocket.Handshake.Response.{same_text_refl}
use incubator.WebSocket.Handshake.Accepted.{IsAnswer, same_text→eq}
use incubator.WebSocket.Layer.{Layer, Application, framing_layer}
use incubator.WebSocket.Server
use incubator.WebSocket.Server.{Settings, Server}
use incubator.WebSocket.Server.Opening.{request_awaited}
use incubator.WebSocket.Client
use incubator.WebSocket.Client.{Client, with_random_key}
use incubator.WebSocket.Client.Opening.{refusal, response_refused}
use incubator.WebSocket.Opening.{StartsQuietly, opening_completes}
use incubator.WebSocket.Tests.Base64.{standard}

-- Settings as a list of fields, the last one first.
abbrev Fields : Type 0
Fields = List (Bytes × Bytes)

get-put_same : (name value : Bytes) (c : Fields) → find_field name ((name, value) ∷ c) ≡ some value
unfolding find_field
get-put_same name value c = rw (same_text_refl name) refl

get-put_other :
    (name other value : Bytes) (c : Fields)
    → name ≢ other
    → find_field name ((other, value) ∷ c) ≡ find_field name c
unfolding find_field
get-put_other name other value c h = elim (Bool-cases (same_text name other)) [
  | inl e ↦ absurd (h (same_text→eq name other e))
  | inr e ↦ rw e refl
]

abbrev listed : Settings Fields
listed = record {
  open_web_socket = λ c. c;
  put = λ name value c. c;
  open_fields = λ c. c;
  put_field = λ name value c. (name, value) ∷ c;
  get_field = find_field;
  get-put_same = λ name value c h. get-put_same name value c;
  get-put_other = λ name other value c h h' k. get-put_other name other value c k;
}

-- An application that collects the messages.
abbrev collecting : Application Fields (List Bytes)
collecting = record {
  init = λ cfg got f. (none, got, f);
  prepare_send = λ got f. (true, got, f);
  done_sending = λ got f. (true, got, f);
  abort = λ e got f. (got, f);
  consume_text = λ m got f. (true, got ++ (m ∷ []), f);
  consume_binary = λ m got f. (true, got ++ (m ∷ []), f);
}

abbrev layer : Layer Fields (List Bytes × Framing)
layer = framing_layer (λ i. 17 + i) collecting

abbrev quiet_down : Down
quiet_down = record {
  write_buf = [];
  max_write_buf_size = 100;
  min_read_size = 0;
  max_read_size = 0;
  registered = [];
  reason = none;
}

abbrev framing : Bool → Framing
framing masked = record {
  mask_outgoing_frames = masked;
  binary_buf = [];
  text_buf = [];
  rng = λ i. i;
  opcode = nil_code;
  payload_buf = [];
  down = quiet_down;
}

layer-StartsQuietly : StartsQuietly layer
layer-StartsQuietly cfg (got, f) d = ((got, record f { rng = λ i. 17 + i; down = d }), refl)

abbrev nonce : Bytes
nonce = text "the sample nonce"

abbrev chat : Handshake
chat = record {
  key = nonce;
  fields =
      (text "Origin", text "http://example.com")
      ∷ (text "Sec-WebSocket-Protocol", text "chat, superchat")
      ∷ (text "_endpoint", text "/chat")
      ∷ (text "_host", text "server.example.com")
      ∷ [];
}

chat_built :
    record (Handshake.protocols (text "chat, superchat") (
      Handshake.origin (text "http://example.com") (
        Handshake.host
          (text "server.example.com")
          (Handshake.endpoint (text "/chat") Handshake.init)))) { key = nonce }
    ≡ chat
unfolding Handshake.set_field
chat_built = refl

ne_of : (xs ys : Bytes) → same_text xs ys ≡ false → xs ≢ ys
ne_of xs ys h e = cc (ap (same_text xs) e, same_text_refl xs)

chat-IsRequest : IsRequest chat
unfolding Handshake.lookup
chat-IsRequest = record {
  bytes = omega arith;
  key_length = refl;
  endpoint_plain = refl;
  host_plain = refl;
  fields_own = (
    record {
      solid = refl;
      no_colon = refl;
      no_dot = refl;
      name_plain = refl;
      value_plain = refl;
      own = ne_of (text "Sec-WebSocket-Key") (text "Origin") refl;
    },
    (
      record {
        solid = refl;
        no_colon = refl;
        no_dot = refl;
        name_plain = refl;
        value_plain = refl;
        own = ne_of (text "Sec-WebSocket-Key") (text "Sec-WebSocket-Protocol") refl;
      },
      (
        record {
          solid = refl;
          no_colon = refl;
          no_dot = refl;
          name_plain = refl;
          value_plain = refl;
          own = ne_of (text "Sec-WebSocket-Key") (text "_endpoint") refl;
        },
        (
          record {
            solid = refl;
            no_colon = refl;
            no_dot = refl;
            name_plain = refl;
            value_plain = refl;
            own = ne_of (text "Sec-WebSocket-Key") (text "_host") refl;
          },
          tt,
        ),
      ),
    ),
  );
}

chat_with_key : with_random_key (λ i. i) chat ≡ chat
unfolding Handshake.has_valid_key
chat_with_key = refl

chat_fields : Handshake.has_mandatory_fields chat ≡ true
unfolding Handshake.has_mandatory_fields
chat_fields = refl

abbrev waiting : Client Fields
waiting = record { handshake = some chat; cfg = [] }

abbrev fresh : Server Fields
fresh = record { handshake_complete = false; cfg = [] }

opening_completes_example :
    (c' : Client Fields) × (dc' : Down) × (s' : Server Fields) × (ds' : Down) × (u' : List Bytes
      × Framing)
    × (v' : List Bytes × Framing) × (Client.init (λ i. i) [] waiting quiet_down ≡ (none, c', dc'))
    × (Server.consume listed layer dc'.write_buf dc'.write_buf fresh ([], framing false) quiet_down
        ≡ (taken (length dc'.write_buf), s', u', ds'))
    × (s'.handshake_complete ≡ true)
    × (Client.consume layer ds'.write_buf ds'.write_buf c' ([], framing true) dc'
        ≡ (taken (length ds'.write_buf), record c' { handshake = none }, v', dc'))
opening_completes_example =
    opening_completes listed layer layer (λ i. i) chat [] waiting quiet_down ([], framing true)
      fresh quiet_down ([], framing false) refl chat_fields (rw chat_with_key chat-IsRequest) refl
      refl refl layer-StartsQuietly layer-StartsQuietly

-- A request that is cut within its first line.
abbrev begun : Bytes
begun = text "GET /chat HT"

abbrev missing : Bytes
missing = drop 12 (write_http_1_request chat [])

begun_missing : begun ++ missing ≡ write_http_1_request chat []
unfolding write_http_1_request Handshake.lookup Handshake.write_fields
begun_missing = refl

missing_filled : is_empty missing ≡ false
unfolding write_http_1_request Handshake.lookup Handshake.write_fields
missing_filled = refl

request_awaited_example :
    Server.consume listed layer begun begun fresh ([], framing false) quiet_down
    ≡ (taken 0, fresh, ([], framing false), quiet_down)
request_awaited_example =
    request_awaited listed chat chat-IsRequest layer fresh ([], framing false) quiet_down begun
      missing begun refl begun_missing missing_filled

abbrev bad_request : Bytes
bad_request = text "HTTP/1.1 400 Bad Request" ++ (nl ++ nl)

no_value : (line : Bytes) → lacks b':' line ≡ true → trim (split line (text ":")).1 ≡ []
unfolding trim split
no_value line h = rw (cut_nowhere b':' [] line h) refl

websocket_filled : lowercase_equal [] (text "websocket") ≢ true
unfolding lowercase_equal
websocket_filled e = cc

bad_request-IsAnswer : (key : Bytes) → IsAnswer key bad_request → ⊥
bad_request-IsAnswer key answer =
    let (line, (front, back, e), field, value) = answer.upgrade in
    let plain : lacks b':' (front ++ (line ++ (nl ++ back))) ≡ true = ap (lacks b':') (sym e) in
    let in_line =
      lacks_parts b':' line (nl ++ back) (lacks_parts b':' front (line ++ (nl ++ back)) plain).1 in
    let empty : lowercase_equal [] (text "websocket") ≡ true =
      sym (ap (λ (t : Bytes). lowercase_equal t (text "websocket")) (no_value line in_line.0))
      ∙ value in
    websocket_filled empty

bad_split : split_http_1_header bad_request ≡ (bad_request, [])
unfolding split_http_1_header cut
bad_split = refl

response_refused_example :
    (Client.consume layer bad_request bad_request waiting ([], framing true) quiet_down ≡ (
      failed,
      record waiting { handshake = none },
      ([], framing true),
      refusal layer chat waiting ([], framing true) quiet_down refl,
    ))
    × (Client.abort layer
          (make_error runtime_error "")
          (record waiting { handshake = none })
          ([], framing true)
          (refusal layer chat waiting ([], framing true) quiet_down refl)
        ≡ layer.abort
            (make_error runtime_error "")
            ([], framing true)
            (refusal layer chat waiting ([], framing true) quiet_down refl))
response_refused_example =
    response_refused layer chat waiting ([], framing true) quiet_down refl bad_request bad_request
      bad_request [] (make_error runtime_error "") bad_split refl
      (bad_request-IsAnswer (response_key chat))
