-- ===== src/WebSocket/Handshake.antt =====
-- caf/net/web_socket/handshake.hpp and src/net/web_socket/handshake.cpp: the data of an opening
-- handshake, and the HTTP messages of it. Base 64 and SHA-1 belong to the CAF core library: they are
-- a parameter, `Digest`, with what their documents promise as its laws.
pub mod Header
pub mod Request
pub mod Response
pub mod Accepted
use incubator.Prelude.{
  ℕ, zero, suc, ◌+◌, ◌≡◌, Bool, true, false, not, ◌&&◌, ◌||◌, leb, ltb, ◌==◌, if◌then◌else◌, Option,
  none, some, List, [], ◌∷◌, ◌++◌, length, take, drop, replicate, All,
}
use incubator.Bytes.{Bytes, AreBytes}
use incubator.WebSocket.Http.{
  text, nl, end_of_header, is_empty, same_text, starts_with, cut, split, split2, trim,
  lowercase_equal, for_each_http_line,
}

abbrev pub max_http_size : ℕ
max_http_size = 2048

-- The characters of base 64 and its padding.
abbrev pub is_base64 : ℕ → Bool
is_base64 c =
    (leb b'A' c && leb c b'Z')
    || (leb b'a' c && leb c b'z')
    || (leb b'0' c && leb c b'9')
    || c == b'+'
    || c == b'/'
    || c == b'='

-- detail::base64 and hash::sha1.
pub record Digest : Type 0 where
  pub base64_encode : Bytes → Bytes
  pub base64_decode : Bytes → Option Bytes
  pub sha1 : Bytes → Bytes
  pub sha1-AreBytes : (bs : Bytes) → AreBytes (sha1 bs)
  pub encode-IsBase64 :
      (bs : Bytes) → AreBytes bs → All (λ c. is_base64 c ≡ true) (base64_encode bs)
  pub decode-encode : (bs : Bytes) → AreBytes bs → base64_decode (base64_encode bs) ≡ some bs
  -- A rest of one byte takes two characters and two of padding.
  pub encode_key :
      (bs : Bytes)
      → AreBytes bs
      → length bs ≡ 16
      → (front : Bytes) × (length front ≡ 22) × (base64_encode bs ≡ front ++ (b'=' ∷ b'=' ∷ []))

-- `fields_` is a dictionary, sorted by its keys.
pub record Handshake : Type 0 where
  pub key : Bytes
  pub fields : List (Bytes × Bytes)

-- `x < y` on two texts.
abbrev pub less_text : Bytes → Bytes → Bool
less_text xs [] = false
less_text [] (y ∷ ys) = true
less_text (x ∷ xs) (y ∷ ys) = ltb x y || (x == y && less_text xs ys)

-- `fields[name] = value`
unfoldable pub set_field : Bytes → Bytes → List (Bytes × Bytes) → List (Bytes × Bytes)
set_field name value [] = (name, value) ∷ []
set_field name value ((k, v) ∷ fields) =
    if same_text name k
    then (name, value) ∷ fields
    else if less_text name k
    then (name, value) ∷ (k, v) ∷ fields
    else (k, v) ∷ set_field name value fields

unfoldable pub find_field : Bytes → List (Bytes × Bytes) → Option Bytes
find_field name [] = none
find_field name ((k, v) ∷ fields) = if same_text name k then some v else find_field name fields

abbrev pub init : Handshake
init = record { key = replicate 16 0; fields = [] }

abbrev pub endpoint : Bytes → Handshake → Handshake
endpoint value h = record h { fields = set_field (text "_endpoint") value h.fields }

abbrev pub host : Bytes → Handshake → Handshake
host value h = record h { fields = set_field (text "_host") value h.fields }

abbrev pub origin : Bytes → Handshake → Handshake
origin value h = record h { fields = set_field (text "Origin") value h.fields }

abbrev pub protocols : Bytes → Handshake → Handshake
protocols value h = record h { fields = set_field (text "Sec-WebSocket-Protocol") value h.fields }

abbrev pub extensions : Bytes → Handshake → Handshake
extensions value h = record h {
  fields = set_field (text "Sec-WebSocket-Extensions") value h.fields;
}

abbrev any_non_zero : Bytes → Bool
any_non_zero [] = false
any_non_zero (x ∷ xs) = not (x == 0) || any_non_zero xs

unfoldable pub has_valid_key : Handshake → Bool
has_valid_key h = any_non_zero h.key

abbrev is_found : Option Bytes → Bool
is_found none = false
is_found (some v) = true

unfoldable pub has_mandatory_fields : Handshake → Bool
unfolding find_field
has_mandatory_fields h =
    is_found (find_field (text "_endpoint") h.fields)
    && is_found (find_field (text "_host") h.fields)

abbrev or_empty : Option Bytes → Bytes
or_empty none = []
or_empty (some v) = v

unfoldable pub lookup : Bytes → Handshake → Bytes
unfolding find_field
lookup name h = or_empty (find_field name h.fields)

abbrev draw_key : ℕ → (ℕ → ℕ) → Bytes
draw_key zero rng = []
draw_key (suc n) rng = rng 0 ∷ draw_key n (λ i. rng (suc i))

-- The generator is the sequence of the numbers from 0 to 255 that it is going to give.
abbrev pub randomize_key : (ℕ → ℕ) → Handshake → Handshake
randomize_key rng h = record h { key = draw_key 16 rng }

-- `key[0]`, which is 0 in an empty text.
abbrev pub first_char : Bytes → ℕ
first_char [] = 0
first_char (c ∷ cs) = c

-- The writer appends to the buffer.
infixl 65 ◌<<◌
abbrev pub ◌<<◌ : Bytes → Bytes → Bytes
out << str = out ++ str

abbrev pub write_field : Bytes → Bytes → Bytes → Bytes
write_field k v out = if first_char k == b'_' then out else out << k << text ": " << v << nl

unfoldable pub write_fields : List (Bytes × Bytes) → Bytes → Bytes
write_fields [] out = out
write_fields ((k, v) ∷ fields) out = write_fields fields (write_field k v out)

unfoldable pub write_http_1_header_too_large : Bytes → Bytes
write_http_1_header_too_large buf =
    buf
    << text "HTTP/1.1 431 Request Header Fields Too Large"
    << nl
    << text "Content-Type: text/plain"
    << nl
    << nl
    << text "Header exceeds 2048 Bytes."
    << nl

-- What the checker of a response keeps.
pub record ResponseChecker : Type 0 where
  pub has_status_101 : Bool
  pub has_upgrade_field : Bool
  pub has_connection_field : Bool
  pub has_ws_accept_field : Bool

abbrev pub unchecked : ResponseChecker
unchecked = record {
  has_status_101 = false;
  has_upgrade_field = false;
  has_connection_field = false;
  has_ws_accept_field = false;
}

abbrev pub checker_ok : ResponseChecker → Bool
checker_ok c =
    c.has_status_101 && c.has_upgrade_field && c.has_connection_field && c.has_ws_accept_field

abbrev pub check_field : Bytes → Bytes → Bytes → ResponseChecker → ResponseChecker
check_field ws_key field value c =
    if same_text field (text "Upgrade")
    then record c { has_upgrade_field = lowercase_equal value (text "websocket") }
    else if same_text field (text "Connection")
    then record c { has_connection_field = lowercase_equal value (text "upgrade") }
    else if same_text field (text "Sec-WebSocket-Accept")
    then record c { has_ws_accept_field = same_text value ws_key }
    else c

abbrev pub second_of : Bytes × Bytes × Bytes → Bytes
second_of (a, b, c) = b

abbrev pub trimmed_field : Bytes → Bytes × Bytes → ResponseChecker → ResponseChecker
trimmed_field ws_key (field, value) c = check_field ws_key (trim field) (trim value) c

unfoldable pub check_line : Bytes → Bytes → ResponseChecker → ResponseChecker
check_line ws_key line c =
    if starts_with line (text "HTTP/1")
    then record c { has_status_101 = same_text (second_of (split2 line (text " "))) (text "101") }
    else trimmed_field ws_key (split line (text ":")) c

abbrev pub at_end : Bytes → Option (Bytes × Bytes) → Bytes × Bytes
at_end bytes none = ([], bytes)
at_end bytes (some (before, after)) =
    let offset = length before + 4 in (take offset bytes, drop offset bytes)

-- An incomplete header gives an empty first part.
unfoldable pub split_http_1_header : Bytes → Bytes × Bytes
split_http_1_header bytes = at_end bytes (cut end_of_header bytes)

module _ ⦃digest : Digest⦄ where
  abbrev assigned : Handshake → Option Bytes → Bool × Handshake
  assigned h none = (false, h)
  assigned h (some buf) = (true, record h { key = buf })

  -- The source asserts that the decoded key has 16 bytes.
  unfoldable pub assign_key : Bytes → Handshake → Bool × Handshake
  assign_key base64_key h =
      if length base64_key == 24 && same_text (drop 22 base64_key) (text "==")
      then assigned h (digest.base64_decode base64_key)
      else (false, h)

  unfoldable pub response_key : Handshake → Bytes
  response_key h =
      digest.base64_encode
        (digest.sha1 (digest.base64_encode h.key ++ text "258EAFA5-E914-47DA-95CA-C5AB0DC85B11"))

  unfoldable pub write_http_1_request : Handshake → Bytes → Bytes
  unfolding write_fields
  write_http_1_request h buf =
      let out =
        buf
        << text "GET "
        << lookup (text "_endpoint") h
        << text " HTTP/1.1"
        << nl
        << text "Host: "
        << lookup (text "_host") h
        << nl
        << text "Upgrade: websocket"
        << nl
        << text "Connection: Upgrade"
        << nl
        << text "Sec-WebSocket-Version: 13"
        << nl
        << text "Sec-WebSocket-Key: "
        << digest.base64_encode h.key
        << nl in
      write_fields h.fields out << nl

  unfoldable pub write_http_1_response : Handshake → Bytes → Bytes
  unfolding response_key
  write_http_1_response h buf =
      buf
      << text "HTTP/1.1 101 Switching Protocols"
      << nl
      << text "Upgrade: websocket"
      << nl
      << text "Connection: Upgrade"
      << nl
      << text "Sec-WebSocket-Accept: "
      << response_key h
      << nl
      << nl

  -- The source computes the key of the response once more, by the same steps as `response_key`.
  unfoldable pub is_valid_http_1_response : Handshake → Bytes → Bool
  unfolding response_key check_line
  is_valid_http_1_response h http_response =
      checker_ok (for_each_http_line (check_line (response_key h)) http_response unchecked)
