-- ===== src/WebSocket/Handshake/Request.antt =====
-- The request that a client writes, as a header of lines.
use incubator.Prelude.{
  ◌≡◌, ◌≢◌, refl, ap, sym, ◌∙◌, true, false, ◌==◌, if◌then◌else◌, List, [], ◌∷◌, ◌++◌, append-nil,
  append_assoc, arith, length, Bool-cases, inl, inr,
}
use incubator.Bytes.{Bytes, AreBytes}
use incubator.WebSocket.Http.{text, nl, is_empty}
use incubator.WebSocket.Http.Cuts.{lacks, lacks-append}
use incubator.WebSocket.Http.Lines.{IsLine, AreLines, render}
use incubator.WebSocket.Http.Trimming.{is_solid}
use incubator.WebSocket.Handshake.{
  Digest, Handshake, lookup, first_char, write_fields, write_http_1_request,
}
use incubator.WebSocket.Handshake.Response.{lacks-IsBase64}

-- A field of its own, which no server takes for another: its name is a plain word, and neither part
-- ends the line.
pub record IsField (name value : Bytes) : Type 0 where
  pub solid : is_solid name ≡ true
  pub no_colon : lacks b':' name ≡ true
  pub no_dot : lacks b'.' name ≡ true
  pub name_plain : lacks 13 name ≡ true
  pub value_plain : lacks 13 value ≡ true
  pub own : text "Sec-WebSocket-Key" ≢ name

abbrev pub AreFields : List (Bytes × Bytes) → Type 0
AreFields [] = Unit {0}
AreFields ((k, v) ∷ fields) = IsField k v × AreFields fields

pub record IsRequest (h : Handshake) : Type 0 where
  pub bytes : AreBytes h.key
  pub key_length : length h.key ≡ 16
  pub endpoint_plain : lacks 13 (lookup (text "_endpoint") h) ≡ true
  pub host_plain : lacks 13 (lookup (text "_host") h) ≡ true
  pub fields_own : AreFields h.fields

abbrev pub field_line : Bytes → Bytes → Bytes
field_line k v = k ++ (text ": " ++ v)

-- The fields that are not for the first two lines.
abbrev pub field_lines : List (Bytes × Bytes) → List Bytes
field_lines [] = []
field_lines ((k, v) ∷ fields) =
    if first_char k == b'_' then field_lines fields else field_line k v ∷ field_lines fields

pub write_fields-render :
    (fields : List (Bytes × Bytes)) (out : Bytes)
    → write_fields fields out ≡ out ++ render (field_lines fields)
unfolding write_fields
write_fields-render [] out = sym (append-nil out)
write_fields-render ((k, v) ∷ fields) out = elim (Bool-cases (first_char k == b'_')) [
  | inl hidden ↦ rw hidden (write_fields-render fields out)
  | inr shown ↦
      rw shown
        (write_fields-render fields ((((out ++ k) ++ text ": ") ++ v) ++ nl) ∙ simp (append_assoc))
]

field_line-IsLine : (k v : Bytes) → IsField k v → IsLine (field_line k v)
field_line-IsLine k v h = record {
  filled = filled k;
  plain =
      lacks-append 13 k (text ": " ++ v) h.name_plain
        (lacks-append 13 (text ": ") v refl h.value_plain);
}
  where
    filled : (k : Bytes) → is_empty (field_line k v) ≡ false
    filled [] = refl
    filled (c ∷ cs) = refl

pub field_lines-AreLines :
    (fields : List (Bytes × Bytes)) → AreFields fields → AreLines (field_lines fields)
field_lines-AreLines [] h = tt
field_lines-AreLines ((k, v) ∷ fields) h = elim (Bool-cases (first_char k == b'_')) [
  | inl hidden ↦ rw hidden (field_lines-AreLines fields h.1)
  | inr shown ↦ rw shown ((field_line-IsLine k v h.0, field_lines-AreLines fields h.1))
]

module _ ⦃digest : Digest⦄ (h : Handshake) where
  abbrev pub request_line : Bytes
  request_line = text "GET " ++ (lookup (text "_endpoint") h ++ text " HTTP/1.1")

  abbrev pub key_line : Bytes
  key_line = text "Sec-WebSocket-Key: " ++ digest.base64_encode h.key

  abbrev pub first_lines : List Bytes
  first_lines =
      (text "Host: " ++ lookup (text "_host") h)
      ∷ text "Upgrade: websocket"
      ∷ text "Connection: Upgrade"
      ∷ text "Sec-WebSocket-Version: 13"
      ∷ key_line
      ∷ []

  abbrev pub request_lines : List Bytes
  request_lines = first_lines ++ field_lines h.fields

  pub write_http_1_request-render :
      (buf : Bytes)
      → write_http_1_request h buf ≡ buf ++ (render (request_line ∷ request_lines) ++ nl)
  unfolding write_http_1_request
  write_http_1_request-render buf =
      ap (λ (t : Bytes). t ++ nl) (write_fields-render h.fields _) ∙ simp (append_assoc)

  key_plain : IsRequest h → lacks 13 (digest.base64_encode h.key) ≡ true
  key_plain r =
      lacks-IsBase64 13 (digest.base64_encode h.key) (omega arith)
        (digest.encode-IsBase64 h.key r.bytes)

  pub request_lines-AreLines : IsRequest h → AreLines (request_line ∷ request_lines)
  request_lines-AreLines r = (
    record {
      filled = refl;
      plain =
          lacks-append 13 (lookup (text "_endpoint") h) (text " HTTP/1.1") r.endpoint_plain refl;
    },
    (
      record { filled = refl; plain = r.host_plain },
      (
        record { filled = refl; plain = refl },
        (
          record { filled = refl; plain = refl },
          (
            record { filled = refl; plain = refl },
            (
              record { filled = refl; plain = key_plain r },
              field_lines-AreLines h.fields r.fields_own,
            ),
          ),
        ),
      ),
    ),
  )
