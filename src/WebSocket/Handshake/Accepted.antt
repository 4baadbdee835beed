-- ===== src/WebSocket/Handshake/Accepted.antt =====
-- A response that a client accepts has the lines that RFC 6455 asks for.
use incubator.Prelude.{suc, ◌≡◌, refl, true, [], ◌∷◌, arith, length, inl, inr, Bool-cases}
use incubator.Bytes.{Bytes}
use incubator.WebSocket.Http.{
  text, same_text, split, split2, trim, lowercase_equal, for_each_line, for_each_http_line,
  starts_with,
}
use incubator.WebSocket.Http.Lines.{InText, for_each_inv}
use incubator.WebSocket.Handshake.Header.{unless_empty}
use incubator.WebSocket.Handshake.{
  Digest, Handshake, response_key, ResponseChecker, unchecked, checker_ok, check_field, check_line,
  is_valid_http_1_response,
}

pub same_text→eq : (xs ys : Bytes) → same_text xs ys ≡ true → xs ≡ ys
same_text→eq [] [] h = refl
same_text→eq [] (y ∷ ys) h = absurd (cc)
same_text→eq (x ∷ xs) [] h = absurd (cc)
same_text→eq (x ∷ xs) (y ∷ ys) h = ground (arith, same_text→eq xs ys)

-- The second word of a line.
abbrev pub second_word : Bytes → Bytes
second_word line = (split2 line (text " ")).1

abbrev pub field_of : Bytes → Bytes
field_of line = trim (split line (text ":")).0

abbrev pub value_of : Bytes → Bytes
value_of line = trim (split line (text ":")).1

-- What the response needs, as lines of it.
pub record HasLines (key whole : Bytes) (c : ResponseChecker) : Type 0 where
  pub status :
      c.has_status_101 ≡ true
      → (line : Bytes) × InText line whole
        × (starts_with line (text "HTTP/1") ≡ true)
        × (second_word line ≡ text "101")
  pub upgrade :
      c.has_upgrade_field ≡ true
      → (line : Bytes) × InText line whole
        × (field_of line ≡ text "Upgrade")
        × (lowercase_equal (value_of line) (text "websocket") ≡ true)
  pub connection :
      c.has_connection_field ≡ true
      → (line : Bytes) × InText line whole
        × (field_of line ≡ text "Connection")
        × (lowercase_equal (value_of line) (text "upgrade") ≡ true)
  pub accept :
      c.has_ws_accept_field ≡ true
      → (line : Bytes) × InText line whole
        × (field_of line ≡ text "Sec-WebSocket-Accept")
        × (value_of line ≡ key)

module _ (key whole line : Bytes) (c : ResponseChecker) (on : InText line whole)
    (h : HasLines key whole c) where
  check_field-HasLines : HasLines key whole (check_field key (field_of line) (value_of line) c)
  check_field-HasLines = elim (Bool-cases (same_text (field_of line) (text "Upgrade"))) [
    | inl e ↦ rw e (record {
      status = h.status;
      upgrade = λ ok. (line, on, same_text→eq (field_of line) (text "Upgrade") e, ok);
      connection = h.connection;
      accept = h.accept;
    })
    | inr e ↦ rw e (elim (Bool-cases (same_text (field_of line) (text "Connection"))) [
      | inl e' ↦ rw e' (record {
        status = h.status;
        upgrade = h.upgrade;
        connection = λ ok. (line, on, same_text→eq (field_of line) (text "Connection") e', ok);
        accept = h.accept;
      })
      | inr e' ↦
          rw e' (elim (Bool-cases (same_text (field_of line) (text "Sec-WebSocket-Accept"))) [
            | inl e'' ↦ rw e'' (record {
              status = h.status;
              upgrade = h.upgrade;
              connection = h.connection;
              accept = λ ok. (
                line,
                on,
                same_text→eq (field_of line) (text "Sec-WebSocket-Accept") e'',
                same_text→eq (value_of line) key ok,
              );
            })
            | inr e'' ↦ rw e'' h
          ])
    ])
  ]

  check_line-HasLines : HasLines key whole (check_line key line c)
  unfolding check_line
  check_line-HasLines = elim (Bool-cases (starts_with line (text "HTTP/1"))) [
    | inl status ↦ rw status (record {
      status = λ e. (line, on, status, same_text→eq (second_word line) (text "101") e);
      upgrade = h.upgrade;
      connection = h.connection;
      accept = h.accept;
    })
    | inr other ↦ rw other check_field-HasLines
  ]

check_http_line-HasLines :
    (key whole line : Bytes) (c : ResponseChecker)
    → InText line whole
    → HasLines key whole c
    → HasLines key whole (unless_empty (check_line key) line c)
check_http_line-HasLines key whole [] c on h = h
check_http_line-HasLines key whole (b ∷ bs) c on h = check_line-HasLines key whole (b ∷ bs) c on h

-- What a client asks of a response: a status line with the code 101, the two fields of the upgrade,
-- and the key that belongs to its own.
pub record IsAnswer (key whole : Bytes) : Type 0 where
  pub status :
      (line : Bytes) × InText line whole
      × (starts_with line (text "HTTP/1") ≡ true)
      × (second_word line ≡ text "101")
  pub upgrade :
      (line : Bytes) × InText line whole
      × (field_of line ≡ text "Upgrade")
      × (lowercase_equal (value_of line) (text "websocket") ≡ true)
  pub connection :
      (line : Bytes) × InText line whole
      × (field_of line ≡ text "Connection")
      × (lowercase_equal (value_of line) (text "upgrade") ≡ true)
  pub accept :
      (line : Bytes) × InText line whole
      × (field_of line ≡ text "Sec-WebSocket-Accept")
      × (value_of line ≡ key)

HasLines-IsAnswer :
    (key whole : Bytes) (c : ResponseChecker)
    → HasLines key whole c
    → checker_ok c ≡ true
    → IsAnswer key whole
HasLines-IsAnswer key whole c h ok = record {
  status = h.status (ground arith);
  upgrade = h.upgrade (ground arith);
  connection = h.connection (ground arith);
  accept = h.accept (ground arith);
}

unchecked-HasLines : (key whole : Bytes) → HasLines key whole unchecked
unchecked-HasLines key whole = record {
  status = λ e. absurd (cc);
  upgrade = λ e. absurd (cc);
  connection = λ e. absurd (cc);
  accept = λ e. absurd (cc);
}

pub accepted-IsAnswer :
    ⦃digest : Digest⦄ (h : Handshake) (response : Bytes)
    → is_valid_http_1_response h response ≡ true
    → IsAnswer (response_key h) response
unfolding is_valid_http_1_response for_each_http_line
accepted-IsAnswer h response ok =
    let key = response_key h in
    HasLines-IsAnswer key response
      (for_each_line (unless_empty (check_line key)) (suc (length response)) response unchecked)
      (for_each_inv (HasLines key response) (unless_empty (check_line key)) response
        (check_http_line-HasLines key response) (suc (length response)) [] response unchecked refl
        (unchecked-HasLines key response))
      ok
