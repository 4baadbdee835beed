-- ===== src/WebSocket/Handshake/Response.antt =====
-- What a server answers, and what a client accepts.
use incubator.Prelude.{
  ℕ, ◌<◌, ◌≡◌, refl, ap, ◌∙◌, true, List, [], ◌∷◌, ◌++◌, append_assoc, All, arith, if◌then◌else◌,
}
use incubator.Bytes.{Bytes}
use incubator.WebSocket.Http.{
  text, nl, is_empty, same_text, split, split2, trim, lowercase_equal, for_each_http_line, cut,
}
use incubator.WebSocket.Http.Trimming.{is_solid, trim_solid}
use incubator.WebSocket.Http.Cuts.{lacks, split_at}
use incubator.WebSocket.Http.Lines.{AreLines, plain-AreLines, render, fold_lines}
use incubator.WebSocket.Handshake.Header.{for_each_http_line-render}
use incubator.WebSocket.Handshake.{
  Digest, is_base64, Handshake, response_key, write_http_1_response, ResponseChecker, unchecked,
  check_line, is_valid_http_1_response, checker_ok,
}

abbrev pub IsBase64 : Bytes → Type 0
IsBase64 bs = All (λ c. is_base64 c ≡ true) bs

pub same_text_refl : (xs : Bytes) → same_text xs xs ≡ true
same_text_refl [] = refl
same_text_refl (x ∷ xs) = ground (arith, same_text_refl xs)

-- A byte below the characters of base 64.
pub lacks-IsBase64 : (p : ℕ) (bs : Bytes) → p < 43 → IsBase64 bs → lacks p bs ≡ true
lacks-IsBase64 p [] h k = refl
lacks-IsBase64 p (c ∷ cs) h k = ground (arith, lacks-IsBase64 p cs)

pub is_solid-IsBase64 : (bs : Bytes) → IsBase64 bs → is_solid bs ≡ true
is_solid-IsBase64 [] k = refl
is_solid-IsBase64 (c ∷ cs) k = ground (arith, is_solid-IsBase64 cs k.1)

-- The lines of a response as the checker sees them.
check_status :
    (key : Bytes) (c : ResponseChecker)
    → check_line key (text "HTTP/1.1 101 Switching Protocols") c
      ≡ record c { has_status_101 = true }
unfolding check_line split2 split cut
check_status key c = refl

check_upgrade :
    (key : Bytes) (c : ResponseChecker)
    → check_line key (text "Upgrade: websocket") c ≡ record c { has_upgrade_field = true }
unfolding check_line split2 split cut trim lowercase_equal
check_upgrade key c = refl

check_connection :
    (key : Bytes) (c : ResponseChecker)
    → check_line key (text "Connection: Upgrade") c ≡ record c { has_connection_field = true }
unfolding check_line split2 split cut trim lowercase_equal
check_connection key c = refl

check_accept :
    (key other : Bytes) (c : ResponseChecker)
    → is_solid other ≡ true
    → check_line key (text "Sec-WebSocket-Accept: " ++ other) c
      ≡ record c { has_ws_accept_field = same_text other key }
unfolding check_line trim
check_accept key other c h =
    rw (split_at b':' [] (text "Sec-WebSocket-Accept") (32 ∷ other) refl, trim_solid other h) refl

abbrev pub status_line : Bytes
status_line = text "HTTP/1.1 101 Switching Protocols"

-- The callback of for_each_http_line with the test of for_each_http_line.
abbrev check_http_line : Bytes → Bytes → ResponseChecker → ResponseChecker
check_http_line key line c = if is_empty line then c else check_line key line c

module _ ⦃digest : Digest⦄ (h : Handshake) where
  abbrev pub answer_lines : List Bytes
  answer_lines =
      text "Upgrade: websocket"
      ∷ text "Connection: Upgrade"
      ∷ (text "Sec-WebSocket-Accept: " ++ response_key h)
      ∷ []

  abbrev pub response_lines : List Bytes
  response_lines = status_line ∷ answer_lines

  pub write_http_1_response-render :
      (buf : Bytes) → write_http_1_response h buf ≡ buf ++ (render response_lines ++ nl)
  unfolding write_http_1_response
  write_http_1_response-render buf = simp (append_assoc)

  module _ (key-IsBase64 : IsBase64 (response_key h)) where
    checked_lines :
        (c : ResponseChecker)
        → checker_ok (fold_lines (check_http_line (response_key h)) (response_lines ++ ([] ∷ [])) c)
          ≡ true
    checked_lines c =
        rw
          (
            check_status (response_key h) c,
            check_upgrade (response_key h) (record c { has_status_101 = true }),
            check_connection (response_key h)
                (record c { has_status_101 = true; has_upgrade_field = true }),
            check_accept (response_key h) (response_key h)
                (record c {
                  has_status_101 = true;
                  has_upgrade_field = true;
                  has_connection_field = true;
                })
                (is_solid-IsBase64 (response_key h) key-IsBase64),
          )
          (same_text_refl (response_key h))

  pub response_key-IsBase64 : IsBase64 (response_key h)
  unfolding response_key
  response_key-IsBase64 = digest.encode-IsBase64 _ (digest.sha1-AreBytes _)

  pub response_lines-AreLines : AreLines response_lines
  response_lines-AreLines = (
    record { filled = refl; plain = refl },
    (
      record { filled = refl; plain = refl },
      (
        record { filled = refl; plain = refl },
        (
          record {
            filled = refl;
            plain = lacks-IsBase64 13 (response_key h) (omega arith) response_key-IsBase64;
          },
          tt,
        ),
      ),
    ),
  )

  -- The answer of a server for the key is accepted.
  pub response_accepted : is_valid_http_1_response h (write_http_1_response h []) ≡ true
  unfolding is_valid_http_1_response
  response_accepted =
      ap (λ (t : Bytes). checker_ok (for_each_http_line (check_line (response_key h)) t unchecked))
        (write_http_1_response-render [])
      ∙ ap checker_ok (
          for_each_http_line-render (check_line (response_key h)) response_lines unchecked
            (plain-AreLines response_lines response_lines-AreLines))
      ∙ checked_lines response_key-IsBase64 unchecked
