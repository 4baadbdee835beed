-- ===== src/WebSocket/Opening.antt =====
-- The opening handshake between the two roles: caf/net/web_socket/client.hpp and
-- caf/net/web_socket/server.hpp together.
use incubator.Prelude.{
  ℕ, ◌≡◌, refl, ap, sym, ◌∙◌, Bool, true, false, none, some, [], ◌∷◌, ◌++◌, append-nil, length,
  if◌then◌else◌, Bool-cases, inl, inr,
}
use incubator.Bytes.{Bytes}
use incubator.Net.Consumed.{taken}
use incubator.Net.Operation.{write}
use incubator.Net.Down.{Down, begin_output}
use incubator.WebSocket.Http.{is_empty}
use incubator.WebSocket.Handshake.{
  Digest, Handshake, has_mandatory_fields, write_http_1_request, write_http_1_response,
}
use incubator.WebSocket.Handshake.Request.{IsRequest}
use incubator.WebSocket.Layer.{Layer, after_header}
use incubator.WebSocket.Server
use incubator.WebSocket.Server.{Settings, Server, answered}
use incubator.WebSocket.Server.Opening.{stored, request_answered}
use incubator.WebSocket.Client
use incubator.WebSocket.Client.{Client, with_random_key, requested}
use incubator.WebSocket.Client.Opening.{response_completes}

-- An upper layer whose initialization succeeds and writes nothing.
abbrev pub StartsQuietly : {C U : Type 0} → Layer C U → Type 0
StartsQuietly {C} {U} upper =
    (cfg : C) (u : U) (d : Down) → (u' : U) × (upper.init cfg u d ≡ (none, u', d))

begin_output-write_buf : (d : Down) → (begin_output d).write_buf ≡ d.write_buf
begin_output-write_buf d = elim (Bool-cases (is_empty d.write_buf)) [
  | inl e ↦
      ap
        (λ (b : Bool).
          (if b then record d { registered = d.registered ++ (write ∷ []) } else d).write_buf)
        e
  | inr e ↦
      ap
        (λ (b : Bool).
          (if b then record d { registered = d.registered ++ (write ∷ []) } else d).write_buf)
        e
]

module _ ⦃digest : Digest⦄ (hs : Handshake) (d : Down) (quiet : d.write_buf ≡ []) where
  requested-write_buf : (requested hs d).write_buf ≡ write_http_1_request hs []
  requested-write_buf = ap (write_http_1_request hs) (begin_output-write_buf d ∙ quiet)

  answered-write_buf : (answered hs d).write_buf ≡ write_http_1_response hs []
  answered-write_buf = ap (write_http_1_response hs) (begin_output-write_buf d ∙ quiet)

init_lem :
    {C : Type 0} ⦃digest : Digest⦄ (rng : ℕ → ℕ) (cfg : C) (c : Client C) (d : Down)
    (hs : Handshake)
    → c.handshake ≡ some hs
    → has_mandatory_fields hs ≡ true
    → Client.init rng cfg c d ≡ (
      none,
      record { handshake = some (with_random_key rng hs); cfg = cfg },
      requested (with_random_key rng hs) d,
    )
unfolding Client.init
init_lem rng cfg c d hs waiting fields = rw (waiting, fields) refl

module _ {C D U V : Type 0} (settings : Settings C) (above_server : Layer C U)
    (above_client : Layer D V) ⦃digest : Digest⦄ where
  server_takes :
      (h : Handshake) (input delta : Bytes) (s : Server C) (u : U) (d : Down)
      → IsRequest h
      → s.handshake_complete ≡ false
      → StartsQuietly above_server
      → input ≡ write_http_1_request h []
      → (u' : U) × (Server.consume settings above_server input delta s u d ≡ (
        taken (length input),
        record s { cfg = stored settings h s.cfg; handshake_complete = true },
        u',
        answered h d,
      ))
  server_takes h input delta s u d r fresh quiet e =
      let cfg = stored settings h s.cfg in
      let (u', started) = quiet cfg u (answered h d) in
      (
        u',
        ap (λ (t : Bytes). Server.consume settings above_server t delta s u d)
              (e ∙ sym (append-nil (write_http_1_request h [])))
            ∙ request_answered settings h r above_server s u d [] delta fresh
            ∙ ap
                (λ t.
                  after_header above_server (write_http_1_request h []) []
                    (Server.opened (record s { cfg = cfg }) t))
                started
            ∙ ap
                (λ (t : Bytes). (
                  taken (length t),
                  record s { cfg = cfg; handshake_complete = true },
                  u',
                  answered h d,
                ))
                (sym e),
      )

  client_takes :
      (h : Handshake) (input delta : Bytes) (c : Client D) (v : V) (d : Down)
      → c.handshake ≡ some h
      → StartsQuietly above_client
      → input ≡ write_http_1_response h []
      → (v' : V) × (Client.consume above_client input delta c v d
          ≡ (taken (length input), record c { handshake = none }, v', d))
  client_takes h input delta c v d waiting quiet e =
      let (v', started) = quiet c.cfg v d in
      (
        v',
        ap (λ (t : Bytes). Client.consume above_client t delta c v d)
              (e ∙ sym (append-nil (write_http_1_response h [])))
            ∙ response_completes above_client h c v d waiting [] delta
            ∙ ap
                (λ t.
                  after_header above_client (write_http_1_response h []) []
                    (Client.opened (record c { handshake = none }) t))
                started
            ∙ ap (λ (t : Bytes). (taken (length t), record c { handshake = none }, v', d)) (sym e),
      )

  -- Both sides come to the end of the handshake: the client writes a request; the server takes the
  -- whole of it, counts the handshake as completed and writes an answer; the client takes the whole
  -- of the answer and counts the handshake as completed.
  pub opening_completes :
      (rng : ℕ → ℕ) (hs : Handshake) (cfg : D) (c : Client D) (dc : Down) (v : V) (s : Server C)
      (ds : Down) (u : U)
      → c.handshake ≡ some hs
      → has_mandatory_fields hs ≡ true
      → IsRequest (with_random_key rng hs)
      → dc.write_buf ≡ []
      → ds.write_buf ≡ []
      → s.handshake_complete ≡ false
      → StartsQuietly above_server
      → StartsQuietly above_client
      → (c' : Client D) × (dc' : Down) × (s' : Server C) × (ds' : Down) × (u' : U) × (v' : V)
        × (Client.init rng cfg c dc ≡ (none, c', dc'))
        × (Server.consume settings above_server dc'.write_buf dc'.write_buf s u ds
            ≡ (taken (length dc'.write_buf), s', u', ds'))
        × (s'.handshake_complete ≡ true)
        × (Client.consume above_client ds'.write_buf ds'.write_buf c' v dc'
            ≡ (taken (length ds'.write_buf), record c' { handshake = none }, v', dc'))
  opening_completes rng hs cfg c dc v s ds u waiting fields r qc qs fresh quiet_s quiet_c =
      let h = with_random_key rng hs in
      let c' : Client D = record { handshake = some h; cfg = cfg } in
      let request = (requested h dc).write_buf in
      let answer = (answered h ds).write_buf in
      let (u', server_done) =
        server_takes h request request s u ds r fresh quiet_s (requested-write_buf h dc qc) in
      let (v', client_done) =
        client_takes h answer answer c' v (requested h dc) refl quiet_c
          (answered-write_buf h ds qs) in
      (
        c',
        requested h dc,
        record s { cfg = stored settings h s.cfg; handshake_complete = true },
        answered h ds,
        u',
        v',
        init_lem rng cfg c dc hs waiting fields,
        server_done,
        refl,
        client_done,
      )
