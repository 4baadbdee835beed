-- ===== src/WebSocket/Framing/Messages.antt =====
-- Messages: a frame that ends a message of its own, and a message in parts.
use incubator.Prelude.{
  ℕ, ◌+◌, ◌≤◌, ◌<◌, ◌≡◌, refl, sym, ap, subst, ◌∙◌, arith, Bool, true, false, le→ltb, ◌==◌, List,
  [], ◌∷◌, ◌++◌, append_assoc, length, length-append,
}
use incubator.Bytes.{Bytes, NetworkOrder}
use incubator.Net.Consumed.{Consumed, taken, failed}
use incubator.Net.Down.{configure_read}
use incubator.Net.ReceivePolicy.{up_to}
use incubator.WebSocket.Rfc6455.{continuation_frame}
use incubator.WebSocket.Rfc6455.Frame.{is_known-lt}
use incubator.WebSocket.Framing.{
  Framing, again, nil_code, max_frame_size, handle, handled, handled_last, advance, consume,
}
use incubator.WebSocket.Framing.Loop.{shift, shift-shift, shift_zero, resume, consume-round}
use incubator.WebSocket.Framing.Wire.{wire, wire_size, IsFrame, advance-wire, round-wire}

module _ ⦃net : NetworkOrder⦄ where
  -- A part of a message, with a key of its own.
  abbrev pub parts_wire : List (ℕ × Bytes) → Bytes
  parts_wire [] = []
  parts_wire ((key, payload) ∷ parts) =
      wire false continuation_frame key payload ++ parts_wire parts

  abbrev pub parts_size : List (ℕ × Bytes) → ℕ
  parts_size [] = 0
  parts_size ((key, payload) ∷ parts) = wire_size key payload + parts_size parts

  abbrev pub joined : List (ℕ × Bytes) → Bytes
  joined [] = []
  joined ((key, payload) ∷ parts) = payload ++ joined parts

  abbrev pub AreParts : List (ℕ × Bytes) → Type 0
  AreParts [] = Unit
  AreParts ((key, payload) ∷ parts) = IsFrame continuation_frame key payload × AreParts parts

module _ ⦃net : NetworkOrder⦄ {U : Type 0}
    (consume_text consume_binary : Bytes → U → Framing → Bool × U × Framing) where
  -- Between messages, a final frame in front of the input is handled once, by its opcode, with the
  -- payload as it was before it was masked; where that succeeds, the call goes on behind the frame.
  pub single_frame_handled :
      (opcode key : ℕ) (payload rest : Bytes) (u : U) (f : Framing)
      → IsFrame opcode key payload
      → f.opcode ≡ nil_code
      → consume consume_text consume_binary (wire true opcode key payload ++ rest) u f
        ≡ resume consume_text consume_binary (
            handled
              (wire_size key payload)
              rest
              (handle consume_text consume_binary opcode payload u f))
  single_frame_handled opcode key payload rest u f h e =
      consume-round consume_text consume_binary (wire true opcode key payload ++ rest) u f
      ∙ ap (resume consume_text consume_binary)
          (round-wire consume_text consume_binary true opcode key payload rest u f h)
      ∙ rw (idle e)
    where
      idle : f.opcode ≡ nil_code → (f.opcode == nil_code) ≡ true
      idle e = ground (arith, e)

  -- The end of a message, where a part was gathered.
  last_part :
      (key : ℕ) (payload rest : Bytes) (u : U) (f : Framing)
      → IsFrame continuation_frame key payload
      → f.opcode < 16
      → length f.payload_buf + length payload ≤ max_frame_size
      → consume consume_text consume_binary (wire true continuation_frame key payload ++ rest) u f
        ≡ resume consume_text consume_binary (
            handled_last (wire_size key payload) rest (
              handle consume_text consume_binary f.opcode
                (f.payload_buf ++ payload)
                u
                (record f { payload_buf = f.payload_buf ++ payload })))
  last_part key payload rest u f h lt fits =
      consume-round consume_text consume_binary (wire true continuation_frame key payload ++ rest) u
        f
      ∙ ap (resume consume_text consume_binary)
          (round-wire consume_text consume_binary true continuation_frame key payload rest u f h)
      ∙ rw (busy, le→ltb max_frame_size (length f.payload_buf + length payload) fits)
    where
      busy : (f.opcode == nil_code) ≡ false
      busy = ground arith

  -- Bytes that are not the end of the input.
  abbrev IsMore : Bytes → Type 0
  IsMore bs = (n : ℕ) (u : U) (f : Framing) → advance n bs u f ≡ again n bs u f

  -- A part in the middle.
  next_part :
      (key : ℕ) (payload behind : Bytes) (u : U) (f : Framing)
      → IsMore behind
      → IsFrame continuation_frame key payload
      → f.opcode < 16
      → length f.payload_buf + length payload ≤ max_frame_size
      → consume consume_text consume_binary
          (wire false continuation_frame key payload ++ behind)
          u
          f
        ≡ shift (wire_size key payload) (
            consume consume_text consume_binary behind u
              (record f { payload_buf = f.payload_buf ++ payload }))
  next_part key payload behind u f more h lt fits =
      consume-round consume_text consume_binary
        (wire false continuation_frame key payload ++ behind) u f
      ∙ ap (resume consume_text consume_binary)
          (round-wire consume_text consume_binary false continuation_frame key payload behind u f h)
      ∙ rw (busy, le→ltb max_frame_size (length f.payload_buf + length payload) fits)
          (ap (resume consume_text consume_binary)
            (more (wire_size key payload) u (record f { payload_buf = f.payload_buf ++ payload })))
    where
      busy : (f.opcode == nil_code) ≡ false
      busy = ground arith

  -- The first part.
  first_part :
      (opcode key : ℕ) (payload behind : Bytes) (u : U) (f : Framing)
      → IsMore behind
      → IsFrame opcode key payload
      → (opcode == continuation_frame) ≡ false
      → f.opcode ≡ nil_code
      → consume consume_text consume_binary (wire false opcode key payload ++ behind) u f
        ≡ shift (wire_size key payload) (
            consume consume_text consume_binary behind u
              (record f { opcode = opcode; payload_buf = f.payload_buf ++ payload }))
  first_part opcode key payload behind u f more h new e =
      consume-round consume_text consume_binary (wire false opcode key payload ++ behind) u f
      ∙ ap (resume consume_text consume_binary)
          (round-wire consume_text consume_binary false opcode key payload behind u f h)
      ∙ rw (idle, new)
          (ap (resume consume_text consume_binary) (
            more (wire_size key payload) u
              (record f { opcode = opcode; payload_buf = f.payload_buf ++ payload })))
    where
      idle : (f.opcode == nil_code) ≡ true
      idle = ground (arith, e)

  tail_wire-IsMore :
      (parts : List (ℕ × Bytes)) (key : ℕ) (payload rest : Bytes)
      → IsMore (parts_wire parts ++ (wire true continuation_frame key payload ++ rest))
  tail_wire-IsMore [] key payload rest n u f =
      advance-wire n true continuation_frame key payload rest u f
  tail_wire-IsMore ((key', payload') ∷ parts) key payload rest n u f =
      subst (λ bs. advance n bs u f ≡ again n bs u f)
        (sym (
          append_assoc (wire false continuation_frame key' payload') (parts_wire parts)
            (wire true continuation_frame key payload ++ rest)))
        (advance-wire n false continuation_frame key' payload'
          (parts_wire parts ++ (wire true continuation_frame key payload ++ rest)) u f)

  -- Between two messages: an input that is at its end is asked for anew, and else the call goes on.
  abbrev pub behind : ℕ → Bytes → U → Framing → Consumed × U × Framing
  behind n [] u f = (taken n, u, record f { down = configure_read (up_to 2048) f.down })
  behind n (b ∷ rest) u f = shift n (consume consume_text consume_binary (b ∷ rest) u f)

  -- After the message was handled: nothing of it is kept.
  abbrev pub message_done : ℕ → Bytes → Bool × U × Framing → Consumed × U × Framing
  message_done n rest (false, u, f) = (failed, u, f)
  message_done n rest (true, u, f) =
      behind n rest u (record f { opcode = nil_code; payload_buf = [] })

  -- What the last part of a message leads to, once the whole message is there.
  abbrev pub completed : ℕ → ℕ → Bytes → Bytes → Bytes → U → Framing → Consumed × U × Framing
  completed opcode key payload whole rest u f = message_done (wire_size key payload) rest (
      handle consume_text consume_binary opcode whole u
        (record f { opcode = opcode; payload_buf = whole }))

  resume-handled_last :
      (n : ℕ) (rest : Bytes) (ok : Bool) (u : U) (f : Framing)
      → resume consume_text consume_binary (handled_last n rest (ok, u, f))
        ≡ message_done n rest (ok, u, f)
  resume-handled_last n rest false u f = refl
  resume-handled_last n [] true u f = refl
  resume-handled_last n (b ∷ rest) true u f = refl

  later_parts :
      (parts : List (ℕ × Bytes)) (key : ℕ) (payload rest : Bytes) (u : U) (f : Framing)
      → AreParts parts
      → IsFrame continuation_frame key payload
      → f.opcode < 16
      → length f.payload_buf + length (joined parts) + length payload ≤ max_frame_size
      → consume consume_text consume_binary
          (parts_wire parts ++ (wire true continuation_frame key payload ++ rest))
          u
          f
        ≡ shift
            (parts_size parts)
            (completed f.opcode key payload (f.payload_buf ++ (joined parts ++ payload)) rest u f)
  later_parts [] key payload rest u f hs h lt fits =
      let r =
        handle consume_text consume_binary f.opcode (f.payload_buf ++ payload) u
          (record f { payload_buf = f.payload_buf ++ payload }) in
      last_part key payload rest u f h lt (omega arith)
      ∙ resume-handled_last (wire_size key payload) rest r.0 r.1 r.2
      ∙ sym (shift_zero _)
  later_parts ((key', payload') ∷ parts) key payload rest u f (h', hs) h lt fits =
      ap (λ bs. consume consume_text consume_binary bs u f)
        (append_assoc (wire false continuation_frame key' payload') (parts_wire parts)
          (wire true continuation_frame key payload ++ rest))
      ∙ next_part key' payload'
          (parts_wire parts ++ (wire true continuation_frame key payload ++ rest)) u f
          (tail_wire-IsMore parts key payload rest) h' lt
          (omega (arith, length-append payload' (joined parts)))
      ∙ ap (shift (wire_size key' payload')) (
          later_parts parts key payload rest u
            (record f { payload_buf = f.payload_buf ++ payload' }) hs h lt
            (omega
              (arith, length-append payload' (joined parts), length-append f.payload_buf payload')))
      ∙ shift-shift (wire_size key' payload') (parts_size parts) _
      ∙ ap
          (λ whole.
            shift (parts_size ((key', payload') ∷ parts))
              (completed f.opcode key payload whole rest u f))
          (append_assoc f.payload_buf payload' (joined parts ++ payload)
            ∙ ap (◌++◌ f.payload_buf) (sym (append_assoc payload' (joined parts) payload)))

  -- Between messages, a message in parts, each masked with a key of its own, that is not larger than a
  -- frame may be: nothing is handed up before its last part; then the opcode of the first part handles
  -- the payloads, joined in order, once, and where that succeeds, nothing is kept of the message: its
  -- opcode and its gathered payloads are reset, and the call goes on behind it, or asks for the next
  -- input at its end; where it does not, the call fails.
  pub parts_joined :
      (opcode key key' : ℕ) (first last : Bytes) (parts : List (ℕ × Bytes)) (rest : Bytes) (u : U)
      (f : Framing)
      → IsFrame opcode key first
      → (opcode == continuation_frame) ≡ false
      → AreParts parts
      → IsFrame continuation_frame key' last
      → length first + length (joined parts) + length last ≤ max_frame_size
      → f.opcode ≡ nil_code
      → f.payload_buf ≡ []
      → consume consume_text consume_binary
          (wire false opcode key first
            ++ (parts_wire parts ++ (wire true continuation_frame key' last ++ rest)))
          u
          f
        ≡ shift
            (wire_size key first + parts_size parts)
            (completed opcode key' last (first ++ (joined parts ++ last)) rest u f)
  parts_joined opcode key key' first last parts rest u f h new hs h' fits e empty =
      first_part opcode key first
        (parts_wire parts ++ (wire true continuation_frame key' last ++ rest)) u f
        (tail_wire-IsMore parts key' last rest) h new e
      ∙ ap
          (λ b. shift (wire_size key first) (
            consume consume_text consume_binary
              (parts_wire parts ++ (wire true continuation_frame key' last ++ rest)) u
              (record f { opcode = opcode; payload_buf = b ++ first })))
          empty
      ∙ ap (shift (wire_size key first)) (
          later_parts parts key' last rest u (record f { opcode = opcode; payload_buf = first }) hs
            h' (is_known-lt opcode h.known) fits)
      ∙ shift-shift (wire_size key first) (parts_size parts) _
