-- ===== src/WebSocket/Framing/Sending.antt =====
-- What is sent, and how the other side, or this one, answers to it.
use incubator.Prelude.{
  ℕ, ◌≡◌, ◌≢◌, refl, sym, ap, ◌∙◌, arith, Bool, true, Bool-cases, inl, inr, if◌then◌else◌, some, [],
  ◌++◌, append-nil,
}
use incubator.Bytes.{Bytes, NetworkOrder}
use incubator.Net.Consumed.{failed}
use incubator.Net.Error.{make_error, connection_closed}
use incubator.Net.Down.{Down, begin_output}
use incubator.WebSocket.Rfc6455.{
  assemble_frame, mask_data, continuation_frame, text_frame, binary_frame, connection_close, ping,
  pong, fin_flag,
}
use incubator.WebSocket.Framing.{
  Framing, nil_code, next_key, unmasked, ship, ship_pong, end_text_message, end_binary_message,
  handle, handled, consume,
}
use incubator.WebSocket.Framing.Loop.{resume}
use incubator.WebSocket.Framing.Wire.{wire, wire_size, IsFrame}
use incubator.WebSocket.Framing.Messages.{single_frame_handled}

module _ ⦃net : NetworkOrder⦄ where
  -- The generator does not give the key 0, which means no mask, where frames are masked.
  abbrev pub HasKey : Framing → Type 0
  HasKey f = f.mask_outgoing_frames ≡ true → next_key f ≢ 0

  assemble_frame-out :
      (opcode key : ℕ) (payload out : Bytes) (flags : ℕ)
      → assemble_frame opcode key payload out flags
        ≡ out ++ assemble_frame opcode key payload [] flags
  unfolding assemble_frame
  assemble_frame-out opcode key payload out flags = refl

  abbrev on_wire : Framing → Bytes → Bytes
  on_wire f payload = if f.mask_outgoing_frames then mask_data (next_key f) payload else payload

  masked_as_wire :
      (f : Framing) (payload : Bytes) → HasKey f → on_wire f payload ≡ unmasked (next_key f) payload
  masked_as_wire f payload h = elim (Bool-cases f.mask_outgoing_frames) [
    | inl on ↦ ground (arith, on, h on)
    | inr off ↦ rw off refl
  ]

  write_buf-begin_output : (d : Down) → (begin_output d).write_buf ≡ d.write_buf
  write_buf-begin_output d = ground arith

  ship-wire :
      (code : ℕ) (payload : Bytes) (f : Framing)
      → HasKey f
      → (ship code payload f).down.write_buf
        ≡ f.down.write_buf ++ wire true code (next_key f) payload
  ship-wire code payload f h =
      assemble_frame-out code (next_key f) (on_wire f payload) (begin_output f.down).write_buf
        fin_flag
      ∙ ap (λ b. b ++ assemble_frame code (next_key f) (on_wire f payload) [] fin_flag)
          (write_buf-begin_output f.down)
      ∙ ap (λ p. f.down.write_buf ++ assemble_frame code (next_key f) p [] fin_flag)
          (masked_as_wire f payload h)

  module _ {U : Type 0}
      (consume_text consume_binary : Bytes → U → Framing → Bool × U × Framing) where
    -- What one side writes at the end of a text message or of a binary message, with nothing else in
    -- the output, is handed up on the other side, between messages, as that message and as text or
    -- binary, once; and the message buffer of the sender is empty. It takes a key other than 0 where
    -- frames are masked, keys of 32 bits, and messages that are, with 14 bytes for a header, smaller
    -- than a frame may be.
    pub sent_message_received :
        (f g : Framing) (u : U)
        → HasKey f
        → f.down.write_buf ≡ []
        → IsFrame text_frame (next_key f) f.text_buf
        → IsFrame binary_frame (next_key f) f.binary_buf
        → g.opcode ≡ nil_code
        → (consume consume_text consume_binary (end_text_message f).down.write_buf u g
            ≡ resume consume_text consume_binary
                (handled (wire_size (next_key f) f.text_buf) [] (consume_text f.text_buf u g)))
          × (consume consume_text consume_binary (end_binary_message f).down.write_buf u g
              ≡ resume consume_text consume_binary (
                  handled
                    (wire_size (next_key f) f.binary_buf)
                    []
                    (consume_binary f.binary_buf u g)))
          × ((end_text_message f).text_buf ≡ [])
          × ((end_binary_message f).binary_buf ≡ [])
    unfolding end_text_message end_binary_message handle
    sent_message_received f g u key empty ht hb e = (
      ap (λ b. consume consume_text consume_binary b u g)
            (ship-wire text_frame f.text_buf f key
              ∙ ap (before (wire true text_frame (next_key f) f.text_buf)) empty)
          ∙ received text_frame f.text_buf ht,
      ap (λ b. consume consume_text consume_binary b u g)
            (ship-wire binary_frame f.binary_buf f key
              ∙ ap (before (wire true binary_frame (next_key f) f.binary_buf)) empty)
          ∙ received binary_frame f.binary_buf hb,
      refl,
      refl,
    )
      where
        before : Bytes → Bytes → Bytes
        before ys xs = xs ++ ys

        received :
            (code : ℕ) (payload : Bytes)
            → IsFrame code (next_key f) payload
            → consume consume_text consume_binary (wire true code (next_key f) payload) u g
              ≡ resume consume_text consume_binary (
                  handled
                    (wire_size (next_key f) payload)
                    []
                    (handle consume_text consume_binary code payload u g))
        received code payload h =
            ap (λ b. consume consume_text consume_binary b u g)
              (sym (append-nil (wire true code (next_key f) payload)))
            ∙ single_frame_handled consume_text consume_binary code (next_key f) payload [] u g h e

    -- Between messages, a ping is answered by a pong with its payload behind the output so far, and a
    -- close frame ends the connection with the reason connection_closed. It takes a payload that is,
    -- with 14 bytes for a header, smaller than a frame may be, and for the pong a key other than 0 where
    -- frames are masked.
    pub control_frames_answered :
        (key : ℕ) (payload rest : Bytes) (u : U) (f : Framing)
        → IsFrame ping key payload
        → IsFrame connection_close key payload
        → HasKey f
        → f.opcode ≡ nil_code
        → (consume consume_text consume_binary (wire true ping key payload ++ rest) u f
            ≡ resume consume_text consume_binary
                (handled (wire_size key payload) rest (true, u, ship_pong payload f)))
          × ((ship_pong payload f).down.write_buf
              ≡ f.down.write_buf ++ wire true pong (next_key f) payload)
          × (consume consume_text consume_binary
                (wire true connection_close key payload ++ rest)
                u
                f
              ≡ (
                failed,
                u,
                record f {
                  down = record f.down { reason = some (make_error connection_closed "") };
                },
              ))
    unfolding handle
    control_frames_answered key payload rest u f hp hc hk e = (
      single_frame_handled consume_text consume_binary ping key payload rest u f hp e,
      ship-wire pong payload f hk,
      single_frame_handled consume_text consume_binary connection_close key payload rest u f hc e,
    )

    -- A final continuation frame between messages makes the call fail without a reason: neither the
    -- upper layer nor the framing sets one.
    pub stray_continuation_fails :
        (key : ℕ) (payload rest : Bytes) (u : U) (f : Framing)
        → IsFrame continuation_frame key payload
        → f.opcode ≡ nil_code
        → consume consume_text consume_binary (wire true continuation_frame key payload ++ rest) u f
          ≡ (failed, u, f)
    unfolding handle
    stray_continuation_fails key payload rest u f h e =
        single_frame_handled consume_text consume_binary continuation_frame key payload rest u f h e
