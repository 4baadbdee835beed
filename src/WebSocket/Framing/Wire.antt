-- ===== src/WebSocket/Framing/Wire.antt =====
-- One frame on the wire, in front of other bytes: what a turn of the loop of `consume` makes of it.
use incubator.Prelude.{
  ℕ, ◌+◌, ◌-◌, ◌^◌, ◌≤◌, ◌<◌, ◌≡◌, refl, sym, ap, ◌∙◌, arith, Bool, true, false, ltb, leb, le→ltb,
  ◌==◌, if◌then◌else◌, [], ◌++◌, length, length-append, drop, drop-drop, take_prefix, drop_prefix,
  length-drop, Bool-cases, inl, inr,
}
use incubator.Bytes.{Bytes, AreBytes, NetworkOrder}
use incubator.WebSocket.Rfc6455.{FrameHeader, is_known, decoded, assemble_frame, decode_header}
use incubator.WebSocket.Rfc6455.Mask.{mask_data-mask_data, mask_data_shape}
use incubator.WebSocket.Rfc6455.Frame.{flags_of}
use incubator.WebSocket.Rfc6455.RoundTrip.{frame_header_size, decode_header-assemble_frame}
use incubator.WebSocket.Rfc6455.Bounds.{decode_header_size}
use incubator.WebSocket.Framing.{
  Framing, Round, again, max_frame_size, unmasked, advance, last_frame, part_frame, with_header,
  react, round,
}

module _ ⦃net : NetworkOrder⦄ where
  -- A frame with a masked payload, or, with the key 0, an unmasked one.
  abbrev pub wire : Bool → ℕ → ℕ → Bytes → Bytes
  wire fin opcode key payload = assemble_frame opcode key (unmasked key payload) [] (flags_of fin)

  abbrev pub wire_size : ℕ → Bytes → ℕ
  wire_size key payload = frame_header_size key (length payload) + length payload

  -- Frames that a sender may produce.
  pub record IsFrame (opcode key : ℕ) (payload : Bytes) : Type 0 where
    pub known : is_known opcode ≡ true
    pub key_lt : key < 2 ^ 32
    pub bytes : AreBytes payload
    pub size_lt : length payload + 14 < max_frame_size

  unmasked-unmasked :
      (key : ℕ) (payload : Bytes) → AreBytes payload → unmasked key (unmasked key payload) ≡ payload
  unmasked-unmasked key payload h = elim (Bool-cases (key == 0)) [
    | inl bare ↦ rw bare refl
    | inr masked ↦ rw masked (mask_data-mask_data key payload h)
  ]

  length-unmasked :
      (key : ℕ) (payload : Bytes)
      → AreBytes payload
      → length (unmasked key payload) ≡ length payload
  length-unmasked key payload h = elim (Bool-cases (key == 0)) [
    | inl bare ↦ rw bare refl
    | inr masked ↦ rw masked (mask_data_shape key payload h).0
  ]

  -- A frame is not empty.
  pub advance-wire :
      {U : Type 0} (n : ℕ) (fin : Bool) (opcode key : ℕ) (payload rest : Bytes) (u : U)
      (f : Framing)
      → advance n (wire fin opcode key payload ++ rest) u f
        ≡ again n (wire fin opcode key payload ++ rest) u f
  unfolding assemble_frame
  advance-wire n fin opcode key payload rest u f = refl

  module _ {U : Type 0}
      (consume_text consume_binary : Bytes → U → Framing → Bool × U × Framing) where
    abbrev pub by_fin : FrameHeader → Bytes → ℕ → Bytes → U → Framing → Round U
    by_fin hdr payload n rest u f =
        if hdr.fin
        then last_frame consume_text consume_binary hdr payload n rest u f
        else part_frame consume_text consume_binary hdr payload n rest u f

    with_header_whole :
        (n : ℕ) (hdr : FrameHeader) (buffer payload rest : Bytes) (u : U) (f : Framing)
        → n ≤ 14
        → n ≤ length buffer
        → hdr.payload_len + 14 < max_frame_size
        → drop n buffer ≡ payload ++ rest
        → length payload ≡ hdr.payload_len
        → with_header consume_text consume_binary n hdr buffer u f
          ≡ by_fin hdr (unmasked hdr.mask_key payload) (n + hdr.payload_len) rest u f
    with_header_whole n hdr buffer payload rest u f h14 hn small cut size =
        rw (fits, whole, cut, take_prefix payload rest hdr.payload_len size, after) refl
      where
        fits : leb (max_frame_size - n) hdr.payload_len ≡ false
        fits = ground arith

        total : length buffer ≡ n + length payload + length rest
        total = omega (arith, length-drop n buffer, ap length cut, length-append payload rest)

        whole : ltb (length buffer) (n + hdr.payload_len) ≡ false
        whole = le→ltb _ _ (omega (arith, total))

        after : drop (n + hdr.payload_len) buffer ≡ rest
        after =
            sym (drop-drop hdr.payload_len n buffer)
            ∙ ap (drop hdr.payload_len) cut
            ∙ drop_prefix payload rest hdr.payload_len size

    -- A turn on a frame handles its header and its payload as they were sent, the mask removed.
    pub round-wire :
        (fin : Bool) (opcode key : ℕ) (payload rest : Bytes) (u : U) (f : Framing)
        → IsFrame opcode key payload
        → round consume_text consume_binary (wire fin opcode key payload ++ rest) u f
          ≡ by_fin
              (record { fin = fin; opcode = opcode; mask_key = key; payload_len = length payload })
              payload
              (wire_size key payload)
              rest
              u
              f
    unfolding round
    round-wire fin opcode key payload rest u f h =
        ap (react consume_text consume_binary buffer u f) read.0
        ∙ with_header_whole n sent buffer on_wire rest u f within.1 within.2
            (omega (arith, size, h.size_lt)) read.1 refl
        ∙ (λ i.
            by_fin (record { fin = fin; opcode = opcode; mask_key = key; payload_len = size i })
              (unmasked-unmasked key payload h.bytes i) (frame_header_size key (size i) + size i)
              rest u f)
      where
        on_wire : Bytes
        on_wire = unmasked key payload

        buffer : Bytes
        buffer = wire fin opcode key payload ++ rest

        size : length on_wire ≡ length payload
        size = length-unmasked key payload h.bytes

        n : ℕ
        n = frame_header_size key (length on_wire)

        sent : FrameHeader
        sent = record { fin = fin; opcode = opcode; mask_key = key; payload_len = length on_wire }

        read : (decode_header buffer ≡ decoded n sent) × (drop n buffer ≡ on_wire ++ rest)
        read =
            decode_header-assemble_frame fin opcode key on_wire rest h.known h.key_lt
              (omega (arith, size, h.size_lt))

        within : (2 ≤ n) × (n ≤ 14) × (n ≤ length buffer)
        within = decode_header_size buffer n sent read.0
