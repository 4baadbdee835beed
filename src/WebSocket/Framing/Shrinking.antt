-- ===== src/WebSocket/Framing/Shrinking.antt =====
-- What one turn of the loop of `consume` leaves of its input.
use incubator.Prelude.{
  ℕ, ◌+◌, ◌-◌, ◌≤◌, ◌≡◌, refl, arith, Bool, true, false, ltb, leb, ltb→le, ◌==◌, [], ◌∷◌, ◌++◌,
  length, take, drop, length-drop, Bool-cases, inl, inr,
}
use incubator.Bytes.{Bytes, NetworkOrder}
use incubator.Net.Consumed.{taken, failed, stuck}
use incubator.WebSocket.Rfc6455.{
  FrameHeader, continuation_frame, Decoded, incomplete, invalid, decoded, decode_header,
}
use incubator.WebSocket.Rfc6455.Bounds.{decode_header_size}
use incubator.WebSocket.Framing.{
  Framing, Round, done, again, max_frame_size, handle, advance, handled, handled_last, nil_code,
  unmasked, last_frame, part_frame, with_header, react, round,
}

module _ ⦃net : NetworkOrder⦄ {U : Type 0}
    (consume_text consume_binary : Bytes → U → Framing → Bool × U × Framing) where
  -- A turn that goes on has taken a frame off the front; one that ends has taken no more than there is.
  abbrev pub Shrinks : Bytes → Round U → Type 0
  Shrinks buffer (done (taken n) u f) = n ≤ length buffer
  Shrinks buffer (done failed u f) = Unit
  Shrinks buffer (done stuck u f) = ⊥
  Shrinks buffer (again n rest u f) = (2 ≤ n) × (length rest + n ≡ length buffer)

  advance-Shrinks :
      (n : ℕ) (buffer rest : Bytes) (u : U) (f : Framing)
      → (2 ≤ n) × (length rest + n ≡ length buffer)
      → Shrinks buffer (advance n rest u f)
  advance-Shrinks n buffer [] u f h = omega arith
  advance-Shrinks n buffer (b ∷ rest) u f h = h

  handled-Shrinks :
      (n : ℕ) (buffer rest : Bytes) (r : Bool × U × Framing)
      → (2 ≤ n) × (length rest + n ≡ length buffer)
      → Shrinks buffer (handled n rest r) × Shrinks buffer (handled_last n rest r)
  handled-Shrinks n buffer rest (true, u, f) h = (
    advance-Shrinks n buffer rest u f h,
    advance-Shrinks n buffer rest u (record f { opcode = nil_code; payload_buf = [] }) h,
  )
  handled-Shrinks n buffer rest (false, u, f) h = (tt, tt)

  last_frame-Shrinks :
      (hdr : FrameHeader) (payload : Bytes) (n : ℕ) (buffer rest : Bytes) (u : U) (f : Framing)
      → (2 ≤ n) × (length rest + n ≡ length buffer)
      → Shrinks buffer (last_frame consume_text consume_binary hdr payload n rest u f)
  last_frame-Shrinks hdr payload n buffer rest u f h = elim (Bool-cases (f.opcode == nil_code)) [
    | inl single ↦
        rw single
          (handled-Shrinks n buffer rest (handle consume_text consume_binary hdr.opcode payload u f)
            h).0
    | inr gathering ↦ elim (Bool-cases (hdr.opcode == continuation_frame)) [
      | inr other ↦ rw (gathering, other) tt
      | inl next ↦ elim (Bool-cases (ltb max_frame_size (length f.payload_buf + hdr.payload_len))) [
        | inl large ↦ rw (gathering, next, large) tt
        | inr small ↦
            rw (gathering, next, small)
              (handled-Shrinks n buffer rest
                (handle consume_text consume_binary f.opcode (f.payload_buf ++ payload) u
                  (record f { payload_buf = f.payload_buf ++ payload }))
                h).1
      ]
    ]
  ]

  part_frame-Shrinks :
      (hdr : FrameHeader) (payload : Bytes) (n : ℕ) (buffer rest : Bytes) (u : U) (f : Framing)
      → (2 ≤ n) × (length rest + n ≡ length buffer)
      → Shrinks buffer (part_frame consume_text consume_binary hdr payload n rest u f)
  part_frame-Shrinks hdr payload n buffer rest u f h = elim (Bool-cases (f.opcode == nil_code)) [
    | inl single ↦ elim (Bool-cases (hdr.opcode == continuation_frame)) [
      | inl stray ↦ rw (single, stray) tt
      | inr first ↦
          rw (single, first)
            (advance-Shrinks n buffer rest u
              (record f { opcode = hdr.opcode; payload_buf = f.payload_buf ++ payload }) h)
    ]
    | inr gathering ↦ elim (Bool-cases (hdr.opcode == continuation_frame)) [
      | inr other ↦ rw (gathering, other) tt
      | inl next ↦ elim (Bool-cases (ltb max_frame_size (length f.payload_buf + hdr.payload_len))) [
        | inl large ↦ rw (gathering, next, large) tt
        | inr small ↦
            rw (gathering, next, small)
              (advance-Shrinks n buffer rest u (record f { payload_buf = f.payload_buf ++ payload })
                h)
      ]
    ]
  ]

  with_header-Shrinks :
      (n : ℕ) (hdr : FrameHeader) (buffer : Bytes) (u : U) (f : Framing)
      → (2 ≤ n) × (n ≤ length buffer)
      → Shrinks buffer (with_header consume_text consume_binary n hdr buffer u f)
  with_header-Shrinks n hdr buffer u f h =
      elim (Bool-cases (leb (max_frame_size - n) hdr.payload_len)) [
        | inl large ↦ rw large tt
        | inr small ↦ elim (Bool-cases (ltb (length buffer) size)) [
          | inl partial ↦ rw (small, partial) (omega arith)
          | inr whole ↦ elim (Bool-cases hdr.fin) [
            | inl last ↦
                rw (small, whole, last)
                  (last_frame-Shrinks hdr payload size buffer (drop size buffer) u f (cut whole))
            | inr part ↦
                rw (small, whole, part)
                  (part_frame-Shrinks hdr payload size buffer (drop size buffer) u f (cut whole))
          ]
        ]
      ]
    where
      size : ℕ
      size = n + hdr.payload_len

      payload : Bytes
      payload = unmasked hdr.mask_key (take hdr.payload_len (drop n buffer))

      cut :
          ltb (length buffer) size ≡ false
          → (2 ≤ size) × (length (drop size buffer) + size ≡ length buffer)
      cut e = (omega arith, omega (arith, length-drop size buffer, ltb→le _ _ e))

  react-Shrinks :
      (buffer : Bytes) (u : U) (f : Framing) (d : Decoded)
      → decode_header buffer ≡ d
      → Shrinks buffer (react consume_text consume_binary buffer u f d)
  react-Shrinks buffer u f incomplete e = omega arith
  react-Shrinks buffer u f invalid e = tt
  react-Shrinks buffer u f (decoded n hdr) e =
      let size = decode_header_size buffer n hdr e in
      with_header-Shrinks n hdr buffer u f (size.0, size.2)

  pub round-Shrinks :
      (buffer : Bytes) (u : U) (f : Framing)
      → Shrinks buffer (round consume_text consume_binary buffer u f)
  unfolding round
  round-Shrinks buffer u f = react-Shrinks buffer u f (decode_header buffer) refl
