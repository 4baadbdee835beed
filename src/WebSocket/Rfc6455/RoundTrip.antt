-- ===== src/WebSocket/Rfc6455/RoundTrip.antt =====
-- `decode_header` reads back what `assemble_frame` wrote, for every length of the payload.
use incubator.Prelude.{
  ℕ, ◌+◌, ◌-◌, ◌%◌, ◌^◌, ◌<◌, ◌≡◌, refl, sym, ap, ap₂, ◌∙◌, arith, bit_and, bit_or, Bool, true,
  false, not, ltb, ◌==◌, if◌then◌else◌, [], ◌∷◌, ◌++◌, length, drop, drop_prefix, length-append,
  append_assoc, Bool-cases, inl, inr,
}
use native.Mathlib.Nat.{mod-eq_of_lt}
use incubator.Bytes.{Bytes, NetworkOrder, encode, decode}
use incubator.WebSocket.Rfc6455.{
  decoded, is_known, length_size, key_size, decode_header, length_bytes, assemble_frame,
}
use incubator.WebSocket.Rfc6455.Frame.{
  flags_of, first_byte, first_byte_fields, second_byte_fields, mask_bit, is_known-lt, decode_layout,
}

-- The length field for a payload of `n` bytes.
abbrev size_field : ℕ → ℕ
size_field n = if ltb n 126 then n else if ltb n (2 ^ 16 - 1) then 126 else 127

abbrev masked : ℕ → Bool
masked key = not (key == 0)

-- How many bytes precede the payload.
abbrev pub frame_header_size : ℕ → ℕ → ℕ
frame_header_size key n = 2 + length_size (size_field n) + key_size (masked key)

drop_layout :
    (b1 b2 : ℕ) (ext kb tail : Bytes) (k : ℕ)
    → 2 + length ext + length kb ≡ k
    → drop k (b1 ∷ b2 ∷ (ext ++ (kb ++ tail))) ≡ tail
drop_layout b1 b2 ext kb tail k e =
    ap (λ r. drop k (b1 ∷ b2 ∷ r)) (sym (append_assoc ext kb tail))
    ∙ drop_prefix (b1 ∷ b2 ∷ (ext ++ kb)) tail k (omega (arith, length-append ext kb))

module _ ⦃net : NetworkOrder⦄ where
  abbrev ext_bytes : ℕ → Bytes
  ext_bytes n = if ltb n 126 then [] else if ltb n (2 ^ 16 - 1) then encode 2 n else encode 8 n

  abbrev key_bytes : ℕ → Bytes
  key_bytes key = if key == 0 then [] else encode 4 key

  length_bytes_layout :
      (bit n : ℕ) → n < 2 ^ 64 → length_bytes bit n ≡ bit_or bit (size_field n) ∷ ext_bytes n
  unfolding length_bytes
  length_bytes_layout bit n h = elim (Bool-cases (ltb n 126)) [
    | inl small ↦ rw (small, mod-eq_of_lt (byte small))
    | inr large ↦ elim (Bool-cases (ltb n (2 ^ 16 - 1))) [
      | inl mid ↦ rw (large, mid, mod-eq_of_lt (word mid))
      | inr huge ↦ rw (large, huge, mod-eq_of_lt h)
    ]
  ]
    where
      byte : ltb n 126 ≡ true → n < 2 ^ 8
      byte e = ground arith

      word : ltb n (2 ^ 16 - 1) ≡ true → n < 2 ^ 16
      word e = ground arith

  mask_bit_eq : (key : ℕ) → (if key == 0 then 0x00 else 0x80) ≡ mask_bit (masked key)
  mask_bit_eq key = ground arith

  length-ext_bytes : (n : ℕ) → length (ext_bytes n) ≡ length_size (size_field n)
  length-ext_bytes n = ground (arith, net.length-encode 2 n, net.length-encode 8 n)

  length-key_bytes : (key : ℕ) → length (key_bytes key) ≡ key_size (masked key)
  length-key_bytes key = ground (arith, net.length-encode 4 key)

  assemble_frame_layout :
      (opcode key : ℕ) (payload out : Bytes) (flags : ℕ)
      → length payload < 2 ^ 64
      → assemble_frame opcode key payload out flags
        ≡ out
          ++ ((bit_or flags opcode % 2 ^ 8)
              ∷ bit_or (mask_bit (masked key)) (size_field (length payload))
              ∷ (ext_bytes (length payload) ++ (key_bytes key ++ payload)))
  unfolding assemble_frame
  assemble_frame_layout opcode key payload out flags h =
      rw (length_bytes_layout (if key == 0 then 0x00 else 0x80) (length payload) h, mask_bit_eq key)

  ext_value :
      (n : ℕ)
      → n < 2 ^ 64
      → (if ltb (size_field n) 126 then size_field n else decode (ext_bytes n)) ≡ n
  ext_value n h = ground (arith, net.decode-encode 2 n, net.decode-encode 8 n)

  key_value : (key : ℕ) → key < 2 ^ 32 → (if masked key then decode (key_bytes key) else 0) ≡ key
  key_value key h = ground (arith, net.decode-encode 4 key)

  fin_value : (fin : Bool) → not (flags_of fin == 0) ≡ fin
  fin_value true = refl
  fin_value false = refl

  -- The frame with what follows it, cut where `decode_header` cuts it.
  frame_rest :
      (opcode key : ℕ) (payload rest : Bytes) (flags : ℕ)
      → length payload < 2 ^ 64
      → assemble_frame opcode key payload [] flags ++ rest
        ≡ (bit_or flags opcode % 2 ^ 8)
          ∷ bit_or (mask_bit (masked key)) (size_field (length payload))
          ∷ (ext_bytes (length payload) ++ (key_bytes key ++ (payload ++ rest)))
  frame_rest opcode key payload rest flags h = rw (
    assemble_frame_layout opcode key payload [] flags h,
    append_assoc (ext_bytes (length payload)) (key_bytes key ++ payload) rest,
    append_assoc (key_bytes key) payload rest,
  )

  -- For a known opcode, a 32-bit key and a payload below 2^64 bytes, decoding the header of an
  -- assembled frame gives its FIN flag, opcode, key and payload length back, and the payload
  -- stands right after the header, whatever follows the frame.
  pub decode_header-assemble_frame :
      (fin : Bool) (opcode key : ℕ) (payload rest : Bytes)
      → is_known opcode ≡ true
      → key < 2 ^ 32
      → length payload < 2 ^ 64
      → (decode_header (assemble_frame opcode key payload [] (flags_of fin) ++ rest)
          ≡ decoded
              (frame_header_size key (length payload))
              (record { fin = fin; opcode = opcode; mask_key = key; payload_len = length payload }))
        × (drop
              (frame_header_size key (length payload))
              (assemble_frame opcode key payload [] (flags_of fin) ++ rest)
            ≡ payload ++ rest)
  decode_header-assemble_frame fin opcode key payload rest known hk hn =
      rw (frame_rest opcode key payload rest (flags_of fin) hn) (
        decode_layout (first_byte fin opcode) byte2 f m ext kb (payload ++ rest) second.0 second.1
              first.2 (rw first.1 known) (length-ext_bytes n) (length-key_bytes key)
            ∙ ap₂ decoded size (λ i. record {
              fin = fin_path i;
              opcode = first.1 i;
              mask_key = key_value key hk i;
              payload_len = ext_value n hn i;
            }),
        drop_layout (first_byte fin opcode) byte2 ext kb (payload ++ rest) (frame_header_size key n)
            size,
      )
    where
      n : ℕ
      n = length payload

      f : ℕ
      f = size_field n

      m : Bool
      m = masked key

      ext : Bytes
      ext = ext_bytes n

      kb : Bytes
      kb = key_bytes key

      byte2 : ℕ
      byte2 = bit_or (mask_bit m) f

      f_small : size_field n < 128
      f_small = ground arith

      second : (bit_and byte2 0x7F ≡ f) × (bit_and byte2 0x80 ≡ mask_bit m)
      second = second_byte_fields m f f_small

      first :
          (bit_and (first_byte fin opcode) 0x80 ≡ flags_of fin)
          × (bit_and (first_byte fin opcode) 0x0F ≡ opcode)
          × (bit_and (first_byte fin opcode) 0x70 ≡ 0)
      first = first_byte_fields fin opcode (is_known-lt opcode known)

      fin_path : not (bit_and (first_byte fin opcode) 0x80 == 0) ≡ fin
      fin_path = rw first.0 (fin_value fin)

      size : 2 + length ext + length kb ≡ frame_header_size key n
      size = ap₂ (λ (a b : ℕ). 2 + a + b) (length-ext_bytes n) (length-key_bytes key)
