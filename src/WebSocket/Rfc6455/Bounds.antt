-- ===== src/WebSocket/Rfc6455/Bounds.antt =====
-- What a decoded header is on any input, well formed or not.
use incubator.Prelude.{
  ℕ, ◌+◌, ◌^◌, ◌≤◌, ◌<◌, ◌≡◌, refl, sym, ap, ◌∙◌, arith, bit_and, Bool, true, false, not, ltb, ◌==◌,
  if◌then◌else◌, [], ◌∷◌, ◌++◌, length, take, drop, length-append, take-append_le, drop-append_le,
  length-take, length-drop, All-take, All-drop,
}
use incubator.Prelude.Bits.{bit_and_0x7f}
use incubator.Bytes.{Bytes, IsByte, AreBytes, NetworkOrder, decode, decode-lt_width}
use incubator.WebSocket.Rfc6455.{
  FrameHeader, decoded, is_known, length_size, key_size, header_length, read_header, decode_header,
}

abbrev pub Fits : ℕ → FrameHeader → Type 0
Fits n h =
    (2 ≤ n)
    × (n ≤ 14)
    × (is_known h.opcode ≡ true)
    × (h.mask_key < 2 ^ 32)
    × (h.payload_len < 2 ^ 64)

header_length_bounds : (f : ℕ) (m : Bool) → (2 ≤ header_length f m) × (header_length f m ≤ 14)
header_length_bounds f true = ground arith
header_length_bounds f false = ground arith

header_length_size : (f : ℕ) (m : Bool) → header_length f m ≡ 2 + length_size f + key_size m
header_length_size f m = ground arith

module _ ⦃net : NetworkOrder⦄ where
  key_lt :
      (m : Bool) (s : ℕ) (p : Bytes)
      → AreBytes p
      → s + key_size m ≤ length p
      → (if m then decode (take 4 (drop s p)) else 0) < 2 ^ 32
  key_lt true s p h l =
      decode-lt_width 4 (take 4 (drop s p))
        (omega (arith, length-take 4 (drop s p), length-drop s p))
        (All-take IsByte 4 (drop s p) (All-drop IsByte s p h))
  key_lt false s p h l = omega arith

  ext_lt :
      (f : ℕ) (p : Bytes)
      → AreBytes p
      → f < 128
      → length_size f ≤ length p
      → (if ltb f 126 then f else decode (take (length_size f) p)) < 2 ^ 64
  ext_lt f p h small l = ground (
    arith,
    decode-lt_width 2 (take 2 p),
    decode-lt_width 8 (take 8 p),
    length-take 2 p,
    length-take 8 p,
    All-take IsByte 2 p h,
    All-take IsByte 8 p h,
  )

  -- What a successful call has found out about its input.
  abbrev IsRead : ℕ → ℕ → Bytes → ℕ → FrameHeader → Type 0
  IsRead b1 b2 p n h =
      (header_length (bit_and b2 0x7F) (not (bit_and b2 0x80 == 0)) ≤ length p + 2)
      × (n ≡ header_length (bit_and b2 0x7F) (not (bit_and b2 0x80 == 0)))
      × (h ≡ read_header b1 b2 p)
      × (bit_and b1 0x70 ≡ 0)
      × (is_known (bit_and b1 0x0F) ≡ true)

  decode_header_inv :
      (b1 b2 : ℕ) (p : Bytes) (n : ℕ) (h : FrameHeader)
      → decode_header (b1 ∷ b2 ∷ p) ≡ decoded n h
      → IsRead b1 b2 p n h
  unfolding decode_header
  decode_header_inv b1 b2 p n h e = ground arith

  decode_header_of :
      (b1 b2 : ℕ) (p : Bytes) (n : ℕ) (h : FrameHeader)
      → IsRead b1 b2 p n h
      → decode_header (b1 ∷ b2 ∷ p) ≡ decoded n h
  unfolding decode_header
  decode_header_of b1 b2 p n h r = ground arith

  read_header-append :
      (b1 b2 : ℕ) (p more : Bytes)
      → header_length (bit_and b2 0x7F) (not (bit_and b2 0x80 == 0)) ≤ length p + 2
      → read_header b1 b2 (p ++ more) ≡ read_header b1 b2 p
  read_header-append b1 b2 p more l = λ i. record {
    fin = not (bit_and b1 0x80 == 0);
    opcode = bit_and b1 0x0F;
    mask_key = key_part (not (bit_and b2 0x80 == 0)) sizes i;
    payload_len = if ltb f 126 then f else decode (len_part i);
  }
    where
      f : ℕ
      f = bit_and b2 0x7F

      sizes : length_size f + key_size (not (bit_and b2 0x80 == 0)) ≤ length p
      sizes = omega (arith, header_length_size f (not (bit_and b2 0x80 == 0)))

      len_part : take (length_size f) (p ++ more) ≡ take (length_size f) p
      len_part = take-append_le (length_size f) p more (omega (arith, sizes))

      key_part :
          (m : Bool)
          → length_size f + key_size m ≤ length p
          → (if m then decode (take 4 (drop (length_size f) (p ++ more))) else 0)
            ≡ (if m then decode (take 4 (drop (length_size f) p)) else 0)
      key_part true g = ap decode (
          ap (take 4) (drop-append_le (length_size f) p more (omega arith))
          ∙ take-append_le 4 (drop (length_size f) p) more
              (omega (arith, length-drop (length_size f) p)))
      key_part false g = refl

  -- A decoded header is part of the input.
  pub decode_header_size :
      (bs : Bytes) (n : ℕ) (h : FrameHeader)
      → decode_header bs ≡ decoded n h
      → (2 ≤ n) × (n ≤ 14) × (n ≤ length bs)
  decode_header_size [] n h e = unfold decode_header in cc
  decode_header_size (b ∷ []) n h e = unfold decode_header in cc
  decode_header_size (b1 ∷ b2 ∷ p) n h e =
      let r = decode_header_inv b1 b2 p n h e in
      let bounds = header_length_bounds (bit_and b2 0x7F) (not (bit_and b2 0x80 == 0)) in
      (omega arith, omega arith, omega arith)

  -- A header that is decoded from bytes has 2 to 14 of them, no more than there are, a known
  -- opcode, a 32-bit key and a 64-bit length.
  pub decode_header_bounds :
      (bs : Bytes) (n : ℕ) (h : FrameHeader)
      → AreBytes bs
      → decode_header bs ≡ decoded n h
      → (n ≤ length bs) × Fits n h
  decode_header_bounds [] n h a e = unfold decode_header in cc
  decode_header_bounds (b ∷ []) n h a e = unfold decode_header in cc
  decode_header_bounds (b1 ∷ b2 ∷ p) n h a e =
      let r = decode_header_inv b1 b2 p n h e in
      let f = bit_and b2 0x7F in
      let m = not (bit_and b2 0x80 == 0) in
      let small : bit_and b2 0x7F < 128 = rw (bit_and_0x7f b2 a.1.0) (omega arith) in
      let room : length_size f + key_size m ≤ length p = omega (arith, header_length_size f m) in
      let bounds = header_length_bounds f m in
      (
        omega arith,
        (
          omega arith,
          omega arith,
          rw r.2 r.4,
          rw r.2 (key_lt m (length_size f) p a.1.1 room),
          rw r.2 (ext_lt f p a.1.1 small (omega arith)),
        ),
      )

  -- More input does not change a decision.
  pub decode_header-append :
      (bs more : Bytes) (n : ℕ) (h : FrameHeader)
      → decode_header bs ≡ decoded n h
      → decode_header (bs ++ more) ≡ decoded n h
  decode_header-append [] more n h e = unfold decode_header in cc
  decode_header-append (b ∷ []) more n h e = unfold decode_header in cc
  decode_header-append (b1 ∷ b2 ∷ p) more n h e =
      let r = decode_header_inv b1 b2 p n h e in
      decode_header_of b1 b2 (p ++ more) n h (
        omega (arith, length-append p more),
        r.1,
        r.2 ∙ sym (read_header-append b1 b2 p more r.0),
        r.3,
        r.4,
      )
