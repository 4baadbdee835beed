-- ===== src/WebSocket/Rfc6455/Frame.antt =====
-- Frames: `decode_header` reads back what `assemble_frame` wrote, on every length of the payload.
use incubator.Prelude.{
  ℕ, suc, ◌+◌, ◌%◌, ◌^◌, ◌<◌, ◌≡◌, refl, ap, arith, bit_and, bit_or, Bool, true, false, not, ◌&&◌,
  ltb, le→ltb, ◌==◌, if◌then◌else◌, ◌∷◌, ◌++◌, length, take, drop, take_prefix, drop_prefix,
  length-append,
}
use incubator.Prelude.Bits.{
  tabulate, tabulate_lem, bit_and_0x80, bit_and_0x7f, bit_or_0x80, bit_or_0x00,
}
use incubator.Bytes.{Bytes, NetworkOrder, decode}
use incubator.WebSocket.Rfc6455.{
  FrameHeader, decoded, is_known, fin_flag, length_size, key_size, header_length, decode_header,
}

-- The flags of a frame that ends a message, or does not.
abbrev pub flags_of : Bool → ℕ
flags_of fin = if fin then fin_flag else 0x00

pub is_known-lt : (opcode : ℕ) → is_known opcode ≡ true → opcode < 16
is_known-lt opcode h = ground arith

abbrev pub first_byte : Bool → ℕ → ℕ
first_byte fin opcode = bit_or (flags_of fin) opcode % 2 ^ 8

first_table :
    (fin : Bool)
    → tabulate
        (λ x.
          (bit_and (first_byte fin x) 0x80 == flags_of fin)
          && ((bit_and (first_byte fin x) 0x0F == x) && (bit_and (first_byte fin x) 0x70 == 0)))
        16
      ≡ true
unfolding tabulate
first_table true = refl
first_table false = refl

pub first_byte_fields :
    (fin : Bool) (opcode : ℕ)
    → opcode < 16
    → (bit_and (first_byte fin opcode) 0x80 ≡ flags_of fin)
      × (bit_and (first_byte fin opcode) 0x0F ≡ opcode)
      × (bit_and (first_byte fin opcode) 0x70 ≡ 0)
first_byte_fields fin opcode h =
    let t = tabulate_lem _ opcode 16 h (first_table fin) in
    (ground (arith, t), ground (arith, t), ground (arith, t))

abbrev pub mask_bit : Bool → ℕ
mask_bit masked = if masked then 0x80 else 0x00

pub second_byte_fields :
    (masked : Bool) (len : ℕ)
    → len < 128
    → (bit_and (bit_or (mask_bit masked) len) 0x7F ≡ len)
      × (bit_and (bit_or (mask_bit masked) len) 0x80 ≡ mask_bit masked)
second_byte_fields true len h =
    rw
      (
        bit_or_0x80 len h,
        bit_and_0x7f (len + 128) (omega arith),
        bit_and_0x80 (len + 128) (omega arith),
      )
      (omega arith)
second_byte_fields false len h =
    rw
      (
        bit_or_0x00 len (omega arith),
        bit_and_0x7f len (omega arith),
        bit_and_0x80 len (omega arith),
      )
      (omega arith)

size_eq :
    (f : ℕ) (masked : Bool) (ext key : Bytes)
    → length ext ≡ length_size f
    → length key ≡ key_size masked
    → header_length f masked ≡ 2 + length ext + length key
size_eq f masked ext key le lk = ground arith

key_of_size :
    (key rest : Bytes) (masked : Bool) (read : Bytes → ℕ)
    → length key ≡ key_size masked
    → (if masked then read (take 4 (key ++ rest)) else 0) ≡ (if masked then read key else 0)
key_of_size key rest true read e = ap read (take_prefix key rest 4 e)
key_of_size key rest false read e = refl

module _ ⦃net : NetworkOrder⦄ where
  -- The header fields, read off their own bytes.
  abbrev pub fields_of : ℕ → ℕ → Bool → Bytes → Bytes → FrameHeader
  fields_of byte1 f masked ext key = record {
    fin = not (bit_and byte1 0x80 == 0);
    opcode = bit_and byte1 0x0F;
    mask_key = if masked then decode key else 0;
    payload_len = if ltb f 126 then f else decode ext;
  }

  -- A header whose parts have the sizes that its first two bytes name.
  pub decode_layout :
      (byte1 byte2 f : ℕ) (masked : Bool) (ext key rest : Bytes)
      → bit_and byte2 0x7F ≡ f
      → bit_and byte2 0x80 ≡ mask_bit masked
      → bit_and byte1 0x70 ≡ 0
      → is_known (bit_and byte1 0x0F) ≡ true
      → length ext ≡ length_size f
      → length key ≡ key_size masked
      → decode_header (byte1 ∷ byte2 ∷ (ext ++ (key ++ rest)))
        ≡ decoded (2 + length ext + length key) (fields_of byte1 f masked ext key)
  unfolding decode_header
  decode_layout byte1 byte2 f masked ext key rest e7 e8 e70 known le lk =
      rw (e7, test masked e8, size_eq f masked ext key le lk, enough, e70, known)
        (ap (decoded (2 + length ext + length key)) fields)
    where
      test : (m : Bool) → bit_and byte2 0x80 ≡ mask_bit m → not (bit_and byte2 0x80 == 0) ≡ m
      test true e = rw e
      test false e = rw e

      enough : ltb (suc (suc (length (ext ++ (key ++ rest))))) (2 + length ext + length key) ≡ false
      enough =
          le→ltb _ (2 + length ext + length key)
            (omega (arith, length-append ext (key ++ rest), length-append key rest))

      fields :
          record (fields_of byte1 f masked ext key) {
            mask_key =
                if masked then decode (take 4 (drop (length_size f) (ext ++ (key ++ rest)))) else 0;
            payload_len =
                if ltb f 126 then f else decode (take (length_size f) (ext ++ (key ++ rest)));
          }
          ≡ fields_of byte1 f masked ext key
      fields = rw (
        take_prefix ext (key ++ rest) (length_size f) le,
        drop_prefix ext (key ++ rest) (length_size f) le,
        key_of_size key rest masked decode lk,
      )
