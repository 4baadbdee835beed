-- ===== src/WebSocket/Rfc6455.antt =====
-- caf/detail/rfc6455.hpp and src/detail/rfc6455.cpp: frames and masks of RFC 6455.
pub mod Mask
pub mod Frame
pub mod RoundTrip
pub mod Bounds
use incubator.Prelude.{
  ℕ, suc, ◌+◌, ◌-◌, ◌%◌, ◌^◌, ◌<◌, bit_and, bit_or, bit_xor, Bool, true, false, not, ◌||◌, ltb,
  ◌==◌, if◌then◌else◌, List, [], ◌∷◌, ◌++◌, length, get_or, take, drop,
}
use incubator.Bytes.{Bytes, NetworkOrder, encode, decode}

-- The struct `header`.
pub record FrameHeader : Type 0 where
  pub fin : Bool
  pub opcode : ℕ
  pub mask_key : ℕ
  pub payload_len : ℕ

abbrev pub continuation_frame : ℕ
continuation_frame = 0x00

abbrev pub text_frame : ℕ
text_frame = 0x01

abbrev pub binary_frame : ℕ
binary_frame = 0x02

abbrev pub connection_close : ℕ
connection_close = 0x08

abbrev pub ping : ℕ
ping = 0x09

abbrev pub pong : ℕ
pong = 0x0A

abbrev pub fin_flag : ℕ
fin_flag = 0x80

-- The loop over the data, at the index `i` of the key's bytes.
unfoldable pub mask_loop : Bytes → ℕ → Bytes → Bytes
mask_loop arr i [] = []
mask_loop arr i (x ∷ xs) = bit_xor x (get_or arr i 0) ∷ mask_loop arr ((i + 1) % 4) xs

-- The length field and the extended length of a payload of `size` bytes, with the mask bit.
module _ ⦃net : NetworkOrder⦄ where
  unfoldable pub mask_data : ℕ → Bytes → Bytes
  unfolding mask_loop
  mask_data key payload = mask_loop (encode 4 key) 0 payload

  unfoldable pub length_bytes : ℕ → ℕ → Bytes
  length_bytes mask_bit size =
      if ltb size 126
      then bit_or mask_bit (size % 2 ^ 8) ∷ []
      else if ltb size (2 ^ 16 - 1)
      then bit_or mask_bit 126 ∷ encode 2 (size % 2 ^ 16)
      else bit_or mask_bit 127 ∷ encode 8 (size % 2 ^ 64)

  unfoldable pub assemble_frame : ℕ → ℕ → Bytes → Bytes → ℕ → Bytes
  unfolding length_bytes
  assemble_frame opcode mask_key payload out flags =
      let mask_bit = if mask_key == 0 then 0x00 else 0x80 in
      out
      ++ (bit_or flags opcode % 2 ^ 8)
        ∷ (length_bytes mask_bit (length payload)
            ++ ((if mask_key == 0 then [] else encode 4 mask_key) ++ payload))

-- The result of `decode_header`: 0 asks for more input, -1 refuses the header, any other result is
-- the number of its bytes, with the header filled in.
pub data Decoded : Type 0 where
  incomplete invalid : Decoded
  decoded : ℕ → FrameHeader → Decoded

abbrev pub is_known : ℕ → Bool
is_known opcode =
    opcode == continuation_frame
    || opcode == text_frame
    || opcode == binary_frame
    || opcode == connection_close
    || opcode == ping
    || opcode == pong

-- Where the length field says that the length follows in 2 or 8 bytes.
abbrev pub length_size : ℕ → ℕ
length_size len_field = if ltb len_field 126 then 0 else if len_field == 126 then 2 else 8

abbrev pub key_size : Bool → ℕ
key_size masked = if masked then 4 else 0

abbrev pub header_length : ℕ → Bool → ℕ
header_length len_field masked =
    if ltb len_field 126
    then 2 + key_size masked
    else if len_field == 126
    then 4 + key_size masked
    else 10 + key_size masked

module _ ⦃net : NetworkOrder⦄ where
  -- The fields of a header whose bytes after the first two are `p`.
  abbrev pub read_header : ℕ → ℕ → Bytes → FrameHeader
  read_header byte1 byte2 p =
      let len_field = bit_and byte2 0x7F in
      record {
        fin = not (bit_and byte1 0x80 == 0);
        opcode = bit_and byte1 0x0F;
        mask_key =
            if not (bit_and byte2 0x80 == 0)
            then decode (take 4 (drop (length_size len_field) p))
            else 0;
        payload_len =
            if ltb len_field 126 then len_field else decode (take (length_size len_field) p);
      }

  unfoldable pub decode_header : Bytes → Decoded
  decode_header [] = incomplete
  decode_header (byte1 ∷ []) = incomplete
  decode_header (byte1 ∷ byte2 ∷ p) =
      let n = header_length (bit_and byte2 0x7F) (not (bit_and byte2 0x80 == 0)) in
      if ltb (suc (suc (length p))) n
      then incomplete
      else if not (bit_and byte1 0x70 == 0)
      then invalid
      else if is_known (bit_and byte1 0x0F)
      then decoded n (read_header byte1 byte2 p)
      else invalid
