-- ===== src/WebSocket/Tests/Rfc6455Tests.antt =====
-- Masks and frame headers on concrete inputs.
use incubator.Prelude.{ℕ, ◌≤◌, ◌≡◌, refl, arith, true, [], ◌∷◌, ◌++◌, length, drop, get_or, bit_xor}
use incubator.Bytes.{Bytes, big_endian, decode}
use incubator.WebSocket.Rfc6455.{
  FrameHeader, text_frame, mask_data, length_bytes, assemble_frame, decoded, decode_header,
}
use incubator.WebSocket.Rfc6455.Mask.{mask_data_lem}
use incubator.WebSocket.Rfc6455.Frame.{flags_of}
use incubator.WebSocket.Rfc6455.RoundTrip.{frame_header_size, decode_header-assemble_frame}
use incubator.WebSocket.Rfc6455.Bounds.{Fits, decode_header_bounds, decode_header-append}

abbrev hello : Bytes
hello = 72 ∷ 101 ∷ 108 ∷ 108 ∷ 111 ∷ []

-- The masked text frame of the RFC, section 5.7.
abbrev hello_frame : Bytes
hello_frame = 0x81 ∷ 0x85 ∷ 0x37 ∷ 0xFA ∷ 0x21 ∷ 0x3D ∷ 0x7F ∷ 0x9F ∷ 0x4D ∷ 0x51 ∷ 0x58 ∷ []

abbrev hello_key : ℕ
hello_key = 0x37FA213D

abbrev hello_header : FrameHeader
hello_header = record { fin = true; opcode = text_frame; mask_key = hello_key; payload_len = 5 }

hello_assembled :
    assemble_frame text_frame hello_key (mask_data hello_key hello) [] (flags_of true) ≡ hello_frame
unfolding assemble_frame mask_data
hello_assembled = refl

hello_decoded : decode_header hello_frame ≡ decoded 6 hello_header
unfolding decode_header
hello_decoded = refl

-- A payload of 65535 bytes takes the length field of eight bytes, though two would do.
long_length : length_bytes 0x00 65535 ≡ 127 ∷ 0 ∷ 0 ∷ 0 ∷ 0 ∷ 0 ∷ 0 ∷ 255 ∷ 255 ∷ []
unfolding length_bytes
long_length = refl

abbrev key_octets : Bytes
key_octets = 0x37 ∷ 0xFA ∷ 0x21 ∷ 0x3D ∷ []

mask_data_lem_example :
    (length (mask_data (decode key_octets) hello) ≡ 5)
    × (get_or (mask_data (decode key_octets) hello) 4 0 ≡ bit_xor 111 0x37)
    × (mask_data (decode key_octets) (mask_data (decode key_octets) hello) ≡ hello)
mask_data_lem_example =
    mask_data_lem key_octets hello 4 refl (omega arith) (omega arith) (omega arith)

decode_header-assemble_frame_example :
    (decode_header (assemble_frame text_frame hello_key hello [] (flags_of true) ++ (7 ∷ []))
      ≡ decoded (frame_header_size hello_key (length hello)) hello_header)
    × (drop
          (frame_header_size hello_key (length hello))
          (assemble_frame text_frame hello_key hello [] (flags_of true) ++ (7 ∷ []))
        ≡ hello ++ (7 ∷ []))
decode_header-assemble_frame_example =
    decode_header-assemble_frame true text_frame hello_key hello (7 ∷ []) refl (omega arith)
      (omega arith)

decode_header_bounds_example : (6 ≤ length hello_frame) × Fits 6 hello_header
decode_header_bounds_example =
    decode_header_bounds hello_frame 6 hello_header (omega arith) hello_decoded

decode_header-append_example : decode_header (hello_frame ++ hello) ≡ decoded 6 hello_header
decode_header-append_example = decode_header-append hello_frame hello 6 hello_header hello_decoded
