-- ===== src/WebSocket/Rfc6455/Mask.antt =====
-- The mask of src/detail/rfc6455.cpp, applied twice, and what it keeps.
use incubator.Prelude.{
  ℕ, zero, suc, ◌+◌, ◌%◌, ◌≡◌, ◌<◌, refl, ap, ◌∙◌, ap₂, arith, [], ◌∷◌, length, get_or, bit_xor,
}
use incubator.Prelude.Bits.{bit_xor_byte}
use incubator.Bytes.{Bytes, IsByte, AreBytes, NetworkOrder, encode, decode, encode-decode}
use incubator.WebSocket.Rfc6455.{mask_loop, mask_data}

get_or-IsByte : (arr : Bytes) (i : ℕ) → AreBytes arr → IsByte (get_or arr i 0)
get_or-IsByte [] i h = omega arith
get_or-IsByte (b ∷ bs) zero h = h.0
get_or-IsByte (b ∷ bs) (suc i) h = get_or-IsByte bs i h.1

mask_loop-mask_loop :
    (arr xs : Bytes) (i : ℕ)
    → AreBytes arr
    → AreBytes xs
    → mask_loop arr i (mask_loop arr i xs) ≡ xs
unfolding mask_loop
mask_loop-mask_loop arr [] i ha h = refl
mask_loop-mask_loop arr (x ∷ xs) i ha h =
    ap₂ ◌∷◌ (bit_xor_byte x (get_or arr i 0) h.0 (get_or-IsByte arr i ha)).0
      (mask_loop-mask_loop arr xs ((i + 1) % 4) ha h.1)

mask_loop_shape :
    (arr xs : Bytes) (i : ℕ)
    → AreBytes arr
    → AreBytes xs
    → (length (mask_loop arr i xs) ≡ length xs) × AreBytes (mask_loop arr i xs)
unfolding mask_loop
mask_loop_shape arr [] i ha h = (refl, tt)
mask_loop_shape arr (x ∷ xs) i ha h =
    let rest = mask_loop_shape arr xs ((i + 1) % 4) ha h.1 in
    (ap suc rest.0, ((bit_xor_byte x (get_or arr i 0) h.0 (get_or-IsByte arr i ha)).1, rest.1))

get_or-mask_loop :
    (arr xs : Bytes) (i j : ℕ)
    → i < 4
    → j < length xs
    → get_or (mask_loop arr i xs) j 0 ≡ bit_xor (get_or xs j 0) (get_or arr ((i + j) % 4) 0)
unfolding mask_loop
get_or-mask_loop arr [] i j hi hj = absurd (omega arith)
get_or-mask_loop arr (x ∷ xs) i zero hi hj =
    ap (λ (k : ℕ). bit_xor x (get_or arr k 0)) (omega arith)
get_or-mask_loop arr (x ∷ xs) i (suc j) hi hj =
    get_or-mask_loop arr xs ((i + 1) % 4) j (omega arith) (omega arith)
    ∙ ap (λ (k : ℕ). bit_xor (get_or xs j 0) (get_or arr k 0)) (omega arith)

module _ ⦃net : NetworkOrder⦄ where
  -- Masking twice with one key gives the data back.
  pub mask_data-mask_data :
      (key : ℕ) (payload : Bytes)
      → AreBytes payload
      → mask_data key (mask_data key payload) ≡ payload
  unfolding mask_data
  mask_data-mask_data key payload h =
      mask_loop-mask_loop (encode 4 key) payload 0 (net.encode-AreBytes 4 key) h

  -- Masking keeps the number of bytes.
  pub mask_data_shape :
      (key : ℕ) (payload : Bytes)
      → AreBytes payload
      → (length (mask_data key payload) ≡ length payload) × AreBytes (mask_data key payload)
  unfolding mask_data
  mask_data_shape key payload h =
      mask_loop_shape (encode 4 key) payload 0 (net.encode-AreBytes 4 key) h

  -- With the key that four bytes in network order stand for, masking keeps the number of bytes, turns
  -- each byte of a payload into the exclusive or with the byte of the key that stands at its index
  -- modulo 4, and gives the payload back when it is done twice.
  pub mask_data_lem :
      (key_bytes payload : Bytes) (i : ℕ)
      → length key_bytes ≡ 4
      → AreBytes key_bytes
      → AreBytes payload
      → i < length payload
      → (length (mask_data (decode key_bytes) payload) ≡ length payload)
        × (get_or (mask_data (decode key_bytes) payload) i 0
            ≡ bit_xor (get_or payload i 0) (get_or key_bytes (i % 4) 0))
        × (mask_data (decode key_bytes) (mask_data (decode key_bytes) payload) ≡ payload)
  unfolding mask_data
  mask_data_lem key_bytes payload i four hk h lt = (
    (mask_data_shape (decode key_bytes) payload h).0,
    get_or-mask_loop (encode 4 (decode key_bytes)) payload 0 i (omega arith) lt
        ∙ ap (λ (j : ℕ). bit_xor (get_or payload i 0) (get_or (encode 4 (decode key_bytes)) j 0))
            (omega arith)
        ∙ ap (λ (bs : Bytes). bit_xor (get_or payload i 0) (get_or bs (i % 4) 0))
            (encode-decode 4 key_bytes four hk),
    mask_data-mask_data (decode key_bytes) payload h,
  )
