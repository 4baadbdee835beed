-- ===== src/Basp/Header/Layout.antt =====
-- What the bytes of a header are, and the way back.
use incubator.Prelude.{
  ℕ, ap₂, All-append, ◌≡◌, refl, ap, sym, ◌∙◌, arith, [], ◌∷◌, ◌++◌, length, length-append, take,
  drop, take_all, drop_all, length-take, length-drop, append-nil, append_assoc, All-take, All-drop,
  take-append-drop, replicate,
}
use incubator.Bytes.{
  Bytes, resize, IsByte, AreBytes, copy_to, copy_to-prefix, NetworkOrder, encode, decode,
  encode-decode, decode-take-encode, drop-encode, decode-lt_width,
}
use incubator.Basp.Header.{
  Header, IsHeader, header_size, to_bytes_impl, to_bytes, to_buffer, from_bytes,
}

-- One byte, four bytes and eight bytes written into a buffer of 13.
three_writes :
    (t : ℕ) (mid back buf : Bytes)
    → length mid ≡ 4
    → length back ≡ 8
    → length buf ≡ 13
    → copy_to 5 back (copy_to 1 mid (copy_to 0 (t ∷ []) buf)) ≡ t ∷ (mid ++ back)
three_writes t mid back [] hm hb h = absurd (omega arith)
three_writes t mid back (b ∷ buf) hm hb h =
    let second : copy_to 1 mid (t ∷ buf) ≡ t ∷ (mid ++ drop (length mid) buf) =
      copy_to-prefix (t ∷ []) mid buf 1 refl in
    let none_left : drop (length back) (drop (length mid) buf) ≡ [] =
      drop_all (length back) (drop (length mid) buf)
        (omega (arith, length-drop (length mid) buf)) in
    ap (copy_to 5 back) second
    ∙ copy_to-prefix (t ∷ mid) back (drop (length mid) buf) 5 (omega arith)
    ∙ ap (λ r. t ∷ (mid ++ (back ++ r))) none_left
    ∙ ap (λ r. t ∷ (mid ++ r)) (append-nil back)

module _ ⦃net : NetworkOrder⦄ where
  abbrev layout : Header → Bytes
  layout x = x.type ∷ (encode 4 x.payload_len ++ encode 8 x.operation_data)

  to_bytes_impl-layout :
      (x : Header) (buf : Bytes) → length buf ≡ header_size → to_bytes_impl x buf ≡ layout x
  unfolding to_bytes_impl
  to_bytes_impl-layout x buf e =
      three_writes x.type (encode 4 x.payload_len) (encode 8 x.operation_data) buf
        (net.length-encode 4 x.payload_len) (net.length-encode 8 x.operation_data) e

  pub to_bytes-layout : (x : Header) → to_bytes x ≡ layout x
  unfolding to_bytes
  to_bytes-layout x = to_bytes_impl-layout x (replicate header_size 0) refl

  length-resize : (buf : Bytes) → length (resize header_size buf) ≡ header_size
  length-resize buf = omega (
    arith,
    length-take header_size (buf ++ replicate header_size 0),
    length-append buf (replicate header_size 0),
  )

  -- Both ways to serialize a header write the same 13 bytes, whatever the buffer held before.
  pub to_buffer-to_bytes : (x : Header) (buf : Bytes) → to_buffer x buf ≡ to_bytes x
  unfolding to_buffer
  to_buffer-to_bytes x buf =
      to_bytes_impl-layout x (resize header_size buf) (length-resize buf) ∙ sym (to_bytes-layout x)

  pub to_bytes_shape :
      (x : Header) → IsHeader x → (length (to_bytes x) ≡ header_size) × AreBytes (to_bytes x)
  to_bytes_shape x h = rw (to_bytes-layout x) (
    omega (
      arith,
      length-append (encode 4 x.payload_len) (encode 8 x.operation_data),
      net.length-encode 4 x.payload_len,
      net.length-encode 8 x.operation_data,
    ),
    (
      h.type_fits,
      All-append IsByte _ _ (net.encode-AreBytes 4 x.payload_len)
          (net.encode-AreBytes 8 x.operation_data),
    ),
  )

  -- Reading a serialized header gives the header back, whatever follows it.
  pub from_bytes-to_bytes :
      (x : Header) (rest : Bytes) → IsHeader x → from_bytes (to_bytes x ++ rest) ≡ x
  unfolding from_bytes
  from_bytes-to_bytes x rest h =
      rw (to_bytes-layout x)
        λ i. record { type = x.type; payload_len = len i; operation_data = data_field i }
    where
      tail : Bytes
      tail = encode 8 x.operation_data ++ rest

      len :
          decode (take 4 ((encode 4 x.payload_len ++ encode 8 x.operation_data) ++ rest))
          ≡ x.payload_len
      len = rw append_assoc (decode-take-encode 4 x.payload_len tail h.payload_len_fits)

      data_field :
          decode (take 8 (drop 4 ((encode 4 x.payload_len ++ encode 8 x.operation_data) ++ rest)))
          ≡ x.operation_data
      data_field =
          rw (append_assoc, drop-encode 4 x.payload_len tail)
            (decode-take-encode 8 x.operation_data rest h.operation_data_fits)

  -- Serializing what was read from 13 bytes gives the bytes back.
  pub to_bytes-from_bytes :
      (bs : Bytes) → length bs ≡ header_size → AreBytes bs → to_bytes (from_bytes bs) ≡ bs
  unfolding from_bytes
  to_bytes-from_bytes [] e h = absurd (omega arith)
  to_bytes-from_bytes (b ∷ bs) e h =
      to_bytes-layout _
      ∙ ap (◌∷◌ b) (
          ap₂ ◌++◌
            (encode-decode 4 (take 4 bs) (omega (arith, length-take 4 bs))
              (All-take IsByte 4 bs h.1))
            (ap (λ r. encode 8 (decode r)) whole
              ∙ encode-decode 8 (drop 4 bs) (omega (arith, length-drop 4 bs))
                  (All-drop IsByte 4 bs h.1))
          ∙ take-append-drop 4 bs)
    where
      whole : take 8 (drop 4 bs) ≡ drop 4 bs
      whole = take_all 8 (drop 4 bs) (omega (arith, length-drop 4 bs))

  -- What is read from bytes fits the fields.
  pub from_bytes-IsHeader :
      (bs : Bytes) → length bs ≡ header_size → AreBytes bs → IsHeader (from_bytes bs)
  unfolding from_bytes
  from_bytes-IsHeader [] e h = absurd (omega arith)
  from_bytes-IsHeader (b ∷ bs) e h = record {
    type_fits = h.0;
    payload_len_fits =
        decode-lt_width 4 (take 4 bs) (omega (arith, length-take 4 bs)) (All-take IsByte 4 bs h.1);
    operation_data_fits =
        decode-lt_width 8 (take 8 (drop 4 bs))
          (omega (arith, length-take 8 (drop 4 bs), length-drop 4 bs))
          (All-take IsByte 8 _ (All-drop IsByte 4 bs h.1));
  }
