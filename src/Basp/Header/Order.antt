-- ===== src/Basp/Header/Order.antt =====
-- The order of headers: `compare` goes by the bytes, and agrees with the order of the fields.
use Prim.Native.Nat.{Ordering, compare as compare_ℕ}
use incubator.Prelude.{
  ℕ, ◌+◌, ◌*◌, ◌^◌, ◌<◌, ◌≡◌, refl, ap, ap₂, sym, ◌∙◌, arith, [], ◌∷◌, ◌++◌, length,
}
use incubator.Bytes.{Bytes, AreBytes, NetworkOrder, encode, decode, decode-lt, decode-lt_width}
use incubator.Basp.Header.{Header, IsHeader, memcmp, compare}
use incubator.Basp.Header.Layout.{to_bytes-layout}

-- The first of two comparisons that tells its sides apart.
abbrev pub or_else : Ordering → Ordering → Ordering
or_else Ordering.lt o = Ordering.lt
or_else Ordering.gt o = Ordering.gt
or_else Ordering.eq o = o

or_else_assoc : (a b c : Ordering) → or_else (or_else a b) c ≡ or_else a (or_else b c)
or_else_assoc Ordering.lt b c = refl
or_else_assoc Ordering.gt b c = refl
or_else_assoc Ordering.eq b c = refl

memcmp-cons :
    (x y : ℕ) (xs ys : Bytes) → memcmp (x ∷ xs) (y ∷ ys) ≡ or_else (compare_ℕ x y) (memcmp xs ys)
memcmp-cons x y xs ys = ground arith

memcmp-append :
    (xs ys us vs : Bytes)
    → length xs ≡ length ys
    → memcmp (xs ++ us) (ys ++ vs) ≡ or_else (memcmp xs ys) (memcmp us vs)
memcmp-append [] [] us vs e = refl
memcmp-append [] (y ∷ ys) us vs e = absurd (omega arith)
memcmp-append (x ∷ xs) [] us vs e = absurd (omega arith)
memcmp-append (x ∷ xs) (y ∷ ys) us vs e =
    memcmp-cons x y (xs ++ us) (ys ++ vs)
    ∙ ap (or_else (compare_ℕ x y)) (memcmp-append xs ys us vs (omega arith))
    ∙ sym (or_else_assoc (compare_ℕ x y) (memcmp xs ys) (memcmp us vs))
    ∙ ap (λ o. or_else o (memcmp us vs)) (sym (memcmp-cons x y xs ys))

digits_lt : (a b p x y : ℕ) → a < b → x < p → a * p + x < b * p + y
digits_lt a b p x y h hx = grind arith

compare_digits :
    (a b p x y : ℕ)
    → x < p
    → y < p
    → or_else (compare_ℕ a b) (compare_ℕ x y) ≡ compare_ℕ (a * p + x) (b * p + y)
compare_digits a b p x y hx hy = ground (arith, digits_lt a b p x y, digits_lt b a p y x)

module _ ⦃net : NetworkOrder⦄ where
  memcmp-decode :
      (xs ys : Bytes)
      → length xs ≡ length ys
      → AreBytes xs
      → AreBytes ys
      → memcmp xs ys ≡ compare_ℕ (decode xs) (decode ys)
  memcmp-decode [] [] e hx hy = rw net.decode-nil
  memcmp-decode [] (y ∷ ys) e hx hy = absurd (omega arith)
  memcmp-decode (x ∷ xs) [] e hx hy = absurd (omega arith)
  memcmp-decode (x ∷ xs) (y ∷ ys) e hx hy =
      memcmp-cons x y xs ys
      ∙ ap (or_else (compare_ℕ x y)) (memcmp-decode xs ys (omega arith) hx.1 hy.1)
      ∙ compare_digits x y (256 ^ length ys) (decode xs) (decode ys)
          (decode-lt_width (length ys) xs (omega arith) hx.1) (decode-lt ys hy.1)
      ∙ ap₂ compare_ℕ
          (ap (λ (k : ℕ). x * 256 ^ k + decode xs) (omega arith) ∙ sym (net.decode-cons x xs))
          (sym (net.decode-cons y ys))

  memcmp-encode :
      (w a b : ℕ) → a < 256 ^ w → b < 256 ^ w → memcmp (encode w a) (encode w b) ≡ compare_ℕ a b
  memcmp-encode w a b ha hb =
      memcmp-decode (encode w a) (encode w b) (net.length-encode w a ∙ sym (net.length-encode w b))
        (net.encode-AreBytes w a) (net.encode-AreBytes w b)
      ∙ ap₂ compare_ℕ (net.decode-encode w a ha) (net.decode-encode w b hb)

  -- Comparing the bytes of two headers compares their types, then their payload lengths, then
  -- their operation data.
  pub compare_fields :
      (x y : Header)
      → IsHeader x
      → IsHeader y
      → compare x y
        ≡ or_else (compare_ℕ x.type y.type) (
            or_else
              (compare_ℕ x.payload_len y.payload_len)
              (compare_ℕ x.operation_data y.operation_data))
  unfolding compare
  compare_fields x y hx hy =
      ap₂ memcmp (to_bytes-layout x) (to_bytes-layout y)
      ∙ memcmp-cons x.type y.type (encode 4 x.payload_len ++ encode 8 x.operation_data)
          (encode 4 y.payload_len ++ encode 8 y.operation_data)
      ∙ ap (or_else (compare_ℕ x.type y.type)) (
          memcmp-append (encode 4 x.payload_len) (encode 4 y.payload_len)
            (encode 8 x.operation_data) (encode 8 y.operation_data)
            (net.length-encode 4 x.payload_len ∙ sym (net.length-encode 4 y.payload_len))
          ∙ ap₂ or_else
              (memcmp-encode 4 x.payload_len y.payload_len hx.payload_len_fits hy.payload_len_fits)
              (memcmp-encode 8 x.operation_data y.operation_data hx.operation_data_fits
                hy.operation_data_fits))
