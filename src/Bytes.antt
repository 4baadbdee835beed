-- ===== src/Bytes.antt =====
-- Byte sequences in network order. `detail::to_network_order`, `detail::from_network_order` and
-- the `memcpy` beside them belong to the CAF core library: they are a parameter, `NetworkOrder`,
-- with the documented meaning of network byte order as its laws.
use native.Mathlib.Nat.{
  pow-suc, pow-succ', add-zero, mul-add-div_right, div-eq_of_lt, mod-eq_of_lt, div-add-mod',
  div-lt_iff_lt-mul, mod-lt, mul_comm,
}
use incubator.Prelude.{
  ℕ, zero, suc, ◌+◌, ◌*◌, ◌/◌, ◌%◌, ◌^◌, ◌<◌, ◌≡◌, refl, ap, ap₂, sym, ◌∙◌, List, [], ◌∷◌, ◌++◌,
  arith, length, All, take, drop, take_prefix, drop_prefix, drop-drop, replicate,
}

abbrev pub IsByte : ℕ → Type 0
IsByte b = b < 256

abbrev pub Bytes : Type 0
Bytes = List ℕ

abbrev pub AreBytes : Bytes → Type 0
AreBytes = All IsByte

-- `memcpy` of `src` to the offset `at` of `dst`.
abbrev pub copy_to : ℕ → Bytes → Bytes → Bytes
copy_to at src dst = take at dst ++ (src ++ drop (at + length src) dst)

-- `std::vector::resize`: cut to `n` bytes, or filled up with zeros.
abbrev pub resize : ℕ → Bytes → Bytes
resize n buf = take n (buf ++ replicate n 0)

-- Writing `src` over the start of what is left of a buffer.
pub copy_to-prefix :
    (front src back : Bytes) (n : ℕ)
    → length front ≡ n
    → copy_to n src (front ++ back) ≡ front ++ (src ++ drop (length src) back)
copy_to-prefix front src back n e = ap₂ ◌++◌ (take_prefix front back n e) (
    ap (◌++◌ src) (
      sym (drop-drop (length src) n (front ++ back))
      ∙ ap (drop (length src)) (drop_prefix front back n e)))

-- `encode w x` is what memory holds once `to_network_order(x)` is copied out of a variable of
-- `w` bytes; `decode bs` is `from_network_order` of a variable that the bytes were copied into.
pub record NetworkOrder : Type 0 where
  pub encode : ℕ → ℕ → Bytes
  pub decode : Bytes → ℕ
  pub length-encode : (w x : ℕ) → length (encode w x) ≡ w
  pub encode-AreBytes : (w x : ℕ) → AreBytes (encode w x)
  pub decode-encode : (w x : ℕ) → x < 256 ^ w → decode (encode w x) ≡ x
  pub decode-nil : decode [] ≡ 0
  pub decode-cons : (b : ℕ) (bs : Bytes) → decode (b ∷ bs) ≡ b * 256 ^ length bs + decode bs

digit_lt : (b p d : ℕ) → b < 256 → d < p → b * p + d < 256 * p
digit_lt b p d hb hd = grind arith

digit_div : (a p x : ℕ) → x < p → (a * p + x) / p ≡ a
digit_div a p x h = mul-add-div_right (omega arith) a x ∙ rw (div-eq_of_lt h) (add-zero a)

digits_unique : (a b p x y : ℕ) → x < p → y < p → a * p + x ≡ b * p + y → (a ≡ b) × (x ≡ y)
digits_unique a b p x y hx hy e =
    let same : a ≡ b = sym (digit_div a p x hx) ∙ ap (λ (t : ℕ). t / p) e ∙ digit_div b p y hy in
    (same, omega (arith, ap (λ (t : ℕ). t * p) same))

module _ ⦃net : NetworkOrder⦄ where
  abbrev pub encode : ℕ → ℕ → Bytes
  encode = net.encode

  abbrev pub decode : Bytes → ℕ
  decode = net.decode

  -- What a sequence of bytes decodes to fits its width.
  pub decode-lt : (bs : Bytes) → AreBytes bs → decode bs < 256 ^ length bs
  decode-lt [] h = rw net.decode-nil (omega arith)
  decode-lt (b ∷ bs) h =
      rw (net.decode-cons b bs, pow-succ' 256 (length bs))
        (digit_lt b (256 ^ length bs) (net.decode bs) h.0 (decode-lt bs h.1))

  pub decode-lt_width : (w : ℕ) (bs : Bytes) → length bs ≡ w → AreBytes bs → decode bs < 256 ^ w
  decode-lt_width w bs e h = rw (sym e) (decode-lt bs h)

  -- Sequences of one length that decode to one number are equal.
  pub decode-eq :
      (xs ys : Bytes)
      → length xs ≡ length ys
      → AreBytes xs
      → AreBytes ys
      → decode xs ≡ decode ys
      → xs ≡ ys
  decode-eq [] [] e ha hb h = refl
  decode-eq [] (b ∷ bs) e ha hb h = absurd (omega arith)
  decode-eq (a ∷ xs) [] e ha hb h = absurd (omega arith)
  decode-eq (a ∷ xs) (b ∷ ys) e ha hb h =
      let n : length ys ≡ length xs = omega arith in
      let (head, tail) =
        digits_unique a b (256 ^ length xs) (decode xs) (decode ys) (decode-lt xs ha.1)
          (rw (sym n) (decode-lt ys hb.1))
          (sym (net.decode-cons a xs)
            ∙ h
            ∙ net.decode-cons b ys
            ∙ ap (λ (k : ℕ). b * 256 ^ k + decode ys) n) in
      ap₂ ◌∷◌ head (decode-eq xs ys (omega arith) ha.1 hb.1 tail)

  -- Encoding is the inverse of decoding on every sequence of bytes.
  pub encode-decode : (w : ℕ) (bs : Bytes) → length bs ≡ w → AreBytes bs → encode w (decode bs) ≡ bs
  encode-decode w bs e h =
      decode-eq (encode w (decode bs)) bs (net.length-encode w (decode bs) ∙ sym e)
        (net.encode-AreBytes w (decode bs)) h
        (net.decode-encode w (decode bs) (rw (sym e) (decode-lt bs h)))

  -- What follows an encoding does not change what a reader of its width decodes.
  pub decode-take-encode :
      (w x : ℕ) (rest : Bytes) → x < 256 ^ w → decode (take w (encode w x ++ rest)) ≡ x
  decode-take-encode w x rest h =
      ap decode (take_prefix (encode w x) rest w (net.length-encode w x)) ∙ net.decode-encode w x h

  pub drop-encode : (w x : ℕ) (rest : Bytes) → drop w (encode w x ++ rest) ≡ rest
  drop-encode w x rest = drop_prefix (encode w x) rest w (net.length-encode w x)

-- Network order written out: most significant byte first. It meets the laws above.
abbrev pub big_encode : ℕ → ℕ → Bytes
big_encode zero x = []
big_encode (suc w) x = (x / 256 ^ w % 256) ∷ big_encode w (x % 256 ^ w)

abbrev pub big_decode : Bytes → ℕ
big_decode [] = 0
big_decode (b ∷ bs) = b * 256 ^ length bs + big_decode bs

pub length-big_encode : (w x : ℕ) → length (big_encode w x) ≡ w
length-big_encode zero x = refl
length-big_encode (suc w) x = ap suc (length-big_encode w (x % 256 ^ w))

pub big_encode-AreBytes : (w x : ℕ) → AreBytes (big_encode w x)
big_encode-AreBytes zero x = tt
big_encode-AreBytes (suc w) x = (omega arith, big_encode-AreBytes w (x % 256 ^ w))

pow_pos : (w : ℕ) → 0 < 256 ^ w
pow_pos zero = omega arith
pow_pos (suc w) = rw (pow-suc 256 w) (omega (arith, pow_pos w))

top_digit : (x p : ℕ) → 0 < p → x < p * 256 → x / p % 256 * p + x % p ≡ x
top_digit x p hp h =
    let small : x < 256 * p = omega (arith, mul_comm p 256) in
    rw (mod-eq_of_lt ((div-lt_iff_lt-mul hp).1 small)) (div-add-mod' x p)

pub big_decode-encode : (w x : ℕ) → x < 256 ^ w → big_decode (big_encode w x) ≡ x
big_decode-encode zero x h = omega arith
big_decode-encode (suc w) x h =
    rw (length-big_encode w (x % 256 ^ w), big_decode-encode w (x % 256 ^ w) (mod-lt x (pow_pos w)))
      (top_digit x (256 ^ w) (pow_pos w) (rw (pow-suc 256 w) at h))

instance abbrev pub big_endian : NetworkOrder
big_endian = record {
  encode = big_encode;
  decode = big_decode;
  length-encode = length-big_encode;
  encode-AreBytes = big_encode-AreBytes;
  decode-encode = big_decode-encode;
  decode-nil = refl;
  decode-cons = λ b bs. refl;
}
