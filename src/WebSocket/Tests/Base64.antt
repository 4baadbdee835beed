-- ===== src/WebSocket/Tests/Base64.antt =====
-- A digest that meets the laws, for tests: base 64, with a hash that takes the first 20 bytes.
use incubator.Prelude.{
  ℕ, zero, suc, ◌+◌, ◌-◌, ◌*◌, ◌/◌, ◌%◌, ◌<◌, ◌≡◌, refl, ap, ap₂, true, false, leb, ltb, ◌==◌,
  if◌then◌else◌, some, [], ◌∷◌, ◌++◌, All, arith, length,
}
use incubator.Bytes.{Bytes, AreBytes}
use incubator.WebSocket.Handshake.{Digest, is_base64}

unfoldable pub char : ℕ → ℕ
char x =
    if ltb x 26
    then x + 65
    else if ltb x 52
    then x + 71
    else if ltb x 62
    then x - 4
    else if x == 62
    then b'+'
    else b'/'

unfoldable pub sextet : ℕ → ℕ
sextet c =
    if leb b'a' c
    then c - 71
    else if leb b'A' c
    then c - 65
    else if leb b'0' c
    then c + 4
    else if c == b'+'
    then 62
    else 63

char-sextet : (x : ℕ) → x < 64 → sextet (char x) ≡ x
unfolding char sextet
char-sextet x h = ground arith

char-is_base64 : (x : ℕ) → x < 64 → is_base64 (char x) ≡ true
unfolding char
char-is_base64 x h = ground arith

char-ne_pad : (x : ℕ) → (char x == b'=') ≡ false
unfolding char
char-ne_pad x = ground arith

unfoldable pub encode : Bytes → Bytes
encode [] = []
encode (a ∷ []) = char (a / 4) ∷ char (a % 4 * 16) ∷ b'=' ∷ b'=' ∷ []
encode (a ∷ b ∷ []) = char (a / 4) ∷ char (a % 4 * 16 + b / 16) ∷ char (b % 16 * 4) ∷ b'=' ∷ []
encode (a ∷ b ∷ c ∷ bs) =
    char (a / 4)
    ∷ char (a % 4 * 16 + b / 16)
    ∷ char (b % 16 * 4 + c / 64)
    ∷ char (c % 64)
    ∷ encode bs

abbrev group : ℕ → ℕ → ℕ → ℕ → Bytes → Bytes
group w x y z rest =
    if y == b'='
    then (sextet w * 4 + sextet x / 16) ∷ []
    else if z == b'='
    then (sextet w * 4 + sextet x / 16) ∷ (sextet x % 16 * 16 + sextet y / 4) ∷ []
    else (sextet w * 4 + sextet x / 16)
      ∷ (sextet x % 16 * 16 + sextet y / 4)
      ∷ (sextet y % 4 * 64 + sextet z)
      ∷ rest

unfoldable pub decode : Bytes → Bytes
decode (w ∷ x ∷ y ∷ z ∷ cs) = group w x y z (decode cs)
decode cs = []

abbrev IsByte3 : ℕ → ℕ → ℕ → Type 0
IsByte3 a b c = (a < 256) × (b < 256) × (c < 256)

pub decode-encode : (bs : Bytes) → AreBytes bs → decode (encode bs) ≡ bs
unfolding decode encode
decode-encode [] h = refl
decode-encode (a ∷ []) h =
    rw (char-sextet (a / 4) (omega arith), char-sextet (a % 4 * 16) (omega arith))
      (ap (λ (t : ℕ). t ∷ []) (omega arith))
decode-encode (a ∷ b ∷ []) h =
    rw
      (
        char-ne_pad (b % 16 * 4),
        char-sextet (a / 4) (omega arith),
        char-sextet (a % 4 * 16 + b / 16) (omega arith),
        char-sextet (b % 16 * 4) (omega arith),
      )
      (ap₂ (λ (s t : ℕ). s ∷ t ∷ []) (omega arith) (omega arith))
decode-encode (a ∷ b ∷ c ∷ bs) h =
    rw
      (
        char-ne_pad (b % 16 * 4 + c / 64),
        char-ne_pad (c % 64),
        char-sextet (a / 4) (omega arith),
        char-sextet (a % 4 * 16 + b / 16) (omega arith),
        char-sextet (b % 16 * 4 + c / 64) (omega arith),
        char-sextet (c % 64) (omega arith),
        decode-encode bs h.1.1.1,
      )
      (ap₂ ◌∷◌ (omega arith) (ap₂ ◌∷◌ (omega arith) (ap (λ (t : ℕ). t ∷ bs) (omega arith))))

pub encode-is_base64 : (bs : Bytes) → AreBytes bs → All (λ c. is_base64 c ≡ true) (encode bs)
unfolding encode
encode-is_base64 [] h = tt
encode-is_base64 (a ∷ []) h = (
  char-is_base64 (a / 4) (omega arith),
  (char-is_base64 (a % 4 * 16) (omega arith), (refl, (refl, tt))),
)
encode-is_base64 (a ∷ b ∷ []) h = (
  char-is_base64 (a / 4) (omega arith),
  (
    char-is_base64 (a % 4 * 16 + b / 16) (omega arith),
    (char-is_base64 (b % 16 * 4) (omega arith), (refl, tt)),
  ),
)
encode-is_base64 (a ∷ b ∷ c ∷ bs) h = (
  char-is_base64 (a / 4) (omega arith),
  (
    char-is_base64 (a % 4 * 16 + b / 16) (omega arith),
    (
      char-is_base64 (b % 16 * 4 + c / 64) (omega arith),
      (char-is_base64 (c % 64) (omega arith), encode-is_base64 bs h.1.1.1),
    ),
  ),
)

pub encode_rest :
    (n : ℕ) (bs : Bytes)
    → length bs ≡ n * 3 + 1
    → (front : Bytes) × (length front ≡ n * 4 + 2) × (encode bs ≡ front ++ (b'=' ∷ b'=' ∷ []))
unfolding encode
encode_rest zero [] e = absurd (omega arith)
encode_rest zero (a ∷ []) e = (char (a / 4) ∷ char (a % 4 * 16) ∷ [], refl, refl)
encode_rest zero (a ∷ b ∷ bs) e = absurd (omega arith)
encode_rest (suc n) [] e = absurd (omega arith)
encode_rest (suc n) (a ∷ []) e = absurd (omega arith)
encode_rest (suc n) (a ∷ b ∷ []) e = absurd (omega arith)
encode_rest (suc n) (a ∷ b ∷ c ∷ bs) e =
    let (front, size, same) = encode_rest n bs (omega arith) in
    (
      char (a / 4)
          ∷ char (a % 4 * 16 + b / 16)
          ∷ char (b % 16 * 4 + c / 64)
          ∷ char (c % 64)
          ∷ front,
      omega arith,
      ap
          (λ (t : Bytes).
            char (a / 4)
            ∷ char (a % 4 * 16 + b / 16)
            ∷ char (b % 16 * 4 + c / 64)
            ∷ char (c % 64)
            ∷ t)
          same,
    )

pub first_bytes : ℕ → Bytes → Bytes
first_bytes zero bs = []
first_bytes (suc n) [] = 0 ∷ first_bytes n []
first_bytes (suc n) (b ∷ bs) = b % 256 ∷ first_bytes n bs

pub first_bytes-AreBytes : (n : ℕ) (bs : Bytes) → AreBytes (first_bytes n bs)
unfolding first_bytes
first_bytes-AreBytes zero bs = tt
first_bytes-AreBytes (suc n) [] = (omega arith, first_bytes-AreBytes n [])
first_bytes-AreBytes (suc n) (b ∷ bs) = (omega arith, first_bytes-AreBytes n bs)

instance abbrev pub standard : Digest
standard = record {
  base64_encode = encode;
  base64_decode = λ cs. some (decode cs);
  sha1 = first_bytes 20;
  sha1-AreBytes = first_bytes-AreBytes 20;
  encode-IsBase64 = encode-is_base64;
  decode-encode = λ bs h. ap some (decode-encode bs h);
  encode_key = λ bs h n. encode_rest 5 bs n;
}
