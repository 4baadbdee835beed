-- ===== src/LengthPrefix/Receive.antt =====
-- What `consume` does with the messages of its input: it hands them to the upper layer one by one.
use native.Mathlib.Nat.{add_assoc, add-zero}
use Prim.Native.Nat.add
use incubator.Prelude.{
  ℕ, zero, suc, ◌+◌, ◌≤◌, ◌<◌, ◌≡◌, refl, sym, ap, ◌∙◌, arith, Bool, true, false, ltb, le→ltb,
  ltb→le, ◌==◌, if◌then◌else◌, ◌++◌, length, take, drop, length-append, length-drop, length-take,
  drop-drop, append_assoc, Bool-cases, inl, inr, take_prefix, drop_prefix,
}
use incubator.Bytes.{Bytes, NetworkOrder, encode, decode, decode-take-encode, drop-encode}
use incubator.Net.Error.{make_error, runtime_error}
use incubator.Net.Down.{abort_reason}
use incubator.Net.Consumed.{Consumed, taken, failed, stuck}
use incubator.LengthPrefix.{Framing, max_message_length, consume_loop, split, grow}
use incubator.LengthPrefix.Send.{frame}

-- Sizes that the receiver accepts.
abbrev pub IsMessage : Bytes → Type 0
IsMessage m = (0 < length m) × (length m ≤ max_message_length)

-- A result of a later part of the input, where `n` bytes were taken before it.
abbrev pub shift : {U : Type 0} → ℕ → Consumed × U × Framing → Consumed × U × Framing
shift n (taken k, u, f) = (taken (n + k), u, f)
shift n (failed, u, f) = (failed, u, f)
shift n (stuck, u, f) = (stuck, u, f)

pub shift-shift :
    {U : Type 0} (m n : ℕ) (r : Consumed × U × Framing) → shift m (shift n r) ≡ shift (m + n) r
shift-shift m n (taken k, u, f) = ap (λ (t : ℕ). (taken t, u, f)) (sym (add_assoc m n k))
shift-shift m n (failed, u, f) = refl
shift-shift m n (stuck, u, f) = refl

pub shift_zero : {U : Type 0} (r : Consumed × U × Framing) → r ≡ shift 0 r
shift_zero (taken k, u, f) = ap (λ (t : ℕ). (taken t, u, f)) (sym (add.zero k))
shift_zero (failed, u, f) = refl
shift_zero (stuck, u, f) = refl

module _ ⦃net : NetworkOrder⦄ {U : Type 0} (upper : Bytes → U → Framing → Bool × U × Framing) where
  -- One round on an input that starts with a length.
  pub round_message :
      (fuel : ℕ) (m rest : Bytes) (c : ℕ) (u : U) (f : Framing)
      → IsMessage m
      → consume_loop upper (suc fuel) (frame m ++ rest) c u f ≡ (
          if (upper m u f).0
          then consume_loop upper fuel rest (c + (length m + 4)) (upper m u f).1 (upper m u f).2
          else (failed, (upper m u f).1, (upper m u f).2))
  unfolding consume_loop
  round_message fuel m rest c u f (h0, h1) = rw (
    append_assoc (encode 4 (length m)) m rest,
    size,
    tail,
    whole,
    back,
    long,
    nonzero,
    small,
    enough,
  )
    where
      size : decode (take 4 (encode 4 (length m) ++ (m ++ rest))) ≡ length m
      size = decode-take-encode 4 (length m) (m ++ rest) (omega arith)

      tail : drop 4 (encode 4 (length m) ++ (m ++ rest)) ≡ m ++ rest
      tail = drop-encode 4 (length m) (m ++ rest)

      whole : take (length m) (m ++ rest) ≡ m
      whole = take_prefix m rest (length m) refl

      back : drop (length m) (m ++ rest) ≡ rest
      back = drop_prefix m rest (length m) refl

      long : ltb (length (encode 4 (length m) ++ (m ++ rest))) 4 ≡ false
      long = le→ltb _ 4 (
          omega (
            arith,
            length-append (encode 4 (length m)) (m ++ rest),
            net.length-encode 4 (length m),
          ))

      nonzero : (length m == 0) ≡ false
      nonzero = ground arith

      small : ltb max_message_length (length m) ≡ false
      small = le→ltb max_message_length (length m) h1

      enough : ltb (length (m ++ rest)) (length m) ≡ false
      enough = le→ltb (length (m ++ rest)) (length m) (omega (arith, length-append m rest))

  -- One round of the loop: the end of the call, or a number of bytes taken and what is left.
  pub data Round : Type 0 where
    done : Consumed × U × Framing → Round
    again : ℕ → Bytes → U → Framing → Round

  abbrev pub after_message : ℕ → Bytes → Bytes → Bool × U × Framing → Round
  after_message n msg rest (accepted, u, f) =
      if accepted then again n rest u f else done (failed, u, f)

  unfoldable pub round : Bytes → U → Framing → Round
  round input u f =
      let (msg_size, sub) = split input in
      if ltb (length input) 4
      then done (taken 0, u, f)
      else if msg_size == 0
      then again 4 sub u f
      else if ltb max_message_length msg_size
      then done (
        failed,
        u,
        record f {
          down = abort_reason (make_error runtime_error "maximum message size exceeded") f.down;
        },
      )
      else if ltb (length sub) msg_size
      then done (taken 0, u, grow upper msg_size f)
      else after_message (length (take msg_size sub) + 4) (take msg_size sub) (drop msg_size sub)
          (upper (take msg_size sub) u f)

  abbrev pub follow : ℕ → ℕ → Round → Consumed × U × Framing
  follow fuel c (done r) = shift c r
  follow fuel c (again n rest u f) = consume_loop upper fuel rest (c + n) u f

  pub loop_round :
      (fuel : ℕ) (input : Bytes) (c : ℕ) (u : U) (f : Framing)
      → consume_loop upper (suc fuel) input c u f ≡ follow fuel c (round input u f)
  unfolding consume_loop round
  loop_round fuel input c u f = ground (arith, add-zero c)

  follow-shift :
      (fuel c : ℕ) (r : Round)
      → ((input : Bytes) (k : ℕ) (u : U) (f : Framing)
          → consume_loop upper fuel input k u f ≡ shift k (consume_loop upper fuel input 0 u f))
      → follow fuel c r ≡ shift c (follow fuel 0 r)
  follow-shift fuel c (done r) ih =
      ap (λ (t : ℕ). shift t r) (sym (add-zero c)) ∙ sym (shift-shift c 0 r)
  follow-shift fuel c (again n rest u f) ih =
      ih rest (c + n) u f
      ∙ ap (λ (t : ℕ). shift (c + t) (consume_loop upper fuel rest 0 u f)) (sym (add.zero n))
      ∙ sym (shift-shift c (0 + n) (consume_loop upper fuel rest 0 u f))
      ∙ ap (shift c) (sym (ih rest (0 + n) u f))

  -- The bytes taken so far are only added up.
  pub consume_loop-shift :
      (fuel : ℕ) (input : Bytes) (c : ℕ) (u : U) (f : Framing)
      → consume_loop upper fuel input c u f ≡ shift c (consume_loop upper fuel input 0 u f)
  consume_loop-shift zero input c u f = unfold consume_loop in refl
  consume_loop-shift (suc fuel) input c u f =
      loop_round fuel input c u f
      ∙ follow-shift fuel c (round input u f) (consume_loop-shift fuel)
      ∙ ap (shift c) (sym (loop_round fuel input 0 u f))

  -- A round that goes on took four bytes at least, off the front.
  abbrev pub Shrinks : Bytes → Round → Type 0
  Shrinks input (done r) = Unit
  Shrinks input (again n rest u f) =
      (4 ≤ n) × (length rest + n ≡ length input) × (rest ≡ drop n input)

  after_message-Shrinks :
      (n : ℕ) (input msg rest : Bytes) (r : Bool × U × Framing)
      → (4 ≤ n) × (length rest + n ≡ length input) × (rest ≡ drop n input)
      → Shrinks input (after_message n msg rest r)
  after_message-Shrinks n input msg rest (true, u, f) h = h
  after_message-Shrinks n input msg rest (false, u, f) h = tt

  -- What a message of `k` bytes behind a prefix takes.
  taken_message :
      (k : ℕ) (input : Bytes)
      → 4 ≤ length input
      → k ≤ length (drop 4 input)
      → (4 ≤ length (take k (drop 4 input)) + 4)
        × (length (drop k (drop 4 input)) + (length (take k (drop 4 input)) + 4) ≡ length input)
        × (drop k (drop 4 input) ≡ drop (length (take k (drop 4 input)) + 4) input)
  taken_message k input h4 hk =
      let size : length (take k (drop 4 input)) ≡ k = length-take k (drop 4 input) ∙ omega arith in
      (
        omega arith,
        omega (arith, size, length-drop k (drop 4 input), length-drop 4 input),
        drop-drop k 4 input ∙ ap (λ (n : ℕ). drop n input) (omega (arith, size)),
      )

  pub round-Shrinks : (input : Bytes) (u : U) (f : Framing) → Shrinks input (round input u f)
  unfolding round
  round-Shrinks input u f =
      let sub = drop 4 input in
      let size = decode (take 4 input) in
      elim (Bool-cases (ltb (length input) 4)) [
        | inl short ↦ rw short tt
        | inr long ↦ elim (Bool-cases (size == 0)) [
          | inl zero_size ↦
              rw (long, zero_size)
                (omega arith, omega (arith, length-drop 4 input, ltb→le _ _ long), refl)
          | inr nonzero ↦ elim (Bool-cases (ltb max_message_length size)) [
            | inl big ↦ rw (long, nonzero, big) tt
            | inr small ↦ elim (Bool-cases (ltb (length sub) size)) [
              | inl partial ↦ rw (long, nonzero, small, partial) tt
              | inr enough ↦
                  rw (long, nonzero, small, enough)
                    (after_message-Shrinks (length (take size sub) + 4) input (take size sub)
                      (drop size sub) (upper (take size sub) u f)
                      (taken_message size input (ltb→le _ _ long) (ltb→le _ _ enough)))
            ]
          ]
        ]
      ]

  follow-fuel :
      (j k c : ℕ) (input : Bytes) (r : Round)
      → Shrinks input r
      → length input < suc j
      → length input < suc k
      → ((rest : Bytes) (d : ℕ) (u : U) (f : Framing)
          → length rest < j
          → length rest < k
          → consume_loop upper j rest d u f ≡ consume_loop upper k rest d u f)
      → follow j c r ≡ follow k c r
  follow-fuel j k c input (done r) s hj hk ih = refl
  follow-fuel j k c input (again n rest u f) s hj hk ih =
      ih rest (c + n) u f (omega arith) (omega arith)

  -- Fuel beyond the length of the input changes nothing.
  pub consume_loop-fuel :
      (j k : ℕ) (input : Bytes) (c : ℕ) (u : U) (f : Framing)
      → length input < j
      → length input < k
      → consume_loop upper j input c u f ≡ consume_loop upper k input c u f
  consume_loop-fuel zero k input c u f hj hk = absurd (omega arith)
  consume_loop-fuel (suc j) zero input c u f hj hk = absurd (omega arith)
  consume_loop-fuel (suc j) (suc k) input c u f hj hk =
      loop_round j input c u f
      ∙ follow-fuel j k c input (round input u f) (round-Shrinks input u f) hj hk
          (λ rest d v g. consume_loop-fuel j k rest d v g)
      ∙ sym (loop_round k input c u f)
