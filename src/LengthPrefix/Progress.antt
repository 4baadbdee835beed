-- ===== src/LengthPrefix/Progress.antt =====
-- What `consume` promises the transport below: which bytes it takes, and that the next read can
-- bring the rest of a message that is not there yet.
use native.Mathlib.Nat.{mod-eq_of_lt}
use Prim.Native.Nat.add
use incubator.Prelude.{
  ℕ, zero, suc, ◌+◌, ◌^◌, ◌≤◌, ◌<◌, ◌≡◌, refl, sym, ap, subst, ◌∙◌, arith, Bool, true, false, ltb,
  ltb→lt, ltb→le, ◌==◌, if◌then◌else◌, List, [], ◌∷◌, ◌++◌, length, take, drop, length-append,
  length-drop, drop-drop, append_assoc, Bool-cases, inl, inr, ◌⊎◌, All,
}
use incubator.Bytes.{Bytes, NetworkOrder, decode}
use incubator.Net.Consumed.{Consumed, taken, failed, stuck}
use incubator.LengthPrefix.{Framing, max_message_length, consume_loop, consume, grow}
use incubator.LengthPrefix.Send.{frame}
use incubator.LengthPrefix.Receive.{
  IsMessage, shift, shift-shift, shift_zero, round_message, loop_round, consume_loop-shift, Round,
  done, again, after_message, round, follow, Shrinks, round-Shrinks, consume_loop-fuel,
}

abbrev pub frames : ⦃net : NetworkOrder⦄ → List Bytes → Bytes
frames [] = []
frames (m ∷ ms) = frame m ++ frames ms

module _ ⦃net : NetworkOrder⦄ where
  -- The framing asks the transport for as many bytes as it believes, a length prefix at least.
  abbrev pub IsReady : Framing → Type 0
  IsReady f = (4 ≤ f.receive_buf_upper_bound) × (f.down.max_read_size ≡ f.receive_buf_upper_bound)

  -- No message starts the bytes: the prefix or the payload has not arrived in full.
  abbrev pub IsIncomplete : Bytes → Type 0
  IsIncomplete bs =
      (length bs < 4)
      ⊎ ((0 < decode (take 4 bs))
          × (decode (take 4 bs) ≤ max_message_length)
          × (length (drop 4 bs) < decode (take 4 bs)))

  abbrev pub Outcome : {U : Type 0} → Bytes → Consumed × U × Framing → Type 0
  Outcome input (taken n, u, f) =
      (n ≤ length input)
      × IsIncomplete (drop n input)
      × IsReady f
      × (length (drop n input) < f.down.max_read_size)
  Outcome input (failed, u, f) = Unit
  Outcome input (stuck, u, f) = ⊥

module _ ⦃net : NetworkOrder⦄ {U : Type 0} (upper : Bytes → U → Framing → Bool × U × Framing) where
  -- The messages handed up one by one, up to the first that the upper layer refuses.
  pub feed : List Bytes → U → Framing → Bool × U × Framing
  feed [] u f = (true, u, f)
  feed (m ∷ ms) u f =
      if (upper m u f).0
      then feed ms (upper m u f).1 (upper m u f).2
      else (false, (upper m u f).1, (upper m u f).2)

  abbrev pub resume : ℕ → Bytes → Bool × U × Framing → Consumed × U × Framing
  resume n rest (accepted, u, f) =
      if accepted then shift n (consume upper rest u f) else (failed, u, f)

  resume-shift :
      (m n : ℕ) (rest : Bytes) (r : Bool × U × Framing)
      → shift m (resume n rest r) ≡ resume (m + n) rest r
  resume-shift m n rest (true, u, f) = shift-shift m n (consume upper rest u f)
  resume-shift m n rest (false, u, f) = refl

  -- What `consume` does with one message and what follows it.
  consume_message :
      (m rest : Bytes) (u : U) (f : Framing)
      → IsMessage m
      → consume upper (frame m ++ rest) u f ≡ (
          if (upper m u f).0
          then shift (length (frame m)) (consume upper rest (upper m u f).1 (upper m u f).2)
          else (failed, (upper m u f).1, (upper m u f).2))
  unfolding consume
  consume_message m rest u f h =
      round_message upper (length (frame m ++ rest)) m rest 0 u f h
      ∙ ap (λ r. if (upper m u f).0 then r else (failed, (upper m u f).1, (upper m u f).2))
          (consume_loop-shift upper (length (frame m ++ rest)) rest (0 + (length m + 4)) v g
            ∙ ap (λ r. shift (0 + (length m + 4)) r)
                (consume_loop-fuel upper (length (frame m ++ rest)) (suc (length rest)) rest 0 v g
                  (omega (arith, length-append (frame m) rest, size)) (omega arith))
            ∙ ap (λ (n : ℕ). shift n (consume upper rest v g)) (omega (arith, size)))
    where
      v : U
      v = (upper m u f).1

      g : Framing
      g = (upper m u f).2

      size : length (frame m) ≡ length m + 4
      size =
          omega (arith, length-append (net.encode 4 (length m)) m, net.length-encode 4 (length m))

  -- Whole messages in front of the input are handed up in order, one call of the upper layer for
  -- each, until one is refused: then the call fails; else it goes on with the rest of the input.
  pub consume-frames :
      (ms : List Bytes) (rest : Bytes) (u : U) (f : Framing)
      → All IsMessage ms
      → consume upper (frames ms ++ rest) u f ≡ resume (length (frames ms)) rest (feed ms u f)
  unfolding feed
  consume-frames [] rest u f h = shift_zero (consume upper rest u f)
  consume-frames (m ∷ ms) rest u f (hm, h) =
      ap (λ b. consume upper b u f) (append_assoc (frame m) (frames ms) rest)
      ∙ consume_message m (frames ms ++ rest) u f hm
      ∙ elim (Bool-cases (upper m u f).0) [
        | inl e ↦ rw e (
            ap (shift (length (frame m))) (consume-frames ms rest (upper m u f).1 (upper m u f).2 h)
            ∙ resume-shift (length (frame m)) (length (frames ms)) rest
                (feed ms (upper m u f).1 (upper m u f).2)
            ∙ ap (λ (n : ℕ). resume n rest (feed ms (upper m u f).1 (upper m u f).2))
                (sym (length-append (frame m) (frames ms))))
        | inr e ↦ rw e refl
      ]

  abbrev RoundOutcome : Bytes → Round upper → Type 0
  RoundOutcome input (done r) = Outcome input r
  RoundOutcome input (again n rest u f) = IsReady f

  Outcome-shift :
      (n : ℕ) (input rest : Bytes) (r : Consumed × U × Framing)
      → length rest + n ≡ length input
      → rest ≡ drop n input
      → Outcome rest r
      → Outcome input (shift n r)
  Outcome-shift n input rest (taken k, u, f) e d (h0, h1, h2, h3) =
      let same : drop k rest ≡ drop (n + k) input = ap (drop k) d ∙ drop-drop k n input in
      (
        omega arith,
        subst IsIncomplete same h1,
        h2,
        subst (λ bs. length bs < f.down.max_read_size) same h3,
      )
  Outcome-shift n input rest (failed, u, f) e d h = tt
  Outcome-shift n input rest (stuck, u, f) e d h = h

  module _
      (upper-IsReady : (m : Bytes) (u : U) (f : Framing)
        → IsReady f
        → IsReady (upper m u f).2) where
    after_message-Outcome :
        (n : ℕ) (input msg rest : Bytes) (r : Bool × U × Framing)
        → IsReady r.2
        → RoundOutcome input (after_message upper n msg rest r)
    after_message-Outcome n input msg rest (true, u, f) h = h
    after_message-Outcome n input msg rest (false, u, f) h = tt

    grow-Outcome :
        (input : Bytes) (u : U) (f : Framing)
        → 4 ≤ length input
        → 0 < decode (take 4 input)
        → decode (take 4 input) ≤ max_message_length
        → length (drop 4 input) < decode (take 4 input)
        → IsReady f
        → Outcome input (taken 0, u, grow upper (decode (take 4 input)) f)
    grow-Outcome input u f h4 pos small partial ready =
        elim (Bool-cases (ltb f.receive_buf_upper_bound (size + 4))) [
          | inl more ↦
              rw (more, mod-eq_of_lt fits)
                (
                  omega arith,
                  inr (pos, small, partial),
                  (omega arith, refl),
                  omega (arith, length-drop 4 input),
                )
          | inr less ↦ rw less (
            omega arith,
            inr (pos, small, partial),
            ready,
            omega (arith, ready, length-drop 4 input, ltb→le _ _ less),
          )
        ]
      where
        size : ℕ
        size = decode (take 4 input)

        fits : size + 4 < 2 ^ 32
        fits = omega arith

    round-Outcome :
        (input : Bytes) (u : U) (f : Framing)
        → IsReady f
        → RoundOutcome input (round upper input u f)
    unfolding round
    round-Outcome input u f ready =
        let sub = drop 4 input in
        let size = decode (take 4 input) in
        elim (Bool-cases (ltb (length input) 4)) [
          | inl short ↦
              rw short
                (omega arith, inl (ltb→lt _ _ short), ready, omega (arith, ltb→lt _ _ short, ready))
          | inr long ↦ elim (Bool-cases (size == 0)) [
            | inl zero_size ↦ rw (long, zero_size) ready
            | inr nonzero ↦ elim (Bool-cases (ltb max_message_length size)) [
              | inl big ↦ rw (long, nonzero, big) tt
              | inr small ↦ elim (Bool-cases (ltb (length sub) size)) [
                | inl partial ↦
                    rw (long, nonzero, small, partial)
                      (grow-Outcome input u f (ltb→le _ _ long) (ground (arith, nonzero))
                        (ltb→le _ _ small) (ltb→lt _ _ partial) ready)
                | inr enough ↦
                    rw (long, nonzero, small, enough)
                      (after_message-Outcome (length (take size sub) + 4) input (take size sub)
                        (drop size sub) (upper (take size sub) u f)
                        (upper-IsReady (take size sub) u f ready))
              ]
            ]
          ]
        ]

    follow-Outcome :
        (fuel : ℕ) (input : Bytes) (r : Round upper)
        → Shrinks upper input r
        → RoundOutcome input r
        → length input < suc fuel
        → ((rest : Bytes) (u : U) (f : Framing)
            → length rest < fuel
            → IsReady f
            → Outcome rest (consume_loop upper fuel rest 0 u f))
        → Outcome input (follow upper fuel 0 r)
    follow-Outcome fuel input (done r) s o h ih = subst (Outcome input) (shift_zero r) o
    follow-Outcome fuel input (again n rest u f) s o h ih =
        subst (Outcome input)
          (sym (
            consume_loop-shift upper fuel rest (0 + n) u f
            ∙ ap (λ (k : ℕ). shift k (consume_loop upper fuel rest 0 u f)) (add.zero n)))
          (Outcome-shift n input rest (consume_loop upper fuel rest 0 u f) s.1 s.2
            (ih rest u f (omega (arith, s)) o))

    consume_loop-Outcome :
        (fuel : ℕ) (input : Bytes) (u : U) (f : Framing)
        → length input < fuel
        → IsReady f
        → Outcome input (consume_loop upper fuel input 0 u f)
    consume_loop-Outcome zero input u f h ready = absurd (omega arith)
    consume_loop-Outcome (suc fuel) input u f h ready =
        subst (Outcome input) (sym (loop_round upper fuel input 0 u f)) (
          follow-Outcome fuel input (round upper input u f) (round-Shrinks upper input u f)
            (round-Outcome input u f ready) h (consume_loop-Outcome fuel))

    -- Where the upper layer keeps the read size of the framing, `consume` fails or takes a front part
    -- of the input such that no message starts what is left, and the transport's next read is for more
    -- bytes than are left; the model's loop never runs out of fuel.
    pub consume_progress :
        (input : Bytes) (u : U) (f : Framing) → IsReady f → Outcome input (consume upper input u f)
    unfolding consume
    consume_progress input u f ready =
        consume_loop-Outcome (suc (length input)) input u f (omega arith) ready
