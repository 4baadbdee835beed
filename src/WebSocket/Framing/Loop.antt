-- ===== src/WebSocket/Framing/Loop.antt =====
-- The loop of `consume`: it ends, and it works frame by frame.
use native.Mathlib.Nat.{add_assoc}
use Prim.Native.Nat.add
use incubator.Prelude.{
  ℕ, zero, suc, ◌+◌, ◌≤◌, ◌<◌, ◌≡◌, refl, sym, ap, subst, ◌∙◌, arith, Bool, length,
}
use incubator.Bytes.{Bytes, NetworkOrder}
use incubator.Net.Consumed.{Consumed, taken, failed, stuck}
use incubator.WebSocket.Framing.{
  Framing, Round, done, again, round, add_taken, consume_loop, consume,
}
use incubator.WebSocket.Framing.Shrinking.{Shrinks, round-Shrinks}

abbrev pub shift : {U : Type 0} → ℕ → Consumed × U × Framing → Consumed × U × Framing
shift n (r, u, f) = (add_taken n r, u, f)

add_taken-add_taken : (m n : ℕ) (r : Consumed) → add_taken m (add_taken n r) ≡ add_taken (m + n) r
add_taken-add_taken m n (taken k) = ap taken (sym (add_assoc m n k))
add_taken-add_taken m n failed = refl
add_taken-add_taken m n stuck = refl

add_taken_zero : (r : Consumed) → add_taken 0 r ≡ r
add_taken_zero (taken k) = ap taken (add.zero k)
add_taken_zero failed = refl
add_taken_zero stuck = refl

pub shift-shift :
    {U : Type 0} (m n : ℕ) (r : Consumed × U × Framing) → shift m (shift n r) ≡ shift (m + n) r
shift-shift m n (r, u, f) = ap (λ c. (c, u, f)) (add_taken-add_taken m n r)

pub shift_zero : {U : Type 0} (r : Consumed × U × Framing) → shift 0 r ≡ r
shift_zero (r, u, f) = ap (λ c. (c, u, f)) (add_taken_zero r)

-- The bytes that a call takes are there, and the loop ended.
abbrev pub IsWithin : Bytes → Consumed → Type 0
IsWithin buffer (taken n) = n ≤ length buffer
IsWithin buffer failed = Unit
IsWithin buffer stuck = ⊥

module _ ⦃net : NetworkOrder⦄ {U : Type 0}
    (consume_text consume_binary : Bytes → U → Framing → Bool × U × Framing) where
  abbrev pub loop : ℕ → Bytes → ℕ → U → Framing → Consumed × U × Framing
  loop = consume_loop consume_text consume_binary

  abbrev pub follow : ℕ → ℕ → Round U → Consumed × U × Framing
  follow fuel c (done r u f) = (add_taken c r, u, f)
  follow fuel c (again n rest u f) = loop fuel rest (c + n) u f

  loop-round :
      (fuel : ℕ) (buffer : Bytes) (c : ℕ) (u : U) (f : Framing)
      → loop (suc fuel) buffer c u f ≡ follow fuel c (round consume_text consume_binary buffer u f)
  unfolding consume_loop
  loop-round fuel buffer c u f = open_round (round consume_text consume_binary buffer u f)
    where
      open_round :
          (r : Round U)
          → elim r as (λ x. Consumed × U × Framing) [
            | done r u' f' ↦ (add_taken c r, u', f')
            | again n rest u' f' ↦ consume_loop consume_text consume_binary fuel rest (c + n) u' f'
          ]
            ≡ follow fuel c r
      open_round (done r u' f') = refl
      open_round (again n rest u' f') = refl

  follow-shift :
      (fuel c : ℕ) (r : Round U)
      → ((buffer : Bytes) (k : ℕ) (u : U) (f : Framing)
          → loop fuel buffer k u f ≡ shift k (loop fuel buffer 0 u f))
      → follow fuel c r ≡ shift c (follow fuel 0 r)
  follow-shift fuel c (done r u f) ih = ap (λ t. (add_taken c t, u, f)) (sym (add_taken_zero r))
  follow-shift fuel c (again n rest u f) ih =
      ih rest (c + n) u f
      ∙ sym (shift-shift c n (loop fuel rest 0 u f))
      ∙ ap (shift c) (sym (ih rest n u f) ∙ ap (λ (k : ℕ). loop fuel rest k u f) (sym (add.zero n)))

  loop-shift :
      (fuel : ℕ) (buffer : Bytes) (c : ℕ) (u : U) (f : Framing)
      → loop fuel buffer c u f ≡ shift c (loop fuel buffer 0 u f)
  loop-shift zero buffer c u f = unfold consume_loop in refl
  loop-shift (suc fuel) buffer c u f =
      loop-round fuel buffer c u f
      ∙ follow-shift fuel c (round consume_text consume_binary buffer u f) (loop-shift fuel)
      ∙ ap (shift c) (sym (loop-round fuel buffer 0 u f))

  follow-fuel :
      (j k c : ℕ) (buffer : Bytes) (r : Round U)
      → Shrinks consume_text consume_binary buffer r
      → length buffer < suc j
      → length buffer < suc k
      → ((rest : Bytes) (d : ℕ) (u : U) (f : Framing)
          → length rest < j
          → length rest < k
          → loop j rest d u f ≡ loop k rest d u f)
      → follow j c r ≡ follow k c r
  follow-fuel j k c buffer (done r u f) s hj hk ih = refl
  follow-fuel j k c buffer (again n rest u f) s hj hk ih =
      ih rest (c + n) u f (omega (arith, s)) (omega (arith, s))

  loop-fuel :
      (j k : ℕ) (buffer : Bytes) (c : ℕ) (u : U) (f : Framing)
      → length buffer < j
      → length buffer < k
      → loop j buffer c u f ≡ loop k buffer c u f
  loop-fuel zero k buffer c u f hj hk = absurd (omega arith)
  loop-fuel (suc j) zero buffer c u f hj hk = absurd (omega arith)
  loop-fuel (suc j) (suc k) buffer c u f hj hk =
      loop-round j buffer c u f
      ∙ follow-fuel j k c buffer (round consume_text consume_binary buffer u f)
          (round-Shrinks consume_text consume_binary buffer u f) hj hk
          (λ rest d v g. loop-fuel j k rest d v g)
      ∙ sym (loop-round k buffer c u f)

  -- The result of a call, from that of its first turn.
  abbrev pub resume : Round U → Consumed × U × Framing
  resume (done r u f) = (r, u, f)
  resume (again n rest u f) = shift n (consume consume_text consume_binary rest u f)

  resumed :
      (buffer : Bytes) (r : Round U)
      → Shrinks consume_text consume_binary buffer r
      → follow (length buffer) 0 r ≡ resume r
  unfolding consume
  resumed buffer (done r u f) s = ap (λ t. (t, u, f)) (add_taken_zero r)
  resumed buffer (again n rest u f) s =
      loop-shift (length buffer) rest (0 + n) u f
      ∙ ap (λ (k : ℕ). shift k (loop (length buffer) rest 0 u f)) (add.zero n)
      ∙ ap (shift n) (
          loop-fuel (length buffer) (suc (length rest)) rest 0 u f (omega (arith, s)) (omega arith))

  -- A call is its first turn, followed, where that goes on, by a call on what the frame left.
  pub consume-round :
      (buffer : Bytes) (u : U) (f : Framing)
      → consume consume_text consume_binary buffer u f
        ≡ resume (round consume_text consume_binary buffer u f)
  unfolding consume
  consume-round buffer u f =
      loop-round (length buffer) buffer 0 u f
      ∙ resumed buffer (round consume_text consume_binary buffer u f)
          (round-Shrinks consume_text consume_binary buffer u f)

  follow-IsWithin :
      (fuel : ℕ) (buffer : Bytes) (r : Round U)
      → Shrinks consume_text consume_binary buffer r
      → length buffer < suc fuel
      → ((rest : Bytes) (u : U) (f : Framing)
          → length rest < fuel
          → IsWithin rest (loop fuel rest 0 u f).0)
      → IsWithin buffer (follow fuel 0 r).0
  follow-IsWithin fuel buffer (done (taken n) u f) s h ih = omega (arith, s)
  follow-IsWithin fuel buffer (done failed u f) s h ih = tt
  follow-IsWithin fuel buffer (done stuck u f) s h ih = s
  follow-IsWithin fuel buffer (again n rest u f) s h ih =
      subst (λ r. IsWithin buffer r.0) (sym (loop-shift fuel rest (0 + n) u f))
        (IsWithin-add (0 + n) rest (loop fuel rest 0 u f).0 (omega (arith, s))
          (ih rest u f (omega (arith, s))))
    where
      IsWithin-add :
          (m : ℕ) (rest : Bytes) (r : Consumed)
          → length rest + m ≡ length buffer
          → IsWithin rest r
          → IsWithin buffer (add_taken m r)
      IsWithin-add m rest (taken k) e w = omega arith
      IsWithin-add m rest failed e w = tt
      IsWithin-add m rest stuck e w = w

  loop-IsWithin :
      (fuel : ℕ) (buffer : Bytes) (u : U) (f : Framing)
      → length buffer < fuel
      → IsWithin buffer (loop fuel buffer 0 u f).0
  loop-IsWithin zero buffer u f h = absurd (omega arith)
  loop-IsWithin (suc fuel) buffer u f h =
      subst (λ r. IsWithin buffer r.0) (sym (loop-round fuel buffer 0 u f))
        (follow-IsWithin fuel buffer (round consume_text consume_binary buffer u f)
          (round-Shrinks consume_text consume_binary buffer u f) h (loop-IsWithin fuel))

  -- On any input, the loop ends, and a call fails or takes no more bytes than there are.
  pub consume-IsWithin :
      (buffer : Bytes) (u : U) (f : Framing)
      → IsWithin buffer (consume consume_text consume_binary buffer u f).0
  unfolding consume
  consume-IsWithin buffer u f = loop-IsWithin (suc (length buffer)) buffer u f (omega arith)
