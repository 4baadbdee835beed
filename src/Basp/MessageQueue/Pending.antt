-- ===== src/Basp/MessageQueue/Pending.antt =====
-- The sorted list of pending messages, and the loop that empties its front.
use Prim.Native.Nat.add
use native.Mathlib.Decide.{dec_lt}
use incubator.Prelude.{
  ℕ, zero, suc, ◌+◌, ◌^◌, ◌≤◌, ◌<◌, ◌≡◌, ◌≢◌, refl, ap, ap₂, sym, ◌∙◌, arith, ◌==◌, ==_iff,
  if◌then◌else◌, Option, none, some, List, [], ◌∷◌, ◌++◌, append_assoc, Bool-cases, true, ◌-◌, inl,
  inr,
}
use incubator.Basp.MessageQueue.{ActorMsg, succ64, enqueue, drain, emplace}

module _ {ℓ} {R C : Type ℓ} where
  -- IDs grow along the list, from a bound on.
  abbrev pub Above : ℕ → List (ActorMsg R C) → Type 0
  Above n [] = Unit {0}
  Above n (m ∷ ms) = (n ≤ m.id) × Above (suc m.id) ms

  abbrev pub Below : ℕ → List (ActorMsg R C) → Type 0
  Below n [] = Unit {0}
  Below n (m ∷ ms) = (m.id < n) × Below n ms

  -- The message that is pending under an ID.
  abbrev pub find : ℕ → List (ActorMsg R C) → Option (Option R × Option C)
  find i [] = none
  find i (m ∷ ms) = if m.id == i then some (m.receiver, m.content) else find i ms

  pub Below-mono : (k n : ℕ) (ms : List (ActorMsg R C)) → k ≤ n → Below k ms → Below n ms
  Below-mono k n [] h b = tt
  Below-mono k n (m ∷ ms) h b = (omega arith, Below-mono k n ms h b.1)

  pub find_below : (i n : ℕ) (ms : List (ActorMsg R C)) → i < n → Above n ms → find i ms ≡ none
  find_below i n [] h a = refl
  find_below i n (m ∷ ms) h a = ground (arith, find_below i (suc m.id) ms)

  pub find-emplace :
      (i : ℕ) (x : ActorMsg R C) (ms : List (ActorMsg R C))
      → find i (emplace x ms) ≡ (if x.id == i then some (x.receiver, x.content) else find i ms)
  unfolding emplace
  find-emplace i x [] = refl
  find-emplace i x (m ∷ ms) = ground (arith, find-emplace i x ms)

  pub emplace-Above :
      (n : ℕ) (x : ActorMsg R C) (ms : List (ActorMsg R C))
      → n ≤ x.id
      → find x.id ms ≡ none
      → Above n ms
      → Above n (emplace x ms)
  unfolding emplace
  emplace-Above n x [] h e a = (h, tt)
  emplace-Above n x (m ∷ ms) h e a = ground (arith, emplace-Above (suc m.id) x ms)

  pub emplace-Below :
      (n : ℕ) (x : ActorMsg R C) (ms : List (ActorMsg R C))
      → x.id < n
      → Below n ms
      → Below n (emplace x ms)
  unfolding emplace
  emplace-Below n x [] h b = (h, tt)
  emplace-Below n x (m ∷ ms) h b = ground (arith, emplace-Below n x ms)

-- What was handed in under each ID.
abbrev pub Log {ℓ} : Type ℓ → Type ℓ → Type ℓ
Log R C = ℕ → Option (Option R × Option C)

module _ {ℓ} {R C : Type ℓ} where
  abbrev pub deliver : Option (Option R × Option C) → List (R × Option C)
  deliver none = []
  deliver (some (receiver, content)) = enqueue receiver content

  -- The deliveries of `k` consecutive IDs from `n` on.
  abbrev pub deliveries : Log R C → ℕ → ℕ → List (R × Option C)
  deliveries log n zero = []
  deliveries log n (suc k) = deliver (log n) ++ deliveries log (suc n) k

  pub deliveries-add :
      (log : Log R C) (n j k : ℕ)
      → deliveries log n (j + k) ≡ deliveries log n j ++ deliveries log (n + j) k
  deliveries-add log n zero k = ap₂ (deliveries log) (omega arith) (omega arith)
  deliveries-add log n (suc j) k =
      ap (λ (t : ℕ). deliveries log n t) (add.suc j k)
      ∙ ap (◌++◌ (deliver (log n))) (
          deliveries-add log (suc n) j k
          ∙ ap (λ (t : ℕ). deliveries log (suc n) j ++ deliveries log t k) (omega arith))
      ∙ sym
          (append_assoc (deliver (log n)) (deliveries log (suc n) j) (deliveries log (n + suc j) k))

  -- What the loop does from the ID `n` on, where `log` says which messages are at hand: it
  -- delivers the messages of a run of consecutive IDs, and stops where one is missing.
  pub record Drains (log : Log R C) (n top : ℕ) (sent : List (R × Option C)) (last : ℕ)
      (rest : List (ActorMsg R C)) : Type ℓ where
    pub count : ℕ
    pub last_eq : last ≡ n + count
    pub sent_eq : sent ≡ deliveries log n count
    pub present : (i : ℕ) → n ≤ i → i < last → log i ≢ none
    pub missing : log last ≡ none
    pub above : Above (suc last) rest
    pub below : Below top rest
    pub within : last ≤ top
    pub kept : (i : ℕ) → last < i → find i rest ≡ log i

  Drains-stop :
      (log : Log R C) (n top : ℕ) (ms : List (ActorMsg R C))
      → n ≤ top
      → Above (suc n) ms
      → Below top ms
      → ((i : ℕ) → n ≤ i → find i ms ≡ log i)
      → Drains log n top [] n ms
  Drains-stop log n top ms hn a b agree = record {
    count = 0;
    last_eq = omega arith;
    sent_eq = refl;
    present = λ i lo hi. absurd (omega arith);
    missing = sym (agree n (omega arith)) ∙ find_below n (suc n) ms (omega arith) a;
    above = a;
    below = b;
    within = hn;
    kept = λ i h. agree i (omega arith);
  }

  pub Drains-step :
      (log : Log R C) (n top : ℕ) (receiver : Option R) (content : Option C)
      (sent : List (R × Option C)) (last : ℕ) (rest : List (ActorMsg R C))
      → log n ≡ some (receiver, content)
      → Drains log (suc n) top sent last rest
      → Drains log n top (enqueue receiver content ++ sent) last rest
  Drains-step log n top receiver content sent last rest e d = record {
    count = suc d.count;
    last_eq = omega (arith, d.last_eq);
    sent_eq = ap₂ ◌++◌ (sym (ap deliver e)) d.sent_eq;
    present = λ i lo hi. elim (dec_lt n i) [
      | yes later ↦ d.present i later hi
      | no first ↦ rw (same i lo first, e) (λ h. cc)
    ];
    missing = d.missing;
    above = d.above;
    below = d.below;
    within = d.within;
    kept = d.kept;
  }
    where
      same : (i : ℕ) → n ≤ i → ¬ (n < i) → i ≡ n
      same i lo first = omega arith

  pub drain-Drains :
      (log : Log R C) (n top : ℕ) (ms : List (ActorMsg R C))
      → n ≤ top
      → top < 2 ^ 64
      → Above n ms
      → Below top ms
      → ((i : ℕ) → n ≤ i → find i ms ≡ log i)
      → Drains log n top (drain n ms).0 (drain n ms).1 (drain n ms).2
  unfolding drain
  drain-Drains log n top [] hn ht a b agree = Drains-stop log n top [] hn tt tt agree
  drain-Drains log n top (m ∷ ms) hn ht a b agree = elim (Bool-cases (m.id == n)) [
    | inl hit ↦
        rw (hit, next n (omega arith))
          (Drains-step log n top m.receiver m.content _ _ _ (sym (agree n (omega arith)) ∙ rw hit) (
            drain-Drains log (suc n) top ms (ground arith) ht (rw ((==_iff _ _).0 hit) at a.1) b.1
              λ i h. later i h hit))
    | inr miss ↦ rw miss (Drains-stop log n top (m ∷ ms) hn (ground arith, a.1) b agree)
  ]
    where
      next : (x : ℕ) → x < 2 ^ 64 - 1 → succ64 x ≡ suc x
      next x h = omega arith

      later : (i : ℕ) → suc n ≤ i → (m.id == n) ≡ true → find i ms ≡ log i
      later i h hit = ground (arith, agree i)
