-- ===== src/Basp/MessageQueue/Order.antt =====
-- Strict order of delivery: whatever the order in which workers hand messages in, they reach the
-- receivers in the order of their IDs.
use native.Mathlib.Decide.{dec_lt, ℕ_discrete}
use incubator.Prelude.{
  ℕ, zero, suc, ◌+◌, ◌-◌, ◌^◌, ◌≤◌, ◌<◌, ◌≡◌, ◌≢◌, refl, ap, ap₂, sym, ◌∙◌, arith, ◌==◌,
  if◌then◌else◌, Option, none, some, List, [], ◌∷◌, ◌++◌, append-nil,
}
use incubator.Basp.MessageQueue.{
  ActorMsg, MessageQueue, succ64, enqueue, drain, emplace, push, new_id,
}
use incubator.Basp.MessageQueue.Pending.{
  Above, Below, find, Below-mono, find-emplace, emplace-Above, emplace-Below, Log, deliver,
  deliveries, deliveries-add, Drains, Drains-step, drain-Drains,
}
use incubator.Basp.MessageQueue.Calls.{
  update, World, start, issue, hand_in, Step, issues, hands_in, Reach, begin, next,
}

module _ {ℓ} {R C : Type ℓ} where
  pub record IsOrdered (w : World R C) : Type ℓ where
    pub undelivered_le : w.queue.next_undelivered ≤ w.queue.next_id
    pub fits : w.queue.next_id < 2 ^ 64
    pub sent_eq : w.sent ≡ deliveries w.log 0 w.queue.next_undelivered
    pub present : (i : ℕ) → i < w.queue.next_undelivered → w.log i ≢ none
    pub missing : w.log w.queue.next_undelivered ≡ none
    pub above : Above (suc w.queue.next_undelivered) w.queue.pending
    pub below : Below w.queue.next_id w.queue.pending
    pub agree : (i : ℕ) → w.queue.next_undelivered < i → find i w.queue.pending ≡ w.log i

  deliveries-congr :
      (f g : Log R C) (n k : ℕ)
      → ((i : ℕ) → i < n + k → f i ≡ g i)
      → deliveries f n k ≡ deliveries g n k
  deliveries-congr f g n zero h = refl
  deliveries-congr f g n (suc k) h =
      ap₂ ◌++◌ (ap deliver (h n (omega arith)))
        (deliveries-congr f g (suc n) k (λ i lt. h i (omega arith)))

  update_ne :
      (f : Log R C) (i j : ℕ) (a : Option (Option R × Option C)) → i ≢ j → update f i a j ≡ f j
  update_ne f i j a h = ground arith

  update_self : (f : Log R C) (i : ℕ) (a : Option (Option R × Option C)) → update f i a i ≡ a
  update_self f i a = ground arith

  -- Both branches of the dispatch of the current head do what the loop does.
  push_head :
      (n u : ℕ) (ms : List (ActorMsg R C)) (receiver : Option R) (content : Option C)
      → push (record { next_id = n; next_undelivered = u; pending = ms }) u receiver content ≡ (
        enqueue receiver content ++ (drain (succ64 u) ms).0,
        record {
          next_id = n;
          next_undelivered = (drain (succ64 u) ms).1;
          pending = (drain (succ64 u) ms).2;
        },
      )
  unfolding push drain
  push_head n u [] receiver content = ground (arith, append-nil (enqueue receiver content))
  push_head n u (m ∷ ms) receiver content = ground (arith, append-nil (enqueue receiver content))

  push_later :
      (q : MessageQueue R C) (id : ℕ) (receiver : Option R) (content : Option C)
      → id ≢ q.next_undelivered
      → push q id receiver content ≡ (
        [],
        record q {
          pending = emplace (record { id = id; receiver = receiver; content = content }) q.pending;
        },
      )
  unfolding push
  push_later q id receiver content h = ground arith

  later-IsOrdered :
      (w : World R C) (id : ℕ) (receiver : Option R) (content : Option C)
      → IsOrdered w
      → id < w.queue.next_id
      → w.queue.next_undelivered < id
      → w.log id ≡ none
      → IsOrdered (hand_in w id receiver content)
  unfolding hand_in
  later-IsOrdered w id receiver content o hid hu e =
      rw (push_later w.queue id receiver content (λ p. absurd (omega arith))) record {
        undelivered_le = o.undelivered_le;
        fits = o.fits;
        sent_eq = append-nil w.sent ∙ o.sent_eq ∙ deliveries-congr w.log _ 0 _ old;
        present = λ i lt. rw (update_ne w.log id i _ (λ p. absurd (omega arith))) (o.present i lt);
        missing =
            rw (update_ne w.log id w.queue.next_undelivered _ (λ p. absurd (omega arith)))
              o.missing;
        above = emplace-Above _ _ w.queue.pending hu (o.agree id hu ∙ e) o.above;
        below = emplace-Below _ _ w.queue.pending hid o.below;
        agree = λ i lt.
            find-emplace i _ w.queue.pending
            ∙ ap (λ r. if id == i then some (receiver, content) else r) (o.agree i lt);
      }
    where
      old :
          (i : ℕ)
          → i < 0 + w.queue.next_undelivered
          → w.log i ≡ update w.log id (some (receiver, content)) i
      old i lt = sym (update_ne w.log id i (some (receiver, content)) (λ p. absurd (omega arith)))

  Drains-IsOrdered :
      (w : World R C) (log : Log R C) (sent : List (R × Option C)) (last : ℕ)
      (rest : List (ActorMsg R C))
      → IsOrdered w
      → ((i : ℕ) → i < w.queue.next_undelivered → w.log i ≡ log i)
      → Drains log w.queue.next_undelivered w.queue.next_id sent last rest
      → IsOrdered (record {
        queue = record { next_id = w.queue.next_id; next_undelivered = last; pending = rest };
        log = log;
        sent = w.sent ++ sent;
      })
  Drains-IsOrdered w log sent last rest o old d = record {
    undelivered_le = d.within;
    fits = o.fits;
    sent_eq =
        ap₂ ◌++◌ front back
        ∙ sym (deliveries-add log 0 u d.count)
        ∙ ap (deliveries log 0) (sym d.last_eq);
    present = λ i lt. elim (dec_lt i u) [
      | yes before ↦ rw (sym (old i before)) (o.present i before)
      | no after ↦ d.present i (omega arith) lt
    ];
    missing = d.missing;
    above = d.above;
    below = d.below;
    agree = d.kept;
  }
    where
      u : ℕ
      u = w.queue.next_undelivered

      front : w.sent ≡ deliveries log 0 u
      front = o.sent_eq ∙ deliveries-congr w.log log 0 u (λ i lt. old i (omega arith))

      back : sent ≡ deliveries log (0 + u) d.count
      back = d.sent_eq ∙ ap (λ (t : ℕ). deliveries log t d.count) (omega arith)

  head-IsOrdered :
      (w : World R C) (receiver : Option R) (content : Option C)
      → IsOrdered w
      → w.queue.next_undelivered < w.queue.next_id
      → IsOrdered (hand_in w w.queue.next_undelivered receiver content)
  unfolding hand_in
  head-IsOrdered w receiver content o hid =
      rw (push_head w.queue.next_id u w.queue.pending receiver content, step)
        (Drains-IsOrdered w log _ _ _ o
          (λ i lt. sym (update_ne w.log u i _ (λ p. absurd (omega arith))))
          (Drains-step log u w.queue.next_id receiver content _ _ _
            (update_self w.log u (some (receiver, content)))
            (drain-Drains log (suc u) w.queue.next_id w.queue.pending hid o.fits o.above o.below
              agree)))
    where
      u : ℕ
      u = w.queue.next_undelivered

      log : Log R C
      log = update w.log u (some (receiver, content))

      step : succ64 u ≡ suc u
      step = omega (arith, o.fits)

      agree : (i : ℕ) → suc u ≤ i → find i w.queue.pending ≡ log i
      agree i lt = o.agree i lt ∙ sym (update_ne w.log u i _ (λ p. absurd (omega arith)))

  pub above_of_missing :
      (w : World R C) (id : ℕ) → IsOrdered w → w.log id ≡ none → w.queue.next_undelivered ≤ id
  above_of_missing w id o e = elim (dec_lt id w.queue.next_undelivered) [
    | yes before ↦ absurd (o.present id before e)
    | no after ↦ omega arith
  ]

  Step-IsOrdered : {w v : World R C} → Step w v → IsOrdered w → IsOrdered v
  unfolding issue
  Step-IsOrdered (issues w room) o =
      unfold new_id in
      record {
        undelivered_le = omega (arith, o.undelivered_le);
        fits = omega arith;
        sent_eq = o.sent_eq;
        present = o.present;
        missing = o.missing;
        above = o.above;
        below =
            Below-mono w.queue.next_id (succ64 w.queue.next_id) w.queue.pending (omega arith)
              o.below;
        agree = o.agree;
      }
  Step-IsOrdered (hands_in w id receiver content hid e) o =
      elim (ℕ_discrete id w.queue.next_undelivered) [
        | yes head ↦ rw head (head-IsOrdered w receiver content o (rw head at hid))
        | no other ↦
            later-IsOrdered w id receiver content o hid (omega (arith, above_of_missing w id o e)) e
      ]

  start-IsOrdered : IsOrdered start
  start-IsOrdered = record {
    undelivered_le = omega arith;
    fits = omega arith;
    sent_eq = refl;
    present = λ i lt. absurd (omega arith);
    missing = refl;
    above = tt;
    below = tt;
    agree = λ i lt. refl;
  }

  pub Reach-IsOrdered : {w : World R C} → Reach w → IsOrdered w
  Reach-IsOrdered begin = start-IsOrdered
  Reach-IsOrdered (next r s) = Step-IsOrdered s (Reach-IsOrdered r)

  pub next_id-issue :
      (w : World R C) → w.queue.next_id < 2 ^ 64 - 1 → (issue w).queue.next_id ≡ suc w.queue.next_id
  unfolding issue new_id
  next_id-issue w lt = omega arith

  next_id-hand_in :
      (w : World R C) (id : ℕ) (receiver : Option R) (content : Option C)
      → (hand_in w id receiver content).queue.next_id ≡ w.queue.next_id
  unfolding hand_in push
  next_id-hand_in w id receiver content = ground arith

  pub log-issue : (w : World R C) → (issue w).log ≡ w.log
  unfolding issue
  log-issue w = refl

  -- Only issued IDs are handed in.
  pub log_unissued : {w : World R C} → Reach w → (i : ℕ) → w.queue.next_id ≤ i → w.log i ≡ none
  unfolding hand_in issue
  log_unissued begin i h = refl
  log_unissued (next r (issues w lt)) i h = log_unissued r i (omega (arith, next_id-issue w lt))
  log_unissued (next r (hands_in w id receiver content lt fresh)) i h =
      ground (arith, log_unissued r i, next_id-hand_in w id receiver content)
