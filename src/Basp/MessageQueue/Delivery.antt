-- ===== src/Basp/MessageQueue/Delivery.antt =====
-- What the message queue promises its users: strict order, completeness, and where it stalls.
use native.Mathlib.Decide.{dec_lt}
use incubator.Prelude.{ℕ, ◌≤◌, ◌<◌, ◌≡◌, ◌≢◌, suc, refl, ap, ◌∙◌, arith, none, List, [], ◌∷◌}
use incubator.Basp.MessageQueue.{ActorMsg}
use incubator.Basp.MessageQueue.Pending.{Above, Below, deliveries}
use incubator.Basp.MessageQueue.Calls.{World, Reach}
use incubator.Basp.MessageQueue.Order.{IsOrdered, Reach-IsOrdered, above_of_missing}

module _ {ℓ} {R C : Type ℓ} where
  -- After any sequence of calls, in which the issued IDs were handed in in any order, the
  -- receivers got exactly the messages of the IDs below `next_undelivered`, in the order of their
  -- IDs; and each of these IDs was handed in.
  pub delivered_in_order :
      {w : World R C}
      → Reach w
      → (w.sent ≡ deliveries w.log 0 w.queue.next_undelivered)
        × (w.queue.next_undelivered ≤ w.queue.next_id)
        × ((i : ℕ) → i < w.queue.next_undelivered → w.log i ≢ none)
  delivered_in_order r = let o = Reach-IsOrdered r in (o.sent_eq, o.undelivered_le, o.present)

  pending_nil : (n k : ℕ) (ms : List (ActorMsg R C)) → k ≤ n → Above n ms → Below k ms → ms ≡ []
  pending_nil n k [] h a b = refl
  pending_nil n k (m ∷ ms) h a b = absurd (omega arith)

  reached :
      (w : World R C)
      → IsOrdered w
      → ((i : ℕ) → i < w.queue.next_id → w.log i ≢ none)
      → w.queue.next_undelivered ≡ w.queue.next_id
  reached w o all = elim (dec_lt w.queue.next_undelivered w.queue.next_id) [
    | yes short ↦ absurd (all w.queue.next_undelivered short o.missing)
    | no full ↦ omega (arith, o.undelivered_le)
  ]

  -- Once every issued ID was handed in, all messages are delivered, in the order of their IDs,
  -- and nothing is pending.
  pub delivered_completely :
      {w : World R C}
      → Reach w
      → ((i : ℕ) → i < w.queue.next_id → w.log i ≢ none)
      → (w.sent ≡ deliveries w.log 0 w.queue.next_id)
        × (w.queue.next_undelivered ≡ w.queue.next_id)
        × (w.queue.pending ≡ [])
  delivered_completely {w} r all =
      let o = Reach-IsOrdered r in
      let level : w.queue.next_undelivered ≡ w.queue.next_id = reached w o all in
      (
        o.sent_eq ∙ ap (deliveries w.log 0) level,
        level,
        pending_nil (suc w.queue.next_undelivered) w.queue.next_id w.queue.pending (omega arith)
            o.above o.below,
      )

  -- An ID that is issued and not handed in holds back every message from that ID on: what was
  -- sent are messages of smaller IDs.
  pub missing_id_stalls :
      {w : World R C} (id : ℕ)
      → Reach w
      → w.log id ≡ none
      → (n : ℕ) × (n ≤ id) × (w.sent ≡ deliveries w.log 0 n)
  missing_id_stalls {w} id r e =
      let o = Reach-IsOrdered r in (w.queue.next_undelivered, above_of_missing w id o e, o.sent_eq)
