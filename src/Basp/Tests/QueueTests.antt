-- ===== src/Basp/Tests/QueueTests.antt =====
-- The message queue on a concrete history: two IDs, handed in in the wrong order.
use incubator.Prelude.{ℕ, zero, suc, ◌≤◌, ◌<◌, ◌≡◌, ◌≢◌, refl, arith, none, some, [], ◌∷◌}
use incubator.Basp.MessageQueue.{push, new_id}
use incubator.Basp.MessageQueue.Pending.{deliveries}
use incubator.Basp.MessageQueue.Calls.{
  World, Reach, begin, next, issues, hands_in, start, issue, hand_in,
}
use incubator.Basp.MessageQueue.Delivery.{delivered_in_order, delivered_completely}

abbrev two_issued : World ℕ ℕ
two_issued = issue (issue start)

abbrev second_first : World ℕ ℕ
second_first = hand_in two_issued 1 (some 8) (some 81)

abbrev both : World ℕ ℕ
both = hand_in second_first 0 (some 7) (some 70)

second_first-Reach : Reach second_first
unfolding issue new_id
second_first-Reach =
    next (next (next begin (issues start (omega arith))) (issues (issue start) (omega arith)))
      (hands_in two_issued 1 (some 8) (some 81) (omega arith) refl)

both-Reach : Reach both
unfolding issue new_id hand_in push
both-Reach = next second_first-Reach (hands_in second_first 0 (some 7) (some 70) (omega arith) refl)

both_sent : both.sent ≡ (7, some 70) ∷ (8, some 81) ∷ []
unfolding issue new_id hand_in push
both_sent = refl

delivered_in_order_example :
    (both.sent ≡ deliveries both.log 0 both.queue.next_undelivered)
    × (both.queue.next_undelivered ≤ both.queue.next_id)
    × ((i : ℕ) → i < both.queue.next_undelivered → both.log i ≢ none)
delivered_in_order_example = delivered_in_order both-Reach

both_all : (i : ℕ) → i < both.queue.next_id → both.log i ≢ none
unfolding issue new_id hand_in push
both_all zero lt e = cc
both_all (suc zero) lt e = cc
both_all (suc (suc i)) lt e = absurd (omega arith)

delivered_completely_example :
    (both.sent ≡ deliveries both.log 0 both.queue.next_id)
    × (both.queue.next_undelivered ≡ both.queue.next_id)
    × (both.queue.pending ≡ [])
delivered_completely_example = delivered_completely both-Reach both_all
