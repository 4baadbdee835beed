-- ===== src/Basp/MessageQueue/Calls.antt =====
-- The calls of several workers on caf/net/basp/message_queue.hpp, in any order.
use incubator.Prelude.{
  ℕ, ◌-◌, ◌^◌, ◌<◌, ◌≡◌, ◌==◌, if◌then◌else◌, Option, none, some, List, [], ◌++◌,
}
use incubator.Basp.MessageQueue.{MessageQueue, init, push, new_id}
use incubator.Basp.MessageQueue.Pending.{Log}

abbrev pub update {ℓ} : {A : Type ℓ} → (ℕ → A) → ℕ → A → ℕ → A
update f i a j = if i == j then a else f j

-- The queue with what was handed in so far, and what the receivers got so far.
pub record World {ℓ} (R C : Type ℓ) : Type ℓ where
  pub queue : MessageQueue R C
  pub log : Log R C
  pub sent : List (R × Option C)

module _ {ℓ} {R C : Type ℓ} where
  abbrev pub start : World R C
  start = record { queue = init; log = λ i. none; sent = [] }

  unfoldable pub issue : World R C → World R C
  issue w = record w { queue = (new_id w.queue).1 }

  unfoldable pub hand_in : World R C → ℕ → Option R → Option C → World R C
  hand_in w id receiver content = record w {
    queue = (push w.queue id receiver content).1;
    log = update w.log id (some (receiver, content));
    sent = w.sent ++ (push w.queue id receiver content).0;
  }

  -- The calls that the workers make, in any order: an ID is handed in at most once, after it was
  -- issued, and fewer than 2^64 IDs are issued.
  pub data Step : World R C → World R C → Type ℓ where
    issues : (w : World R C) → w.queue.next_id < 2 ^ 64 - 1 → Step w (issue w)
    hands_in :
        (w : World R C) (id : ℕ) (receiver : Option R) (content : Option C)
        → id < w.queue.next_id
        → w.log id ≡ none
        → Step w (hand_in w id receiver content)

  pub data Reach : World R C → Type ℓ where
    begin : Reach start
    next : {w v : World R C} → Reach w → Step w v → Reach v
