-- ===== src/Basp/MessageQueue.antt =====
-- caf/net/basp/message_queue.hpp and src/message_queue.cpp. The mutex makes each call one step.
-- What the code enqueues to receivers is returned, in order, beside the new state.
pub mod Pending
pub mod Calls
pub mod Order
pub mod Delivery
use incubator.Prelude.{
  ℕ, ◌+◌, ◌%◌, ◌^◌, ◌==◌, leb, Bool, true, not, ◌||◌, if◌then◌else◌, Option, none, some, List, [],
  ◌∷◌, ◌++◌,
}

-- `++x` on a uint64_t.
abbrev pub succ64 : ℕ → ℕ
succ64 x = (x + 1) % 2 ^ 64

-- `R` stands for the actors, and `C` for the mailbox elements; both come as nullable pointers.
pub record ActorMsg {ℓ} (R C : Type ℓ) : Type ℓ where
  pub id : ℕ
  pub receiver : Option R
  pub content : Option C

pub record MessageQueue {ℓ} (R C : Type ℓ) : Type ℓ where
  pub next_id : ℕ
  pub next_undelivered : ℕ
  pub pending : List (ActorMsg R C)

module _ {ℓ} {R C : Type ℓ} where
  abbrev pub init : MessageQueue R C
  init = record { next_id = 0; next_undelivered = 0; pending = [] }

  -- `if (receiver != nullptr) receiver->enqueue(content)`
  abbrev pub enqueue : Option R → Option C → List (R × Option C)
  enqueue none content = []
  enqueue (some r) content = (r, content) ∷ []

  -- `first == last || first->id != next`
  abbrev gap : ℕ → List (ActorMsg R C) → Bool
  gap next [] = true
  gap next (m ∷ ms) = not (m.id == next)

  -- The loop over consecutive IDs: what it enqueues, the next ID, and what it does not reach.
  pub drain : ℕ → List (ActorMsg R C) → List (R × Option C) × ℕ × List (ActorMsg R C)
  drain next [] = ([], next, [])
  drain next (m ∷ ms) =
      let rest = drain (succ64 next) ms in
      if m.id == next
      then (enqueue m.receiver m.content ++ rest.0, rest.1, rest.2)
      else ([], next, m ∷ ms)

  -- `pending.emplace(std::find_if(first, last, pred), ...)`, where `pred` is `x.id >= id`.
  pub emplace : ActorMsg R C → List (ActorMsg R C) → List (ActorMsg R C)
  emplace x [] = x ∷ []
  emplace x (m ∷ ms) = if leb x.id m.id then x ∷ m ∷ ms else m ∷ emplace x ms

  unfoldable pub push :
      MessageQueue R C → ℕ → Option R → Option C → List (R × Option C) × MessageQueue R C
  unfolding drain emplace
  push q id receiver content =
      if id == q.next_undelivered
      then (let next = succ64 id in
          let (sent, last, rest) = drain next q.pending in
          if gap next q.pending
          then (enqueue receiver content, record q { next_undelivered = next })
          else (
            enqueue receiver content ++ sent,
            record q { next_undelivered = last; pending = rest },
          ))
      else (
        [],
        record q {
          pending = emplace (record { id = id; receiver = receiver; content = content }) q.pending;
        },
      )

  unfoldable pub drop : MessageQueue R C → ℕ → List (R × Option C) × MessageQueue R C
  unfolding push
  drop q id = push q id none none

  unfoldable pub new_id : MessageQueue R C → ℕ × MessageQueue R C
  new_id q = (q.next_id, record q { next_id = succ64 q.next_id })
