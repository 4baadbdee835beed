-- ===== src/Basp/Application/Ordering.antt =====
-- Actor messages and the message queue: which steps of MessageQueue/Calls the application makes for
-- a message.
use incubator.Prelude.{
  ℕ, ◌-◌, ◌^◌, ◌<◌, ◌≡◌, ◌≢◌, map, ◌∷◌, refl, sym, ap, subst, ◌∙◌, arith, false, ◌==◌, Option, none,
  some, ◌⊎◌, inl, inr, List, [], ◌++◌,
}
use incubator.Bytes.{Bytes, NetworkOrder}
use incubator.Net.Error.{Error}
use incubator.Basp.Header.{Header}
use incubator.Basp.MessageQueue.{push, new_id}
use incubator.Basp.MessageQueue.Calls.{World, Reach, next, issues, hands_in, issue, hand_in}
use incubator.Basp.MessageQueue.Order.{next_id-issue, log-issue, log_unissued}
use incubator.Basp.Application.System.{Kinds, App, Core, Element, Remote, Effect, enqueue_to}
use incubator.Basp.Application.Handlers.{
  handle_remote_message, handle_actor_message, delivered, sender_of, ship,
}

==_no : {n : ℕ} → n ≢ 0 → (n == 0) ≡ false
==_no h = ground (arith, h)

module _ ⦃net : NetworkOrder⦄ {k : Kinds} where
  -- The application has the queue of a history of calls.
  abbrev pub Matches : App k → World k.Actor (Element k) → Type 0
  Matches a w = a.queue ≡ w.queue

  -- What a delivery of the queue is to the outside.
  abbrev pub told : k.Actor × Option (Element k) → Effect k
  told (receiver, content) = enqueue_to receiver content

  -- The application `b` has the queue of the history `later`, and what `later` delivered beyond `w` is
  -- what `b` did beyond `a`.
  pub record Continues (a b : App k) (w later : World k.Actor (Element k)) : Type 0 where
    pub reached : Reach later
    pub matches : Matches b later
    pub sent_now : List (k.Actor × Option (Element k))
    pub sent_eq : later.sent ≡ w.sent ++ sent_now
    pub effects_eq : b.effects ≡ a.effects ++ map told sent_now

  -- What a message hands to its receiver.
  abbrev pub element_of : Core k → Header → Remote k → Element k
  element_of core hdr m = record {
    sender = sender_of core m;
    mid = hdr.operation_data;
    content = m.message;
  }

  delivered_lem :
      (core : Core k) (sent : List (k.Actor × Option (Element k)))
      → delivered core sent ≡ map told sent
  delivered_lem core [] = refl
  delivered_lem core ((r, c) ∷ sent) = ap (◌∷◌ (enqueue_to r c)) (delivered_lem core sent)

  shipped :
      (core : Core k) (a : App k) (w : World k.Actor (Element k)) (id : ℕ) (hdr : Header)
      (m : Remote k) (dst : k.Actor)
      → Reach w
      → Matches a w
      → id < w.queue.next_id
      → w.log id ≡ none
      → Continues a
          (ship core a id hdr m dst)
          w
          (hand_in w id (some dst) (some (element_of core hdr m)))
  unfolding hand_in
  shipped core a w id hdr m dst r e lt fresh =
      let element = element_of core hdr m in
      record {
        reached = next r (hands_in w id (some dst) (some element) lt fresh);
        matches = ap (λ q. (push q id (some dst) (some element)).1) e;
        sent_now = (push a.queue id (some dst) (some element)).0;
        sent_eq = ap (λ q. w.sent ++ (push q id (some dst) (some element)).0) (sym e);
        effects_eq =
            ap (◌++◌ a.effects) (delivered_lem core (push a.queue id (some dst) (some element)).0);
      }

  -- The state of the application once it took an ID for a message.
  abbrev with_id : App k → App k
  with_id a = record a { queue = (new_id a.queue).1 }

  with_id-Matches :
      (a : App k) (w : World k.Actor (Element k)) → Matches a w → Matches (with_id a) (issue w)
  unfolding issue
  with_id-Matches a w e = ap (λ q. (new_id q).1) e

  handled_at_once :
      (core : Core k) (a : App k) (hdr : Header) (payload : Bytes)
      → core.idle_worker ≡ false
      → handle_actor_message core a hdr payload
        ≡ (none, handle_remote_message core (with_id a) a.queue.next_id hdr payload)
  unfolding handle_actor_message new_id
  handled_at_once core a hdr payload e = rw e

  issued_lt :
      (w : World k.Actor (Element k))
      → w.queue.next_id < 2 ^ 64 - 1
      → w.queue.next_id < (issue w).queue.next_id
  issued_lt w lt = omega (arith, next_id-issue w lt)

  issued_fresh : {w : World k.Actor (Element k)} → Reach w → (issue w).log w.queue.next_id ≡ none
  issued_fresh {w} r =
      ap (λ l. l w.queue.next_id) (log-issue w) ∙ log_unissued r w.queue.next_id (omega arith)

  -- Taking an ID delivers nothing.
  from_issue :
      (a b : App k) (w later : World k.Actor (Element k))
      → Continues (with_id a) b (issue w) later
      → Continues a b w later
  unfolding issue
  from_issue a b w later c = record {
    reached = c.reached;
    matches = c.matches;
    sent_now = c.sent_now;
    sent_eq = c.sent_eq;
    effects_eq = c.effects_eq;
  }

  accepted :
      (core : Core k) (a : App k) (id : ℕ) (hdr : Header) (payload : Bytes) (m : Remote k)
      (dst : k.Actor)
      → core.read_message payload ≡ inr m
      → m.dst_id ≢ 0
      → core.get m.dst_id ≡ some dst
      → handle_remote_message core a id hdr payload ≡ ship core a id hdr m dst
  unfolding handle_remote_message
  accepted core a id hdr payload m dst e named f = ground (arith, e, f, ==_no named)

  -- Where no worker is idle, an actor message that can be read, and names a receiver that is there,
  -- takes the next ID, and its sender, its ID and its content are handed to the queue under this ID at
  -- once, for this receiver: the queue is that of the history that goes on with these two steps, what
  -- the application gives to the receivers are the deliveries that the history makes thereby, and there
  -- is no error.
  pub handle_actor_message-Continues :
      (core : Core k) (a : App k) (w : World k.Actor (Element k)) (hdr : Header) (payload : Bytes)
      (m : Remote k) (dst : k.Actor)
      → Reach w
      → Matches a w
      → w.queue.next_id < 2 ^ 64 - 1
      → core.idle_worker ≡ false
      → core.read_message payload ≡ inr m
      → m.dst_id ≢ 0
      → core.get m.dst_id ≡ some dst
      → ((handle_actor_message core a hdr payload).0 ≡ none)
        × Continues a
            (handle_actor_message core a hdr payload).1
            w
            (hand_in (issue w) w.queue.next_id (some dst) (some (element_of core hdr m)))
  handle_actor_message-Continues core a w hdr payload m dst r e lt busy readable named there =
      let id : a.queue.next_id ≡ w.queue.next_id = ap (λ q. q.next_id) e in
      let element = element_of core hdr m in
      let c =
        from_issue a (ship core (with_id a) a.queue.next_id hdr m dst) w
          (hand_in (issue w) a.queue.next_id (some dst) (some element))
          (shipped core (with_id a) (issue w) a.queue.next_id hdr m dst (next r (issues w lt))
            (with_id-Matches a w e) (omega (arith, id, issued_lt w lt))
            (ap (issue w).log id ∙ issued_fresh r)) in
      let done =
        handled_at_once core a hdr payload busy
        ∙ ap (λ b. (none, b))
            (accepted core (with_id a) a.queue.next_id hdr payload m dst readable named there) in
      (
        ap (λ r. r.0) done,
        subst (λ b. Continues a b w (hand_in (issue w) w.queue.next_id (some dst) (some element)))
            (sym (ap (λ r. r.1) done))
            (subst
              (λ i.
                Continues a (ship core (with_id a) a.queue.next_id hdr m dst) w
                  (hand_in (issue w) i (some dst) (some element)))
              id c),
      )

  -- What makes the application refuse an actor message.
  abbrev pub Refused : Core k → Bytes → Type 0
  Refused core payload =
      ((err : Error) × (core.read_message payload ≡ inl err))
      ⊎ ((m : Remote k) × (core.read_message payload ≡ inr m)
          × ((m.dst_id ≡ 0) ⊎ (core.get m.dst_id ≡ none)))

  refused :
      (core : Core k) (a : App k) (id : ℕ) (hdr : Header) (payload : Bytes)
      → Refused core payload
      → handle_remote_message core a id hdr payload ≡ a
  unfolding handle_remote_message
  refused core a id hdr payload (inl (err, e)) = ground (arith, e)
  refused core a id hdr payload (inr (m, e, inl z)) = ground (arith, e, z)
  refused core a id hdr payload (inr (m, e, inr g)) = ground (arith, e, g)

  -- An actor message whose payload cannot be read, or that names no receiver or one that is not
  -- there, takes an ID of the queue all the same: where no worker is idle, there is no error and no
  -- effect, and the queue is that of a history in which the ID was issued, and not handed in.
  pub lost_message_takes_id :
      (core : Core k) (a : App k) (w : World k.Actor (Element k)) (hdr : Header) (payload : Bytes)
      → Reach w
      → Matches a w
      → w.queue.next_id < 2 ^ 64 - 1
      → core.idle_worker ≡ false
      → Refused core payload
      → ((handle_actor_message core a hdr payload).0 ≡ none)
        × ((handle_actor_message core a hdr payload).1.effects ≡ a.effects)
        × Matches (handle_actor_message core a hdr payload).1 (issue w)
        × Reach (issue w)
        × (w.queue.next_id < (issue w).queue.next_id)
        × ((issue w).log w.queue.next_id ≡ none)
  lost_message_takes_id core a w hdr payload r e lt busy bad =
      rw
        (
          handled_at_once core a hdr payload busy,
          refused core (with_id a) a.queue.next_id hdr payload bad,
        )
        (refl, refl, with_id-Matches a w e, next r (issues w lt), issued_lt w lt, issued_fresh r)
