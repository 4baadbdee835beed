-- ===== src/StreamTransport/Output.antt =====
-- What the socket is given of the output, over any sequence of write events.
use incubator.Prelude.{
  length, zero, suc, ℕ, ◌≡◌, refl, sym, ap, ◌∙◌, Bool, true, false, Bool-cases, inl, inr, ◌++◌,
  append_assoc, take, drop, take-append-drop, drop_prefix,
}
use incubator.Bytes.{Bytes}
use incubator.Net.Error.{Error}
use incubator.Net.Down.{Down, abort_reason}
use incubator.StreamTransport.{
  Transport, Received, Sent, sent, write_closed, write_would_block, write_failed, Socket, Upper,
  is_empty, fail, finished, after_write, prepared, handle_write_event,
}

-- A socket with the bytes that it took so far.
pub record Recorded (S : Type 0) : Type 0 where
  pub socket_state : S
  pub taken : Bytes

abbrev note_sent : {S : Type 0} → Bytes → Bytes → Sent × S → Sent × Recorded S
note_sent bs taken (sent n, s) = (sent n, record { socket_state = s; taken = taken ++ take n bs })
note_sent bs taken (write_closed, s) = (write_closed, record { socket_state = s; taken = taken })
note_sent bs taken (write_would_block, s) =
    (write_would_block, record { socket_state = s; taken = taken })
note_sent bs taken (write_failed, s) = (write_failed, record { socket_state = s; taken = taken })

abbrev note_received : {S : Type 0} → Bytes → Received × S → Received × Recorded S
note_received taken (r, s) = (r, record { socket_state = s; taken = taken })

abbrev pub recording : {S : Type 0} → Socket S → Socket (Recorded S)
recording socket = record {
  receive = λ n r. note_received r.taken (socket.receive n r.socket_state);
  send = λ bs r. note_sent bs r.taken (socket.send bs r.socket_state);
}

abbrev pub IsExtension : Bytes → Bytes → Type 0
IsExtension before after = (out : Bytes) × (after ≡ before ++ out)

-- An upper layer with the output that it added so far.
pub record Logged (U : Type 0) : Type 0 where
  pub layer : U
  pub added : Bytes

abbrev note_added : {U : Type 0} → Bytes → Bytes → U → Down → Logged U × Down
note_added before added u d =
    (record { layer = u; added = added ++ drop (length before) d.write_buf }, d)

abbrev note_result : {U R : Type 0} → Bytes → Bytes → R × U × Down → R × Logged U × Down
note_result before added (result, u, d) = let n = note_added before added u d in (result, n.0, n.1)

abbrev note_abort : {U : Type 0} → Bytes → Bytes → U × Down → Logged U × Down
note_abort before added (u, d) = note_added before added u d

abbrev pub logging : {U : Type 0} → Upper U → Upper (Logged U)
logging upper = record {
  consume = λ bs delta l d. note_result d.write_buf l.added (upper.consume bs delta l.layer d);
  abort = λ e l d. note_abort d.write_buf l.added (upper.abort e l.layer d);
  prepare_send = λ l d. note_result d.write_buf l.added (upper.prepare_send l.layer d);
  done_sending = λ l d. note_result d.write_buf l.added (upper.done_sending l.layer d);
}

added_lem :
    (taken a b added : Bytes)
    → taken ++ a ≡ added
    → IsExtension a b
    → taken ++ b ≡ added ++ drop (length a) b
added_lem taken a b added e (out, e') =
    ap (◌++◌ taken) e'
    ∙ sym (append_assoc taken a out)
    ∙ ap (λ (xs : Bytes). xs ++ out) e
    ∙ ap (◌++◌ added) (sym (ap (drop (length a)) e' ∙ drop_prefix a out (length a) refl))

moved : (taken : Bytes) (n : ℕ) (buf : Bytes) → (taken ++ take n buf) ++ drop n buf ≡ taken ++ buf
moved taken n buf =
    append_assoc taken (take n buf) (drop n buf) ∙ ap (◌++◌ taken) (take-append-drop n buf)

-- An upper layer that adds to the output, and takes nothing away.
pub record OnlyAdds {U : Type 0} (upper : Upper U) : Type 0 where
  pub prepares : (u : U) (d : Down) → IsExtension d.write_buf (upper.prepare_send u d).2.write_buf
  pub completes : (u : U) (d : Down) → IsExtension d.write_buf (upper.done_sending u d).2.write_buf
  pub aborts :
      (e : Error) (u : U) (d : Down) → IsExtension d.write_buf (upper.abort e u d).1.write_buf

-- What the socket took and what is left to write is what was added, in order.
abbrev pub IsInOrder : {U S : Type 0} → Transport → Logged U → Recorded S → Type 0
IsInOrder t l r = r.taken ++ t.down.write_buf ≡ l.added

abbrev pub EndsInOrder : {U S : Type 0} → Bool × Transport × Logged U × Recorded S → Type 0
EndsInOrder (result, t, l, r) = IsInOrder t l r

module _ {U S : Type 0} (upper : Upper U) (socket : Socket S) where
  -- A number of write events, one after the other.
  abbrev pub write_events :
      ℕ → Transport → Logged U → Recorded S → Bool × Transport × Logged U × Recorded S
  write_events zero t l r = (true, t, l, r)
  write_events (suc n) t l r =
      let c = handle_write_event (logging upper) (recording socket) t l r in
      write_events n c.1 c.2 c.3

module _ {U S : Type 0} (upper : Upper U) (socket : Socket S) (h : OnlyAdds upper) where
  fail-EndsInOrder :
      (e : Error) (t : Transport) (l : Logged U) (r : Recorded S)
      → IsInOrder t l r
      → EndsInOrder (fail (logging upper) (recording socket) e t l r)
  fail-EndsInOrder e t l r i =
      added_lem r.taken _ _ l.added i (h.aborts e l.layer (abort_reason e t.down))

  finished-EndsInOrder :
      (t : Transport) (l : Logged U) (r : Recorded S)
      → IsInOrder t l r
      → EndsInOrder
          (finished (logging upper) (recording socket) t r ((logging upper).done_sending l t.down))
  finished-EndsInOrder t l r i = added_lem r.taken _ _ l.added i (h.completes l.layer t.down)

  after_sent-EndsInOrder :
      (t : Transport) (l : Logged U) (taken : Bytes) (n : ℕ) (s : S)
      → taken ++ t.down.write_buf ≡ l.added
      → EndsInOrder (
          after_write
            (logging upper)
            (recording socket)
            t
            l
            (note_sent t.down.write_buf taken (sent n, s)))
  after_sent-EndsInOrder t l taken n s i =
      let buf = t.down.write_buf in
      let t' : Transport = record t { down = record t.down { write_buf = drop n buf } } in
      let r : Recorded S = record { socket_state = s; taken = taken ++ take n buf } in
      elim (Bool-cases (is_empty (drop n buf))) [
        | inl all_sent ↦
            rw (all_sent, after_write) (finished-EndsInOrder t' l r (moved taken n buf ∙ i))
        | inr some_left ↦ rw (some_left, after_write) (moved taken n buf ∙ i)
      ]

  after_write-EndsInOrder :
      (t : Transport) (l : Logged U) (taken : Bytes) (result : Sent) (s : S)
      → taken ++ t.down.write_buf ≡ l.added
      → EndsInOrder (
          after_write
            (logging upper)
            (recording socket)
            t
            l
            (note_sent t.down.write_buf taken (result, s)))
  after_write-EndsInOrder t l taken (sent n) s i = after_sent-EndsInOrder t l taken n s i
  after_write-EndsInOrder t l taken write_would_block s i = i
  after_write-EndsInOrder t l taken write_closed s i =
      fail-EndsInOrder _ t l (record { socket_state = s; taken = taken }) i
  after_write-EndsInOrder t l taken write_failed s i =
      fail-EndsInOrder _ t l (record { socket_state = s; taken = taken }) i

  prepared-EndsInOrder :
      (t : Transport) (l : Logged U) (r : Recorded S) (ok : Bool)
      → IsInOrder t l r
      → EndsInOrder (prepared (logging upper) (recording socket) t r (ok, l, t.down))
  prepared-EndsInOrder t l r false i = fail-EndsInOrder _ t l r i
  prepared-EndsInOrder t l r true i = elim (Bool-cases (is_empty t.down.write_buf)) [
    | inl none_left ↦ rw (none_left, prepared) (finished-EndsInOrder t l r i)
    | inr some_left ↦
        let result = socket.send t.down.write_buf r.socket_state in
        rw (some_left, prepared) (after_write-EndsInOrder t l r.taken result.0 result.1 i)
  ]

  handle_write_event-EndsInOrder :
      (t : Transport) (l : Logged U) (r : Recorded S)
      → IsInOrder t l r
      → EndsInOrder (handle_write_event (logging upper) (recording socket) t l r)
  unfolding handle_write_event
  handle_write_event-EndsInOrder t l r i =
      let p = (logging upper).prepare_send l t.down in
      let t' : Transport = record t { down = p.2 } in
      prepared-EndsInOrder t' p.1 r p.0
        (added_lem r.taken _ _ l.added i (h.prepares l.layer t.down))

  -- Where the upper layer only adds to the output, and what the socket took and what is left to write
  -- is what was added, in order: so it is after any number of write events, however many bytes the
  -- socket takes at a time and whether it fails. No byte is lost, sent twice or moved.
  pub output_in_order :
      (n : ℕ) (t : Transport) (l : Logged U) (r : Recorded S)
      → IsInOrder t l r
      → EndsInOrder (write_events upper socket n t l r)
  output_in_order zero t l r i = i
  output_in_order (suc n) t l r i =
      let c = handle_write_event (logging upper) (recording socket) t l r in
      output_in_order n c.1 c.2 c.3 (handle_write_event-EndsInOrder t l r i)
