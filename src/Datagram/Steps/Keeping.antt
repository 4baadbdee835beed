-- ===== src/Datagram/Steps/Keeping.antt =====
-- A predicate that stands the changes stands every sequence of events.
use incubator.Prelude.{
  ℕ, zero, suc, ◌≡◌, refl, sym, ◌∙◌, ◌⊎◌, Bool, Option, none, some, Option-cases, inl, inr, List,
  [], ◌∷◌, subst,
}
use mathlib.Core.Option.{some-injective}
use incubator.Bytes.{Bytes}
use incubator.Net.Error.{Error, Code}
use incubator.Datagram.{Packet, recycle}
use incubator.Datagram.Workers.{
  Call, Event, resolve, timeout, Application, Transport, Message, find_worker, on_worker, then_call,
  add_new_worker, handle_data, write_message, node_event, resolve_node, set_timeout, note_timeout,
  on_timeout, forget, event_call,
}
use incubator.Datagram.Events.{
  ReadResult, datagram, nothing_to_read, read_error, WriteResult, bytes_written, cannot_write_yet,
  write_error, write_some, after_some, more_to_write, after_data, handle_write_event, read_loop,
  handle_read_event,
}
use incubator.Datagram.Steps.Stopping.{handle_write_event-MayStop}
use incubator.Datagram.Steps.{
  Step, read, write, worker_added, node_told, resolved, timeout_set, timed_out, failed, Steps, done,
  and_then, IsKept,
}

queue_cases : (q : List Packet) → (q ≡ []) ⊎ ((p : Packet) × (ps : List Packet) × (q ≡ p ∷ ps))
queue_cases [] = inl refl
queue_cases (p ∷ ps) = inr (p, ps, refl)

module _ {A : Type 0} (app : Application A) {P : Transport A → Type 0} (k : IsKept app P) where
  then_call_keeps :
      (call : A → Option Error × A × List Call) (err : Option Error) (w : ℕ) (t : Transport A)
      → P t
      → P (then_call app call (err, w, t)).1
  then_call_keeps call none w t s = k.called w call t s
  then_call_keeps call (some err) w t s = s

  handle_data_keeps :
      (bytes : Bytes) (id : ℕ) (t : Transport A) → P t → P (handle_data app bytes id t).1
  unfolding handle_data
  handle_data_keeps bytes id t s = elim (Option-cases (find_worker id t.layer.workers_by_id)) [
    | inl new ↦
        let r = add_new_worker app 0 id t in
        rw (new, handle_data)
          (then_call_keeps (app.handle_data bytes) r.0 r.1 r.2 (k.added 0 id t s))
    | inr (w, found) ↦ rw (found, handle_data) (k.called w (app.handle_data bytes) t s)
  ]

  write_to_keeps :
      (content : Bytes) (nid : ℕ) (t : Transport A)
      → P t
      → P (write_message app (record { receiver = some nid; content = content }) t)
  unfolding write_message
  write_to_keeps content nid t s = elim (Option-cases (find_worker nid t.layer.workers_by_node)) [
    | inl new ↦
        let r = add_new_worker app nid 0 t in
        rw (new, write_message)
          (then_call_keeps (app.write_message content) r.0 r.1 r.2 (k.added nid 0 t s))
    | inr (w, found) ↦ rw (found, write_message) (k.called w (app.write_message content) t s)
  ]

  write_message_keeps :
      (receiver : Option ℕ) (content : Bytes) (t : Transport A)
      → P t
      → P (write_message app (record { receiver = receiver; content = content }) t)
  unfolding write_message
  write_message_keeps none content t s = s
  write_message_keeps (some nid) content t s = write_to_keeps content nid t s

  node_event_keeps : (nid : ℕ) (e : Event) (t : Transport A) → P t → P (node_event app nid e t)
  unfolding node_event
  node_event_keeps nid e t s = elim (Option-cases (find_worker nid t.layer.workers_by_node)) [
    | inl gone ↦ rw (gone, node_event) s
    | inr (w, found) ↦ rw (found, node_event) (k.called w (event_call app e) t s)
  ]

  resolve_node_keeps :
      (nid : ℕ) (path : Bytes) (listener : ℕ) (t : Transport A)
      → P t
      → P (resolve_node app nid path listener t)
  unfolding resolve_node
  resolve_node_keeps nid path listener t s =
      elim (Option-cases (find_worker nid t.layer.workers_by_node)) [
        | inl gone ↦ rw (gone, resolve_node) (k.unresolved listener t s)
        | inr (w, found) ↦
            rw (found, resolve_node) (k.called w (event_call app (resolve path listener)) t s)
      ]

  write_some_keeps :
      (results : List WriteResult) (t : Transport A) → P t → P (write_some app results t).2
  unfolding write_some
  write_some_keeps [] t s = elim (queue_cases t.base.packet_queue) [
    | inl e ↦ rw (e, write_some) s
    | inr (p, ps, e) ↦ rw (e, write_some) s
  ]
  write_some_keeps (bytes_written n ∷ results) t s = elim (queue_cases t.base.packet_queue) [
    | inl e ↦ rw (e, write_some) s
    | inr (p, ps, e) ↦
        rw (e, write_some)
          (write_some_keeps results (record t { base = recycle p ps t.base })
            (k.recycled p ps t e s))
  ]
  write_some_keeps (cannot_write_yet ∷ results) t s = elim (queue_cases t.base.packet_queue) [
    | inl e ↦ rw (e, write_some) s
    | inr (p, ps, e) ↦ rw (e, write_some) s
  ]
  write_some_keeps (write_error code ∷ results) t s = elim (queue_cases t.base.packet_queue) [
    | inl e ↦ rw (e, write_some) s
    | inr (p, ps, e) ↦ rw (e, write_some) (k.write_failed code t s)
  ]

  after_some_keeps :
      (next : List WriteResult → Transport A → Bool × Transport A)
      → ((results : List WriteResult) (t : Transport A) → P t → P (next results t).1)
      → (code : Option Code) (results : List WriteResult) (t : Transport A) → P t
      → P (after_some app next (code, results, t)).1
  after_some_keeps next h (some code) results t s = s
  after_some_keeps next h none results t s = h results t s

  handle_write_event_keeps :
      (msgs : List Message) (results : List WriteResult) (t : Transport A)
      → P t
      → P (handle_write_event app msgs results t).1
  unfolding handle_write_event
  handle_write_event_keeps [] results t s =
      let r = write_some app results t in
      after_some_keeps (λ rs. more_to_write app) (λ rs t' s'. s') r.0 r.1 r.2
        (write_some_keeps results t s)
  handle_write_event_keeps (msg ∷ msgs) results t s =
      let r = write_some app results t in
      after_some_keeps (λ rs t'. handle_write_event app msgs rs (write_message app msg t'))
        (λ rs t' s'.
          handle_write_event_keeps msgs rs (write_message app msg t')
            (write_message_keeps msg.receiver msg.content t' s'))
        r.0 r.1 r.2 (write_some_keeps results t s)

  after_data_keeps :
      (next : Transport A → Bool × Transport A)
      → ((t : Transport A) → P t → P (next t).1)
      → (err : Option Error) (t : Transport A) → P t
      → P (after_data app next (err, t)).1
  after_data_keeps next h (some err) t s = s
  after_data_keeps next h none t s = h t s

  read_loop_keeps :
      (reads : ℕ) (results : List ReadResult) (t : Transport A)
      → P t
      → P (read_loop app reads results t).1
  unfolding read_loop
  read_loop_keeps zero results t s = s
  read_loop_keeps (suc reads) [] t s = s
  read_loop_keeps (suc reads) (nothing_to_read ∷ results) t s = s
  read_loop_keeps (suc reads) (read_error code ∷ results) t s = k.failed code t s
  read_loop_keeps (suc reads) (datagram bytes id ∷ results) t s =
      let r = handle_data app bytes id t in
      after_data_keeps (read_loop app reads results) (read_loop_keeps reads results) r.0 r.1
        (handle_data_keeps bytes id t s)

  handle_read_event_keeps :
      (results : List ReadResult) (t : Transport A) → P t → P (handle_read_event app results t).1
  unfolding handle_read_event
  handle_read_event_keeps results t s = read_loop_keeps t.base.max_consecutive_reads results t s

  set_timeout_keeps :
      (timeout_id id : ℕ) (t t' : Transport A)
      → set_timeout app timeout_id id t ≡ some t'
      → P t
      → P t'
  unfolding set_timeout
  set_timeout_keeps timeout_id id t t' e s =
      elim (Option-cases (find_worker id t.layer.workers_by_id)) [
        | inl gone ↦
            let q : set_timeout app timeout_id id t ≡ none = rw (gone, set_timeout) refl in cc
        | inr (w, found) ↦
            let q : set_timeout app timeout_id id t ≡ some (note_timeout app timeout_id w t) =
              rw (found, set_timeout) refl in
            subst P (some-injective _ _ (sym q ∙ e)) (k.noted timeout_id w t s)
      ]

  on_timeout_keeps :
      (tag : Bytes) (id : ℕ) (t t' : Transport A) → on_timeout app tag id t ≡ some t' → P t → P t'
  unfolding on_timeout
  on_timeout_keeps tag id t t' e s =
      elim (Option-cases (find_worker id t.layer.workers_by_timeout_id)) [
        | inl gone ↦ let q : on_timeout app tag id t ≡ none = rw (gone, on_timeout) refl in cc
        | inr (w, found) ↦
            let t₁ = (on_worker app w (event_call app (timeout tag id)) t).1 in
            let q : on_timeout app tag id t ≡ some (forget app id t₁) =
              rw (found, on_timeout) refl in
            subst P (some-injective _ _ (sym q ∙ e))
              (k.forgotten id t₁ (k.called w (event_call app (timeout tag id)) t s))
      ]

  Step-keeps : {t t' : Transport A} → Step app t t' → P t → P t'
  Step-keeps {t} (read results) s = handle_read_event_keeps results t s
  Step-keeps {t} (write msgs results) s =
      let r = handle_write_event app msgs results t in
      k.settled r.0 r.1 (handle_write_event-MayStop app msgs results t)
        (handle_write_event_keeps msgs results t s)
  Step-keeps {t} (worker_added node id) s = k.added node id t s
  Step-keeps {t} (node_told nid e) s = node_event_keeps nid e t s
  Step-keeps {t} (resolved nid path listener) s = resolve_node_keeps nid path listener t s
  Step-keeps {t} {t'} (timeout_set timeout_id id e) s = set_timeout_keeps timeout_id id t t' e s
  Step-keeps {t} {t'} (timed_out tag id e) s = on_timeout_keeps tag id t t' e s
  Step-keeps {t} (failed code) s = k.failed code t s

  pub Steps-keeps : {t t' : Transport A} → Steps app t t' → P t → P t'
  Steps-keeps done s = s
  Steps-keeps (and_then steps step) s = Step-keeps step (Steps-keeps steps s)
