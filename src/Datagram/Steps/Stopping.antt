-- ===== src/Datagram/Steps/Stopping.antt =====
-- When a write event asks not to be called again.
use incubator.Prelude.{
  ◌<◌, ◌≡◌, refl, ap, ◌⊎◌, arith, Bool, true, Option, none, some, inl, inr, List, [], ◌∷◌,
}
use incubator.Net.Error.{Code}
use incubator.Datagram.{Packet, has_packets, recycle}
use incubator.Datagram.Workers.{Application, Transport, Message, write_message}
use incubator.Datagram.Events.{
  WriteResult, bytes_written, cannot_write_yet, write_error, write_some, is_would_block, after_some,
  more_to_write, handle_write_event,
}
use incubator.Datagram.Steps.{MayStop}

module _ {A : Type 0} (app : Application A) where
  -- What write_some says to the loop around it.
  abbrev Answers : Option Code × List WriteResult × Transport A → Type 0
  Answers (none, results, t) = Unit {0}
  Answers (some code, results, t) = (is_would_block app code ≡ true) ⊎ (0 < t.base.failures)

  write_some-Answers :
      (results : List WriteResult) (t : Transport A) → Answers (write_some app results t)
  unfolding write_some
  write_some-Answers [] t = by_queue t.base.packet_queue refl
    where
      by_queue : (q : List Packet) → t.base.packet_queue ≡ q → Answers (write_some app [] t)
      by_queue [] e = rw (e, write_some) tt
      by_queue (p ∷ ps) e = rw (e, write_some) (inl refl)
  write_some-Answers (r ∷ results) t =
      by_queue t.base.packet_queue refl r
        (λ p ps. write_some-Answers results (record t { base = recycle p ps t.base }))
    where
      by_queue :
          (q : List Packet)
          → t.base.packet_queue ≡ q
          → (x : WriteResult)
          → ((p : Packet) (ps : List Packet)
              → Answers (write_some app results (record t { base = recycle p ps t.base })))
          → Answers (write_some app (x ∷ results) t)
      by_queue [] e x later = rw (e, write_some) tt
      by_queue (p ∷ ps) e (bytes_written n) later = rw (e, write_some) (later p ps)
      by_queue (p ∷ ps) e cannot_write_yet later = rw (e, write_some) (inl refl)
      by_queue (p ∷ ps) e (write_error code) later = rw (e, write_some) (inr (omega arith))

  more_to_write-MayStop : (t : Transport A) → MayStop (more_to_write app t).0 t.base
  more_to_write-MayStop t = by_queue t.base.packet_queue refl
    where
      by_queue :
          (q : List Packet)
          → t.base.packet_queue ≡ q
          → MayStop (has_packets t.base.packet_queue) t.base
      by_queue [] e = inr (inl e)
      by_queue (p ∷ ps) e = inl (ap has_packets e)

  after_some-MayStop :
      (next : List WriteResult → Transport A → Bool × Transport A)
      → ((results : List WriteResult) (t : Transport A)
          → MayStop (next results t).0 (next results t).1.base)
      → (code : Option Code) (results : List WriteResult) (t : Transport A)
      → Answers (code, results, t)
      → (let r = after_some app next (code, results, t) in MayStop r.0 r.1.base)
  after_some-MayStop next h none results t a = h results t
  after_some-MayStop next h (some code) results t (inl again) = inl again
  after_some-MayStop next h (some code) results t (inr bad) = inr (inr bad)

  pub handle_write_event-MayStop :
      (msgs : List Message) (results : List WriteResult) (t : Transport A)
      → (let r = handle_write_event app msgs results t in MayStop r.0 r.1.base)
  unfolding handle_write_event
  handle_write_event-MayStop [] results t =
      let r = write_some app results t in
      after_some-MayStop (λ rs. more_to_write app) (λ rs t'. more_to_write-MayStop t') r.0 r.1 r.2
        (write_some-Answers results t)
  handle_write_event-MayStop (msg ∷ msgs) results t =
      let r = write_some app results t in
      after_some-MayStop (λ rs t'. handle_write_event app msgs rs (write_message app msg t'))
        (λ rs t'. handle_write_event-MayStop msgs rs (write_message app msg t')) r.0 r.1 r.2
        (write_some-Answers results t)
