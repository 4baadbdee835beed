-- ===== src/Datagram/Soundness.antt =====
-- What every sequence of events of a datagram transport keeps.
pub mod Start
use incubator.Prelude.{
  subst, Bool, ℕ, zero, suc, ◌+◌, ◌≤◌, ◌<◌, ◌≡◌, refl, sym, ap, ◌∙◌, ◌⊎◌, arith, Bool, true, false,
  Bool-cases, inl, inr, ltb, ltb→lt, if◌then◌else◌, Option, none, some, List, [], ◌∷◌, ◌++◌,
  append_assoc, All, length, get_elem?,
}
use incubator.Bytes.{Bytes}
use incubator.Net.Error.{Error, Code}
use incubator.Datagram.{
  Packet, Datagram, has_packets, pop_back, next_header_buffer, next_payload_buffer, write_packet,
  recycle_payload, recycle_buffers, recycle,
}
use incubator.Datagram.Workers.{Call, header_buffer, payload_buffer, packet, perform}

-- The buffers of a cache are empty, and they are no more than there is room for.
abbrev pub AreKept : ℕ → List Bytes → Type 0
AreKept capacity bufs = (length bufs ≤ capacity) × All (λ b. b ≡ []) bufs

-- Every packet that was written was sent, in the order of the writes, or waits behind these; where some
-- wait, the multiplexer is asked to report when the socket can be written, unless a write failed; and
-- the caches are in order, for as many headers and payloads.
pub record IsSound (headers payloads : ℕ) (d : Datagram) : Type 0 where
  pub flow : d.sent ++ d.packet_queue ≡ d.written
  pub asked : (d.packet_queue ≡ []) ⊎ (d.writing ≡ true) ⊎ (0 < d.failures)
  pub header_room : d.header_capacity ≡ headers
  pub payload_room : d.payload_capacity ≡ payloads
  pub header_bufs : AreKept headers d.header_bufs
  pub payload_bufs : AreKept payloads d.payload_bufs

pop_back-AreKept : (n : ℕ) (bufs : List Bytes) → AreKept n bufs → AreKept n (pop_back bufs)
pop_back-AreKept n [] h = h
pop_back-AreKept n (b ∷ bufs) h = (omega (arith, h.0), h.1.1)

recycle_payload-AreKept :
    (bufs : List Bytes) (n : ℕ) (cache : List Bytes)
    → AreKept n cache
    → AreKept n (recycle_payload bufs n cache)
recycle_payload-AreKept [] n cache h = h
recycle_payload-AreKept (b ∷ bufs) n cache h = elim (Bool-cases (ltb (length cache) n)) [
  | inl room ↦
      rw room
        (recycle_payload-AreKept bufs n ([] ∷ cache) (ltb→lt (length cache) n room, (refl, h.1)))
  | inr full ↦ rw full h
]

-- The first packet that waits makes the manager register for writing.
register_first :
    (q : List Packet) (on : Bool) (failures : ℕ)
    → (q ≡ []) ⊎ (on ≡ true) ⊎ (0 < failures)
    → ((if has_packets q then on else true) ≡ true) ⊎ (0 < failures)
register_first [] on failures h = inl refl
register_first (p ∷ ps) on failures (inl e) = cc
register_first (p ∷ ps) on failures (inr h) = h

-- What keeping the buffers of a packet leaves alone.
record SameRest (d d' : Datagram) : Type 0 where
  sent : d'.sent ≡ d.sent
  written : d'.written ≡ d.written
  writing : d'.writing ≡ d.writing
  failures : d'.failures ≡ d.failures

recycle_buffers-SameRest : (bufs : List Bytes) (d : Datagram) → SameRest d (recycle_buffers bufs d)
recycle_buffers-SameRest [] d = record {
  sent = refl;
  written = refl;
  writing = refl;
  failures = refl;
}
recycle_buffers-SameRest (b ∷ bufs) d =
    elim (Bool-cases (ltb (length d.header_bufs) d.header_capacity)) [
      | inl room ↦ rw room (record { sent = refl; written = refl; writing = refl; failures = refl })
      | inr full ↦ rw full (record { sent = refl; written = refl; writing = refl; failures = refl })
    ]

module _ (headers payloads : ℕ) where
  -- The caches.
  record HasCaches (d : Datagram) : Type 0 where
    header_room : d.header_capacity ≡ headers
    payload_room : d.payload_capacity ≡ payloads
    header_bufs : AreKept headers d.header_bufs
    payload_bufs : AreKept payloads d.payload_bufs

  recycle_buffers-HasCaches :
      (bufs : List Bytes) (d : Datagram) → HasCaches d → HasCaches (recycle_buffers bufs d)
  recycle_buffers-HasCaches [] d s = s
  recycle_buffers-HasCaches (b ∷ bufs) d s =
      elim (Bool-cases (ltb (length d.header_bufs) d.header_capacity)) [
        | inl room ↦ rw room (record {
          header_room = s.header_room;
          payload_room = s.payload_room;
          header_bufs = (
            omega (arith, s.header_room, ltb→lt (length d.header_bufs) d.header_capacity room),
            (refl, s.header_bufs.1),
          );
          payload_bufs = kept bufs;
        })
        | inr full ↦ rw full (record {
          header_room = s.header_room;
          payload_room = s.payload_room;
          header_bufs = s.header_bufs;
          payload_bufs = kept (b ∷ bufs);
        })
      ]
    where
      kept :
          (more : List Bytes)
          → AreKept payloads (recycle_payload more d.payload_capacity d.payload_bufs)
      kept more =
          subst (λ n. AreKept payloads (recycle_payload more n d.payload_bufs)) (sym s.payload_room)
            (recycle_payload-AreKept more payloads d.payload_bufs s.payload_bufs)

  write_packet-IsSound :
      (id : ℕ) (buffers : List Bytes) (d : Datagram)
      → IsSound headers payloads d
      → IsSound headers payloads (write_packet id buffers d)
  unfolding write_packet
  write_packet-IsSound id buffers d s =
      let p : Packet = record { id = id; bytes = buffers } in
      record {
        flow =
            sym (append_assoc d.sent d.packet_queue (p ∷ []))
            ∙ ap (λ (ps : List Packet). ps ++ (p ∷ [])) s.flow;
        asked = inr (register_first d.packet_queue d.writing d.failures s.asked);
        header_room = s.header_room;
        payload_room = s.payload_room;
        header_bufs = s.header_bufs;
        payload_bufs = s.payload_bufs;
      }

  pub perform-IsSound :
      (id : ℕ) (calls : List Call) (d : Datagram)
      → IsSound headers payloads d
      → IsSound headers payloads (perform id calls d)
  perform-IsSound id [] d s = s
  perform-IsSound id (header_buffer ∷ calls) d s =
      perform-IsSound id calls (next_header_buffer d) (record {
        flow = s.flow;
        asked = s.asked;
        header_room = s.header_room;
        payload_room = s.payload_room;
        header_bufs = pop_back-AreKept headers d.header_bufs s.header_bufs;
        payload_bufs = s.payload_bufs;
      })
  perform-IsSound id (payload_buffer ∷ calls) d s =
      perform-IsSound id calls (next_payload_buffer d) (record {
        flow = s.flow;
        asked = s.asked;
        header_room = s.header_room;
        payload_room = s.payload_room;
        header_bufs = s.header_bufs;
        payload_bufs = pop_back-AreKept payloads d.payload_bufs s.payload_bufs;
      })
  perform-IsSound id (packet buffers ∷ calls) d s =
      perform-IsSound id calls (write_packet id buffers d) (write_packet-IsSound id buffers d s)

  still_asked :
      (p : Packet) (ps q : List Packet) (on : Bool) (failures : ℕ)
      → q ≡ p ∷ ps
      → (q ≡ []) ⊎ (on ≡ true) ⊎ (0 < failures)
      → (on ≡ true) ⊎ (0 < failures)
  still_asked p ps q on failures e (inl none_wait) = cc
  still_asked p ps q on failures e (inr h) = h

  pub recycle-IsSound :
      (p : Packet) (ps : List Packet) (d : Datagram)
      → d.packet_queue ≡ p ∷ ps
      → IsSound headers payloads d
      → IsSound headers payloads (recycle p ps d)
  unfolding recycle
  recycle-IsSound p ps d e s =
      let d' = recycle_buffers p.bytes d in
      let r = recycle_buffers-SameRest p.bytes d in
      let c = recycle_buffers-HasCaches p.bytes d (record {
        header_room = s.header_room;
        payload_room = s.payload_room;
        header_bufs = s.header_bufs;
        payload_bufs = s.payload_bufs;
      }) in
      record {
        flow =
            append_assoc d'.sent (p ∷ []) ps
            ∙ ap (λ (xs : List Packet). xs ++ (p ∷ ps)) r.sent
            ∙ ap (◌++◌ d.sent) (sym e)
            ∙ s.flow
            ∙ sym r.written;
        asked = inr (
            rw (r.writing, r.failures)
              (still_asked p ps d.packet_queue d.writing d.failures e s.asked));
        header_room = c.header_room;
        payload_room = c.payload_room;
        header_bufs = c.header_bufs;
        payload_bufs = c.payload_bufs;
      }
