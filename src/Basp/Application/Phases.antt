-- ===== src/Basp/Application/Phases.antt =====
-- What a connection does in each phase, and what it asks the transport for.
use incubator.Prelude.{
  ℕ, ◌≤◌, ◌≡◌, refl, sym, subst, arith, ◌==◌, ◌||◌, if◌then◌else◌, none, some, inr, [],
}
use incubator.Bytes.{Bytes, NetworkOrder}
use incubator.Net.ReceivePolicy.{ReceivePolicy, exactly}
use incubator.Basp.ConnectionState
use incubator.Basp.Header.{Header, header_size, from_bytes}
use incubator.Basp.Application.System.{Kinds, App, Core, Outcome}
use incubator.Basp.Application.Handlers.{handle_handshake}
use incubator.Basp.Application.Kept.{handle_message-Kept}
use incubator.Basp.Application.Protocol.{settle, established, handle, handle_data}

module _ ⦃net : NetworkOrder⦄ {k : Kinds} where
  abbrev Quiet : App k → App k → Type 0
  Quiet a b =
      (b.effects ≡ a.effects) × (b.queue ≡ a.queue) × (b.pending_resolves ≡ a.pending_resolves)

  established-Quiet :
      (core : Core k) (a : App k) (hdr : Header) (bytes : Bytes)
      → Quiet a (established (handle_handshake core a hdr bytes)).1
  unfolding handle_handshake
  established-Quiet core a hdr bytes = ground arith

  handle-Quiet :
      (core : Core k) (a : App k) (n : ℕ) (bytes : Bytes)
      → a.state ≤ ConnectionState.await_handshake_payload
      → Quiet a (handle core a n bytes).1.1
  unfolding handle
  handle-Quiet core a n bytes h = ground (arith, established-Quiet core a a.hdr bytes)

  -- The size of the read that the state calls for.
  abbrev pub expected_size : App k → ℕ
  expected_size a =
      if a.state == ConnectionState.await_handshake_payload
        || a.state == ConnectionState.await_payload
      then a.hdr.payload_len
      else header_size

  established_state :
      (core : Core k) (a : App k) (hdr : Header) (bytes : Bytes)
      → (established (handle_handshake core a hdr bytes)).0 ≡ none
      → (established (handle_handshake core a hdr bytes)).1.state ≡ ConnectionState.await_header
  unfolding handle_handshake
  established_state core a hdr bytes e = ground arith

  handle-expected_size :
      (core : Core k) (a : App k) (bytes : Bytes)
      → (handle core a header_size bytes).1.0 ≡ none
      → (handle core a header_size bytes).0 ≡ expected_size (handle core a header_size bytes).1.1
  unfolding handle
  handle-expected_size core a bytes e = ground (
    arith,
    established_state core a a.hdr bytes,
    handle_message-Kept core (record a { hdr = from_bytes bytes }) (from_bytes bytes) [],
    handle_message-Kept core (record a { state = ConnectionState.await_header }) a.hdr bytes,
  )

  settle_app : (n : ℕ) (r : Outcome k) → (settle (n, r)).1 ≡ r.1
  settle_app n (some e, a) = refl
  settle_app n (none, a) = refl

  -- Before the handshake is over, no input makes the application send, register, monitor or deliver
  -- anything: its effects, its message queue and its pending resolves stay.
  pub quiet_before_handshake :
      (core : Core k) (a : App k) (bytes : Bytes)
      → a.state ≤ ConnectionState.await_handshake_payload
      → ((handle_data core a bytes).1.effects ≡ a.effects)
        × ((handle_data core a bytes).1.queue ≡ a.queue)
        × ((handle_data core a bytes).1.pending_resolves ≡ a.pending_resolves)
  unfolding handle_data
  quiet_before_handshake core a bytes h =
      subst (Quiet a)
        (sym (settle_app (handle core a header_size bytes).0 (handle core a header_size bytes).1))
        (handle-Quiet core a header_size bytes h)

  settled_size :
      (n : ℕ) (r : Outcome k) (p : ReceivePolicy)
      → (r.0 ≡ none → n ≡ expected_size r.1)
      → (settle (n, r)).0 ≡ inr p
      → p ≡ exactly (expected_size (settle (n, r)).1)
  settled_size n (some err, a) p h e = absurd (ground arith)
  settled_size n (none, a) p h e = ground (arith, h refl)

  -- Whenever handle_data succeeds, the read that it asks for is the one that the new state calls for:
  -- exactly the payload length of the kept header where a payload is awaited, and exactly a header
  -- otherwise.
  pub read_size_follows_state :
      (core : Core k) (a : App k) (bytes : Bytes) (p : ReceivePolicy)
      → (handle_data core a bytes).0 ≡ inr p
      → p ≡ exactly (expected_size (handle_data core a bytes).1)
  unfolding handle_data
  read_size_follows_state core a bytes p e =
      settled_size (handle core a header_size bytes).0 (handle core a header_size bytes).1 p
        (handle-expected_size core a bytes) e
