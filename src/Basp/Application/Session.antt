-- ===== src/Basp/Application/Session.antt =====
-- The life of a connection: the calls that the endpoint manager and the workers make, in any order.
use incubator.Prelude.{
  zero, suc, ℕ, ◌≤◌, ◌<◌, ◌≡◌, ◌≢◌, refl, sym, subst, arith, Bool-cases, ◌==◌, none, some, ◌⊎◌, inl,
  inr, [], length,
}
use incubator.Bytes.{Bytes, NetworkOrder}
use incubator.Basp.MessageType
use incubator.Basp.ConnectionState
use incubator.Basp.Header.{Header, version, header_size, from_bytes}
use incubator.Basp.Application.System.{Kinds, App, Core, Outcome, initial}
use incubator.Basp.Application.Handlers.{handle_message, handle_handshake}
use incubator.Basp.Application.Kept.{
  Kept, handle_message-Kept, init-Kept, new_proxy-Kept, local_actor_down-Kept, write_message-Kept,
  resume-Kept, resolve-Kept,
}
use incubator.Basp.Application.Protocol.{
  Message, settle, established, handle, handle_data, init, resolve, new_proxy, local_actor_down,
  write_message, resume,
}

module _ ⦃net : NetworkOrder⦄ {k : Kinds} where
  -- Each call may find the actor system changed: it has a `Core` of its own.
  pub data Step : App k → App k → Type 0 where
    starts : (core : Core k) (a : App k) → Step a (init core a).1
    receives : (core : Core k) (a : App k) (bytes : Bytes) → Step a (handle_data core a bytes).1
    resolves :
        (core : Core k) (a : App k) (path : Bytes) (l : k.Listener) → Step a (resolve core a path l)
    monitors : (core : Core k) (a : App k) (id : ℕ) → Step a (new_proxy core a id)
    reports :
        (core : Core k) (a b : App k) (id : ℕ) (reason : k.Reason)
        → local_actor_down core a id reason ≡ some b
        → Step a b
    writes : (core : Core k) (a : App k) (m : Message k) → Step a (write_message core a m).1
    runs :
        (core : Core k) (a : App k) (id : ℕ) (hdr : Header) (payload : Bytes)
        → Step a (resume core a id hdr payload)

  pub data Reach : App k → Type 0 where
    begin : Reach (initial k)
    next : {a b : App k} → Reach a → Step a b → Reach b

  -- One of four states is reached; there is a peer exactly once the handshake is over; the header
  -- kept while a payload is awaited announces one, and is a handshake of this version at first.
  pub record IsSound (a : App k) : Type 0 where
    pub known : a.state ≤ ConnectionState.await_payload
    pub unknown_peer : a.state ≤ ConnectionState.await_handshake_payload → a.peer_id ≡ none
    pub peer : ConnectionState.await_header ≤ a.state → a.peer_id ≢ none
    pub announced :
        a.state ≡ ConnectionState.await_handshake_payload
        → (a.hdr.type ≡ MessageType.handshake)
          × (a.hdr.operation_data ≡ version)
          × (0 < a.hdr.payload_len)
    pub awaiting : a.state ≡ ConnectionState.await_payload → 0 < a.hdr.payload_len

  handle_handshake-established :
      (core : Core k) (a : App k) (bytes : Bytes)
      → ((established (handle_handshake core a a.hdr bytes)).1 ≡ a)
        ⊎ (((established (handle_handshake core a a.hdr bytes)).1.state
              ≡ ConnectionState.await_header)
            × ((established (handle_handshake core a a.hdr bytes)).1.peer_id ≢ none))
  unfolding handle_handshake
  handle_handshake-established core a bytes = ground arith

  Kept-IsSound : {a b : App k} → Kept a b → IsSound a → IsSound b
  Kept-IsSound {a} {b} e s = record {
    known = rw e.state_eq s.known;
    unknown_peer = rw (e.state_eq, e.peer_eq) s.unknown_peer;
    peer = rw (e.state_eq, e.peer_eq) s.peer;
    announced = rw (e.state_eq, e.hdr_eq) s.announced;
    awaiting = rw (e.state_eq, e.hdr_eq) s.awaiting;
  }

  -- The counter of requests does not matter.
  resolve-IsSound :
      (core : Core k) (a : App k) (path : Bytes) (l : k.Listener)
      → IsSound a
      → IsSound (resolve core a path l)
  resolve-IsSound core a path l s =
      let t = Kept-IsSound (resolve-Kept core a path l) s in
      record {
        known = t.known;
        unknown_peer = t.unknown_peer;
        peer = t.peer;
        announced = t.announced;
        awaiting = t.awaiting;
      }

  -- Awaiting a header, with a peer.
  ready-IsSound :
      {a : App k} → a.state ≡ ConnectionState.await_header → a.peer_id ≢ none → IsSound a
  ready-IsSound {a} e p = record {
    known = omega arith;
    unknown_peer = λ h. absurd (omega arith);
    peer = λ h. p;
    announced = λ h. absurd (omega arith);
    awaiting = λ h. absurd (omega arith);
  }

  handled-IsSound :
      (core : Core k) (a : App k) (hdr : Header) (payload : Bytes)
      → a.state ≡ ConnectionState.await_header
      → a.peer_id ≢ none
      → IsSound (handle_message core a hdr payload).1
  handled-IsSound core a hdr payload e p =
      Kept-IsSound (handle_message-Kept core a hdr payload) (ready-IsSound e p)

  other_header-IsSound :
      (a : App k) (hdr : Header)
      → IsSound (record a { state = ConnectionState.await_handshake_header })
      → IsSound (record a { state = ConnectionState.await_handshake_header; hdr = hdr })
  other_header-IsSound a hdr s = record {
    known = s.known;
    unknown_peer = s.unknown_peer;
    peer = s.peer;
    announced = λ h. absurd (omega arith);
    awaiting = λ h. absurd (omega arith);
  }

  -- One lemma for each state.
  module _ (core : Core k) (a : App k) (n : ℕ) (bytes : Bytes) where
    await_handshake_header-IsSound :
        IsSound (record a { state = ConnectionState.await_handshake_header })
        → IsSound
            (handle core (record a { state = ConnectionState.await_handshake_header }) n bytes).1.1
    unfolding handle
    await_handshake_header-IsSound s = elim (Bool-cases (length bytes == header_size)) [
      | inr short ↦ rw short s
      | inl long ↦ elim (Bool-cases (hdr.type == MessageType.handshake)) [
        | inr other ↦ rw (long, other) (other_header-IsSound a hdr s)
        | inl shake ↦ elim (Bool-cases (hdr.operation_data == version)) [
          | inr old ↦ rw (long, shake, old) (other_header-IsSound a hdr s)
          | inl current ↦ elim (Bool-cases (hdr.payload_len == 0)) [
            | inl bare ↦ rw (long, shake, current, bare) (other_header-IsSound a hdr s)
            | inr full ↦
                rw (long, shake, current, full)
                  (record {
                    known = omega arith;
                    unknown_peer = λ h. s.unknown_peer (omega arith);
                    peer = λ h. absurd (omega arith);
                    announced = λ h. ground (arith, shake, current, full);
                    awaiting = λ h. absurd (omega arith);
                  })
          ]
        ]
      ]
    ]
      where
        hdr : Header
        hdr = from_bytes bytes

    await_handshake_payload-IsSound :
        IsSound (record a { state = ConnectionState.await_handshake_payload })
        → IsSound
            (handle core (record a { state = ConnectionState.await_handshake_payload }) n bytes).1.1
    unfolding handle
    await_handshake_payload-IsSound s =
        elim (handle_handshake-established core
          (record a { state = ConnectionState.await_handshake_payload }) bytes) [
            | inl e ↦ subst IsSound (sym e) s
            | inr e ↦ ready-IsSound e.0 e.1
          ]

    await_header-IsSound :
        IsSound (record a { state = ConnectionState.await_header })
        → IsSound (handle core (record a { state = ConnectionState.await_header }) n bytes).1.1
    unfolding handle
    await_header-IsSound s = elim (Bool-cases (length bytes == header_size)) [
      | inr short ↦ rw short s
      | inl long ↦ elim (Bool-cases ((from_bytes bytes).payload_len == 0)) [
        | inl bare ↦
            rw (long, bare)
              (handled-IsSound core
                (record a { state = ConnectionState.await_header; hdr = from_bytes bytes })
                (from_bytes bytes) [] refl (s.peer (omega arith)))
        | inr full ↦
            rw (long, full)
              (record {
                known = omega arith;
                unknown_peer = λ h. absurd (omega arith);
                peer = λ h. s.peer (omega arith);
                announced = λ h. absurd (omega arith);
                awaiting = λ h. ground (arith, full);
              })
      ]
    ]

    await_payload-IsSound :
        IsSound (record a { state = ConnectionState.await_payload })
        → IsSound (handle core (record a { state = ConnectionState.await_payload }) n bytes).1.1
    unfolding handle
    await_payload-IsSound s = elim (Bool-cases (length bytes == a.hdr.payload_len)) [
      | inr short ↦ rw short s
      | inl long ↦ rw long (
          handled-IsSound core (record a { state = ConnectionState.await_header }) a.hdr bytes refl
            (s.peer (omega arith)))
    ]

    by_state :
        (state : ℕ)
        → IsSound (record a { state = state })
        → IsSound (handle core (record a { state = state }) n bytes).1.1
    by_state zero s = await_handshake_header-IsSound s
    by_state (suc zero) s = await_handshake_payload-IsSound s
    by_state (suc (suc zero)) s = await_header-IsSound s
    by_state (suc (suc (suc zero))) s = await_payload-IsSound s
    by_state (suc (suc (suc (suc state)))) s = absurd (omega (arith, s.known))

  settle_app : (n : ℕ) (r : Outcome k) → (settle (n, r)).1 ≡ r.1
  settle_app n (some e, a) = refl
  settle_app n (none, a) = refl

  handle_data-IsSound :
      (core : Core k) (a : App k) (bytes : Bytes) → IsSound a → IsSound (handle_data core a bytes).1
  unfolding handle_data
  handle_data-IsSound core a bytes s =
      subst IsSound
        (sym (settle_app (handle core a header_size bytes).0 (handle core a header_size bytes).1))
        (by_state core a header_size bytes a.state s)

  Step-IsSound : {a b : App k} → Step a b → IsSound a → IsSound b
  Step-IsSound (starts core a) s = Kept-IsSound (init-Kept core a) s
  Step-IsSound (receives core a bytes) s = handle_data-IsSound core a bytes s
  Step-IsSound (resolves core a path l) s = resolve-IsSound core a path l s
  Step-IsSound (monitors core a id) s = Kept-IsSound (new_proxy-Kept core a id) s
  Step-IsSound (reports core a b id reason e) s =
      Kept-IsSound (local_actor_down-Kept core a b id reason e) s
  Step-IsSound (writes core a m) s = Kept-IsSound (write_message-Kept core a m) s
  Step-IsSound (runs core a id hdr payload) s = Kept-IsSound (resume-Kept core a id hdr payload) s

  -- In every state that calls in any order lead to: the state is one of the first four; there is no
  -- peer before the handshake is over, and one from then on; while the payload of a handshake is
  -- awaited, the header kept is a handshake of this version with a payload; and while another payload
  -- is awaited, the header kept announces one.
  pub Reach-IsSound : {a : App k} → Reach a → IsSound a
  Reach-IsSound begin = record {
    known = omega arith;
    unknown_peer = λ h. refl;
    peer = λ h. absurd (omega arith);
    announced = λ h. absurd (omega arith);
    awaiting = λ h. absurd (omega arith);
  }
  Reach-IsSound (next r t) = Step-IsSound t (Reach-IsSound r)
