-- ===== src/Basp/Application/Packets.antt =====
-- A packet is a header and a payload, which the transport hands over one after the other: what the
-- two calls of `handle_data` do together.
use native.Mathlib.Nat.{mod-eq_of_lt}
use Prim.Native.String.{String}
use incubator.Prelude.{
  append-nil, subst, Bool-cases, ◌||◌, ℕ, ◌^◌, ◌<◌, ◌≡◌, refl, sym, ap, ◌∙◌, arith, true, false,
  ◌==◌, if◌then◌else◌, none, some, ◌⊎◌, inl, inr, List, [], ◌∷◌, length,
}
use incubator.Bytes.{Bytes, NetworkOrder}
use incubator.Net.Error.{Error}
use incubator.Net.ReceivePolicy.{ReceivePolicy, exactly}
use incubator.Basp.MessageType
use incubator.Basp.ConnectionState
use incubator.Basp.Header.{Header, IsHeader, version, header_size, from_bytes, to_bytes}
use incubator.Basp.Header.Layout.{from_bytes-to_bytes, to_buffer-to_bytes, to_bytes_shape}
use incubator.Basp.Application.System.{Kinds, App, Core, Outcome, write_packet, emit}
use incubator.Basp.Ec
use incubator.Basp.Application.Handlers.{
  ec_error, handle_actor_message, handle_resolve_request, handle_resolve_response,
  handle_monitor_message, handle_down_message, handle_message, handle_handshake, any_shared,
}
use incubator.Basp.Application.Kept.{Kept, handle_message-Kept}
use incubator.Basp.Application.Protocol.{settle, established, handle, handle_data, init}

abbrev pub handshake_header : Bytes → Header
handshake_header payload = record {
  type = MessageType.handshake;
  payload_len = length payload;
  operation_data = version;
}

module _ ⦃net : NetworkOrder⦄ where
  from_to : (hdr : Header) → IsHeader hdr → from_bytes (to_bytes hdr) ≡ hdr
  from_to hdr h = ap from_bytes (sym (append-nil (to_bytes hdr))) ∙ from_bytes-to_bytes hdr [] h

  ==_refl : {m n : ℕ} → m ≡ n → (m == n) ≡ true
  ==_refl e = ground (arith, e)

  length_header : (hdr : Header) → IsHeader hdr → (length (to_bytes hdr) == header_size) ≡ true
  length_header hdr h = ground (arith, to_bytes_shape hdr h)

abbrev pub Handler : Kinds → Type 0
Handler k = App k → Header → Bytes → Outcome k

module _ ⦃net : NetworkOrder⦄ {k : Kinds} where
  -- What a transport that reads as many bytes as it is asked for makes of a packet: it hands over
  -- the header, and the payload if the application asks for it.
  abbrev pub then_payload :
      Core k → Bytes → (Error ⊎ ReceivePolicy) × App k → (Error ⊎ ReceivePolicy) × App k
  then_payload core payload (inl e, app) = (inl e, app)
  then_payload core payload (inr policy, app) =
      if app.state == ConnectionState.await_payload
        || app.state == ConnectionState.await_handshake_payload
      then handle_data core app payload
      else (inr policy, app)

  abbrev pub hand_over : Core k → App k → Header → Bytes → (Error ⊎ ReceivePolicy) × App k
  hand_over core app hdr payload = then_payload core payload (handle_data core app (to_bytes hdr))

  -- The result of a whole packet: the next read is for a header.
  abbrev pub finish : Outcome k → (Error ⊎ ReceivePolicy) × App k
  finish r = settle (header_size, r)

  in_state : (app : App k) (s : ℕ) → app.state ≡ s → record app { state = s } ≡ app
  in_state app s e = λ i. record app { state = sym e i }

  first_call :
      (core : Core k) (app : App k) (hdr : Header)
      → IsHeader hdr
      → handle_data core (record app { state = ConnectionState.await_header }) (to_bytes hdr) ≡ (
          if hdr.payload_len == 0
          then finish (
              handle_message core
                (record app { state = ConnectionState.await_header; hdr = hdr })
                hdr
                [])
          else (
            inr (exactly hdr.payload_len),
            record app { state = ConnectionState.await_payload; hdr = hdr },
          ))
  unfolding handle_data handle
  first_call core app hdr h =
      rw (from_to hdr h, length_header hdr h)
        (elim (Bool-cases (hdr.payload_len == 0)) [ inl e ↦ rw e refl | inr e ↦ rw e refl ])

  second_call :
      (core : Core k) (app : App k) (hdr : Header) (payload : Bytes)
      → length payload ≡ hdr.payload_len
      → handle_data core (record app { state = ConnectionState.await_payload; hdr = hdr }) payload
        ≡ finish (
            handle_message core
              (record app { state = ConnectionState.await_header; hdr = hdr })
              hdr
              payload)
  unfolding handle_data handle
  second_call core app hdr payload size = rw (==_refl size)

  no_payload :
      (core : Core k) (payload : Bytes) (r : Outcome k)
      → r.1.state ≡ ConnectionState.await_header
      → then_payload core payload (finish r) ≡ finish r
  no_payload core payload (none, app) e = rw e refl
  no_payload core payload (some err, app) e = refl

  packet_handled_at :
      (core : Core k) (app : App k) (hdr : Header) (payload : Bytes)
      → IsHeader hdr
      → length payload ≡ hdr.payload_len
      → hand_over core (record app { state = ConnectionState.await_header }) hdr payload
        ≡ finish (
            handle_message core
              (record app { state = ConnectionState.await_header; hdr = hdr })
              hdr
              payload)
  packet_handled_at core app hdr payload h size =
      ap (then_payload core payload) (first_call core app hdr h)
      ∙ elim (Bool-cases (hdr.payload_len == 0)) [
        | inl e ↦ rw e (
            no_payload core payload (handle_message core ready hdr [])
              (Kept.state_eq (handle_message-Kept core ready hdr []))
            ∙ ap (λ p. finish (handle_message core ready hdr p)) (sym (empty e)))
        | inr e ↦ rw e (second_call core app hdr payload size)
      ]
    where
      ready : App k
      ready = record app { state = ConnectionState.await_header; hdr = hdr }

      empty : (hdr.payload_len == 0) ≡ true → payload ≡ []
      empty e = ground (arith, size)

  abbrev refused_with : Ec.Ec → Handler k
  refused_with code app hdr payload = (some (ec_error code), app)

  abbrev ignored : Handler k
  ignored app hdr payload = (none, app)

  -- The handlers of messages, by the type.
  abbrev pub handlers : Core k → List (ℕ × Handler k)
  handlers core =
      (MessageType.handshake, refused_with Ec.unexpected_handshake)
      ∷ (MessageType.actor_message, handle_actor_message core)
      ∷ (MessageType.resolve_request, handle_resolve_request core)
      ∷ (MessageType.resolve_response, handle_resolve_response core)
      ∷ (MessageType.monitor_message, handle_monitor_message core)
      ∷ (MessageType.down_message, handle_down_message core)
      ∷ (MessageType.heartbeat, ignored)
      ∷ []

  -- The first handler that is listed under the type; any other type is not implemented.
  abbrev pub handled_by : List (ℕ × Handler k) → ℕ → Handler k
  handled_by [] type app hdr payload = (some (ec_error Ec.unimplemented), app)
  handled_by ((t, handler) ∷ more) type app hdr payload =
      if type == t then handler app hdr payload else handled_by more type app hdr payload

  handle_message-handled_by :
      (core : Core k) (app : App k) (hdr : Header) (payload : Bytes)
      → handle_message core app hdr payload ≡ handled_by (handlers core) hdr.type app hdr payload
  unfolding handle_message
  handle_message-handled_by core app hdr payload = refl

  -- Where the application awaits a header, a packet whose payload has the announced length is
  -- handled by the handler that is listed for its type, called once, with the header and the payload,
  -- in the state that awaits the next header: a handshake is refused, a heartbeat is ignored, and a
  -- type that is not listed is not implemented; the next read is for a header, or the error of the handler is
  -- returned.
  pub packet_handled :
      (core : Core k) (app : App k) (hdr : Header) (payload : Bytes)
      → app.state ≡ ConnectionState.await_header
      → IsHeader hdr
      → length payload ≡ hdr.payload_len
      → hand_over core app hdr payload
        ≡ finish (handled_by (handlers core) hdr.type (record app { hdr = hdr }) hdr payload)
  packet_handled core app hdr payload e h size =
      subst
        (λ a.
          hand_over core a hdr payload
          ≡ finish (handle_message core (record a { hdr = hdr }) hdr payload))
        (in_state app ConnectionState.await_header e)
        (packet_handled_at core app hdr payload h size)
      ∙ ap finish (handle_message-handled_by core (record app { hdr = hdr }) hdr payload)

  header_call :
      (core : Core k) (app : App k) (payload : Bytes)
      → 0 < length payload
      → length payload < 2 ^ 32
      → handle_data core
          (record app { state = ConnectionState.await_handshake_header })
          (to_bytes (handshake_header payload))
        ≡ (
          inr (exactly (length payload)),
          record app {
            state = ConnectionState.await_handshake_payload;
            hdr = handshake_header payload;
          },
        )
  unfolding handle_data handle
  header_call core app payload pos small = rw (
    from_to (handshake_header payload) fits,
    length_header (handshake_header payload) fits,
    nonzero,
  )
    where
      fits : IsHeader (handshake_header payload)
      fits = record {
        type_fits = omega arith;
        payload_len_fits = small;
        operation_data_fits = omega arith;
      }

      nonzero : (length payload == 0) ≡ false
      nonzero = ground arith

  peer_accepted :
      (core : Core k) (app : App k) (payload : Bytes) (peer : k.Node) (ids : List String)
      → core.read_handshake payload ≡ inr (some peer, ids)
      → any_shared ids core.app_ids ≡ true
      → handle_handshake core app (handshake_header payload) payload
        ≡ (none, record app { peer_id = some peer; state = ConnectionState.await_header })
  unfolding handle_handshake
  peer_accepted core app payload peer [] r shared = absurd (ground arith)
  peer_accepted core app payload peer (x ∷ ids) r shared = ground (arith, r, shared)

  payload_call :
      (core : Core k) (app : App k) (payload : Bytes) (peer : k.Node) (ids : List String)
      → core.read_handshake payload ≡ inr (some peer, ids)
      → any_shared ids core.app_ids ≡ true
      → handle_data core
          (record app {
            state = ConnectionState.await_handshake_payload;
            hdr = handshake_header payload;
          })
          payload
        ≡ (
          inr (exactly header_size),
          record app {
            state = ConnectionState.await_header;
            hdr = handshake_header payload;
            peer_id = some peer;
          },
        )
  unfolding handle_data handle
  payload_call core app payload peer ids r shared =
      ap (λ r. settle (header_size, established r))
        (peer_accepted core
          (record app {
            state = ConnectionState.await_handshake_payload;
            hdr = handshake_header payload;
          })
          payload peer ids r shared)

  -- The handshake that `init` of one application writes establishes another one that is fresh, where
  -- the other reads a node and a shared application identifier in the payload, and the payload has
  -- 1 to 2^32 - 1 bytes: it keeps the node as its peer, and awaits a header of exactly header_size
  -- bytes.
  pub handshake_accepted :
      (ours theirs : Core k) (us them : App k) (payload : Bytes) (peer : k.Node) (ids : List String)
      → ours.write_handshake ≡ inr payload
      → 0 < length payload
      → length payload < 2 ^ 32
      → theirs.read_handshake payload ≡ inr (some peer, ids)
      → any_shared ids theirs.app_ids ≡ true
      → them.state ≡ ConnectionState.await_handshake_header
      → (init ours us ≡ (
        inr (exactly header_size),
        emit us (write_packet (to_bytes (handshake_header payload)) payload),
      ))
        × (hand_over theirs them (handshake_header payload) payload ≡ (
          inr (exactly header_size),
          record them {
            state = ConnectionState.await_header;
            hdr = handshake_header payload;
            peer_id = some peer;
          },
        ))
  unfolding init
  handshake_accepted ours theirs us them payload peer ids w pos small r shared e = (
    rw (w, mod-eq_of_lt small, to_buffer-to_bytes (handshake_header payload) []),
    ap (λ a. hand_over theirs a (handshake_header payload) payload)
          (sym (in_state them ConnectionState.await_handshake_header e))
        ∙ ap (then_payload theirs payload) (header_call theirs them payload pos small)
        ∙ payload_call theirs them payload peer ids r shared,
  )
