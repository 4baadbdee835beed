-- ===== src/Basp/Application/Protocol.antt =====
-- The state machine of src/net/basp/application.cpp, with `init` and `handle_data` of
-- caf/net/basp/application.hpp, and the operations that the endpoint manager and the workers call.
use incubator.Prelude.{
  ℕ, not, ◌==◌, if◌then◌else◌, Option, none, some, ◌⊎◌, inl, inr, [], ◌++◌, length,
}
use incubator.Bytes.{Bytes, NetworkOrder}
use incubator.Net.Error.{Error}
use incubator.Net.ReceivePolicy.{ReceivePolicy, exactly}
use incubator.Basp.MessageQueue.{succ64}
use incubator.Basp.MessageType
use incubator.Basp.Ec
use incubator.Basp.ConnectionState
use incubator.Basp.Header.{Header, version, header_size, from_bytes}
use incubator.Basp.Application.System.{Kinds, put, App, Core, emit, Outcome, packet, emplace}
use incubator.Basp.Application.Handlers.{
  ec_error, handle_handshake, handle_message, handle_remote_message,
}

-- A message of the endpoint manager's queue.
pub record Message (k : Kinds) : Type 0 where
  pub sender : Option k.Actor
  pub receiver : Option k.Actor
  pub mid : ℕ
  pub content : k.Content

-- `if (auto err = ...) return err;` and the read of what is to come.
abbrev pub settle : {k : Kinds} → ℕ × Outcome k → (Error ⊎ ReceivePolicy) × App k
settle (next_read_size, (some e, app)) = (inl e, app)
settle (next_read_size, (none, app)) = (inr (exactly next_read_size), app)

abbrev pub established : {k : Kinds} → Outcome k → Outcome k
established (some e, app) = (some e, app)
established (none, app) = (none, record app { state = ConnectionState.await_header })

module _ ⦃net : NetworkOrder⦄ {k : Kinds} (core : Core k) where
  -- Beside the outcome, what `next_read_size` is set to.
  unfoldable pub handle : App k → ℕ → Bytes → ℕ × Outcome k
  handle app next_read_size bytes =
      let hdr = from_bytes bytes in
      let app' = record app { hdr = hdr } in
      if app.state == ConnectionState.await_handshake_header
      then (if not (length bytes == header_size)
          then (next_read_size, (some (ec_error Ec.unexpected_number_of_bytes), app))
          else if not (hdr.type == MessageType.handshake)
          then (next_read_size, (some (ec_error Ec.missing_handshake), app'))
          else if not (hdr.operation_data == version)
          then (next_read_size, (some (ec_error Ec.version_mismatch), app'))
          else if hdr.payload_len == 0
          then (next_read_size, (some (ec_error Ec.missing_payload), app'))
          else (
            hdr.payload_len,
            (none, record app' { state = ConnectionState.await_handshake_payload }),
          ))
      else if app.state == ConnectionState.await_handshake_payload
      then (next_read_size, established (handle_handshake core app app.hdr bytes))
      else if app.state == ConnectionState.await_header
      then (if not (length bytes == header_size)
          then (next_read_size, (some (ec_error Ec.unexpected_number_of_bytes), app))
          else if hdr.payload_len == 0
          then (next_read_size, handle_message core app' hdr [])
          else (hdr.payload_len, (none, record app' { state = ConnectionState.await_payload })))
      else if app.state == ConnectionState.await_payload
      then (if not (length bytes == app.hdr.payload_len)
          then (next_read_size, (some (ec_error Ec.unexpected_number_of_bytes), app))
          else (
            next_read_size,
            handle_message core (record app { state = ConnectionState.await_header }) app.hdr bytes,
          ))
      else (next_read_size, (some (ec_error Ec.illegal_state), app))

  -- On success, the policy that the transport is given.
  unfoldable pub handle_data : App k → Bytes → (Error ⊎ ReceivePolicy) × App k
  unfolding handle
  handle_data app bytes = settle (handle app header_size bytes)

  -- The workers that the hub is given at first belong to the actor system.
  unfoldable pub init : App k → (Error ⊎ ReceivePolicy) × App k
  init app = elim core.write_handshake [
    | inl e ↦ (inl e, app)
    | inr payload ↦
        (inr (exactly header_size), emit app (packet MessageType.handshake payload version))
  ]

  unfoldable pub resolve : App k → Bytes → k.Listener → App k
  resolve app path listener = elim (core.write_path path) [
    | inl e ↦ app
    | inr payload ↦
        emit
          (record app {
            next_request_id = succ64 app.next_request_id;
            pending_resolves = emplace app.next_request_id listener app.pending_resolves;
          })
          (packet MessageType.resolve_request payload app.next_request_id)
  ]

  unfoldable pub new_proxy : App k → ℕ → App k
  new_proxy app id = emit app (packet MessageType.monitor_message [] id)

  -- `none` stands for the exception.
  unfoldable pub local_actor_down : App k → ℕ → k.Reason → Option (App k)
  local_actor_down app id reason = elim (core.write_reason reason) [
    | inl e ↦ none
    | inr payload ↦ some (emit app (packet MessageType.down_message payload id))
  ]

  abbrev register_sender : App k → Option k.Actor → App k
  register_sender app none = app
  register_sender app (some src) = emit app (put (core.id_of src) src)

  abbrev source_of : Option k.Actor → Option (k.Node × ℕ)
  source_of none = none
  source_of (some src) = some (core.node_of src, core.id_of src)

  unfoldable pub write_message : App k → Message k → Outcome k
  write_message app msg = elim msg.receiver [
    | none ↦ (none, app)
    | some dst ↦
        let app' = register_sender app msg.sender in
        elim (core.write_envelope (source_of msg.sender) (core.id_of dst) msg.content) [
          | inl e ↦ (some e, app')
          | inr front ↦ elim (core.write_content msg.content) [
            | inl e ↦ (some e, app')
            | inr back ↦
                (none, emit app' (packet MessageType.actor_message (front ++ back) msg.mid))
          ]
        ]
  ]

  -- A worker runs; it goes back to its hub afterwards.
  unfoldable pub resume : App k → ℕ → Header → Bytes → App k
  unfolding handle_remote_message
  resume app msg_id hdr payload = handle_remote_message core app msg_id hdr payload
