-- ===== src/Basp/Application/Handlers.antt =====
-- The operations of src/net/basp/application.cpp, caf/net/basp/remote_message_handler.hpp and
-- src/worker.cpp.
use Prim.Native.String.{String}
use text.Mathlib.Text.{◌==◌ as str_eq}
use incubator.Prelude.{
  ℕ, Bool, true, false, not, ◌||◌, ◌&&◌, ◌==◌, if◌then◌else◌, Option, none, some, inl, inr, List,
  [], ◌∷◌, ◌++◌, length, drop,
}
use incubator.Bytes.{Bytes, NetworkOrder}
use incubator.Net.Error.{Error, make_error, basp}
use incubator.Basp.MessageQueue.{push, new_id}
use incubator.Basp.MessageType
use incubator.Basp.Ec
use incubator.Basp.ConnectionState
use incubator.Basp.Header.{Header, version}
use incubator.Basp.Application.System.{
  Kinds, Element, Remote, lookup_failed, resolved, Effect, put, respond, attach, erase_proxy,
  launch, enqueue_to, App, Core, emit, Outcome, packet, find, erase,
}

abbrev pub ec_error : Ec.Ec → Error
ec_error e = make_error (basp e) ""

abbrev mem_string : String → List String → Bool
mem_string x [] = false
mem_string x (y ∷ ys) = str_eq y x || mem_string x ys

-- Not `std::none_of(app_ids, predicate)`.
abbrev pub any_shared : List String → List String → Bool
any_shared [] ids = false
any_shared (x ∷ xs) ids = mem_string x ids || any_shared xs ids

abbrev is_nil : {A : Type 0} → List A → Bool
is_nil [] = true
is_nil (x ∷ xs) = false

abbrev pub starts_with : Bytes → Bytes → Bool
starts_with path [] = true
starts_with [] (p ∷ ps) = false
starts_with (x ∷ xs) (p ∷ ps) = x == p && starts_with xs ps

-- "id/" and "name/".
abbrev pub id_prefix : Bytes
id_prefix = 105 ∷ 100 ∷ 47 ∷ []

abbrev pub name_prefix : Bytes
name_prefix = 110 ∷ 97 ∷ 109 ∷ 101 ∷ 47 ∷ []

module _ ⦃net : NetworkOrder⦄ {k : Kinds} (core : Core k) where
  unfoldable pub resolve_local_path : Bytes → Option k.Actor
  resolve_local_path path =
      if starts_with path id_prefix
      then elim (core.parse_id (drop (length id_prefix) path)) [
        | none ↦ none
        | some aid ↦ core.get aid
      ]
      else if starts_with path name_prefix
      then elim (core.parse_name (drop (length name_prefix) path)) [
        | none ↦ none
        | some name ↦ core.get_by_name name
      ]
      else none

  abbrev accept_peer : App k → Option k.Node × List String → Outcome k
  accept_peer app (none, ids) = (some (ec_error Ec.invalid_handshake), app)
  accept_peer app (some peer, ids) =
      if is_nil ids
      then (some (ec_error Ec.invalid_handshake), app)
      else if any_shared ids core.app_ids
      then (none, record app { peer_id = some peer; state = ConnectionState.await_header })
      else (some (ec_error Ec.app_identifiers_mismatch), app)

  unfoldable pub handle_handshake : App k → Header → Bytes → Outcome k
  handle_handshake app hdr payload =
      if not (hdr.type == MessageType.handshake)
      then (some (ec_error Ec.missing_handshake), app)
      else if not (hdr.operation_data == version)
      then (some (ec_error Ec.version_mismatch), app)
      else elim (core.read_handshake payload) [ inl e ↦ (some e, app) | inr r ↦ accept_peer app r ]

  abbrev pub sender_of : Remote k → Option k.Actor
  sender_of m = elim m.src_node [
    | none ↦ none
    | some n ↦ if m.src_id == 0 then none else core.get_or_put (some n) m.src_id
  ]

  -- What the queue gives to the receivers.
  abbrev pub delivered : List (k.Actor × Option (Element k)) → List (Effect k)
  delivered [] = []
  delivered ((r, c) ∷ sent) = enqueue_to r c ∷ delivered sent

  abbrev pub ship : App k → ℕ → Header → Remote k → k.Actor → App k
  ship app msg_id hdr m dst =
      let (sent, q) =
        push app.queue msg_id (some dst)
          (some (record { sender = sender_of m; mid = hdr.operation_data; content = m.message })) in
      record app { queue = q; effects = app.effects ++ delivered sent }

  -- A message that is refused is not handed to the queue.
  unfoldable pub handle_remote_message : App k → ℕ → Header → Bytes → App k
  handle_remote_message app msg_id hdr payload = elim (core.read_message payload) [
    | inl e ↦ app
    | inr m ↦
        if m.dst_id == 0
        then app
        else elim (core.get m.dst_id) [ none ↦ app | some dst ↦ ship app msg_id hdr m dst ]
  ]

  -- With no idle worker, the message is handled at once.
  unfoldable pub handle_actor_message : App k → Header → Bytes → Outcome k
  unfolding handle_remote_message new_id
  handle_actor_message app hdr payload =
      let (msg_id, q) = new_id app.queue in
      let app' = record app { queue = q } in
      if core.idle_worker
      then (none, emit app' (launch msg_id hdr payload))
      else (none, handle_remote_message app' msg_id hdr payload)

  abbrev resolved_id : Option k.Actor → ℕ
  resolved_id none = 0
  resolved_id (some actor) = core.id_of actor

  abbrev register_resolved : App k → Option k.Actor → App k
  register_resolved app none = app
  register_resolved app (some actor) = emit app (put (core.id_of actor) actor)

  abbrev answer_path : App k → Header → Option k.Actor → Outcome k
  answer_path app rec_hdr result = elim (core.write_resolved (resolved_id result)) [
    | inl e ↦ (some e, register_resolved app result)
    | inr payload ↦ (
      none,
      emit (register_resolved app result)
          (packet MessageType.resolve_response payload rec_hdr.operation_data),
    )
  ]

  unfoldable pub handle_resolve_request : App k → Header → Bytes → Outcome k
  unfolding resolve_local_path
  handle_resolve_request app rec_hdr received = elim (core.read_path received) [
    | inl e ↦ (some e, app)
    | inr r ↦
        if r.0 == length r.1
        then answer_path app rec_hdr (resolve_local_path r.1)
        else (some (ec_error Ec.invalid_payload), app)
  ]

  abbrev answer_listener : App k → k.Listener → Bytes → Outcome k
  answer_listener app listener received = elim (core.read_resolved received) [
    | inl e ↦ (some e, emit app (respond listener lookup_failed))
    | inr r ↦
        if r.0 == 0
        then (none, emit app (respond listener (resolved none r.1)))
        else (none, emit app (respond listener (resolved (core.get_or_put app.peer_id r.0) r.1)))
  ]

  -- The guard erases the entry on every way out.
  unfoldable pub handle_resolve_response : App k → Header → Bytes → Outcome k
  handle_resolve_response app hdr received = elim (find hdr.operation_data app.pending_resolves) [
    | none ↦ (none, app)
    | some listener ↦
        answer_listener
          (record app { pending_resolves = erase hdr.operation_data app.pending_resolves }) listener
          received
  ]

  abbrev report_unknown : App k → ℕ → Outcome k
  report_unknown app operation_data = elim (core.write_reason core.unknown) [
    | inl e ↦ (some e, app)
    | inr payload ↦ (none, emit app (packet MessageType.down_message payload operation_data))
  ]

  unfoldable pub handle_monitor_message : App k → Header → Bytes → Outcome k
  handle_monitor_message app hdr received =
      if is_nil received
      then elim (core.get hdr.operation_data) [
        | none ↦ report_unknown app hdr.operation_data
        | some hdl ↦ (none, emit app (attach hdl app.peer_id hdr.operation_data))
      ]
      else (some (ec_error Ec.unexpected_payload), app)

  unfoldable pub handle_down_message : App k → Header → Bytes → Outcome k
  handle_down_message app hdr received = elim (core.read_reason received) [
    | inl e ↦ (some e, app)
    | inr reason ↦ (none, emit app (erase_proxy app.peer_id hdr.operation_data reason))
  ]

  -- The switch over the type of a message.
  unfoldable pub handle_message : App k → Header → Bytes → Outcome k
  unfolding handle_actor_message handle_resolve_request handle_resolve_response
      handle_monitor_message handle_down_message
  handle_message app hdr payload =
      if hdr.type == MessageType.handshake
      then (some (ec_error Ec.unexpected_handshake), app)
      else if hdr.type == MessageType.actor_message
      then handle_actor_message app hdr payload
      else if hdr.type == MessageType.resolve_request
      then handle_resolve_request app hdr payload
      else if hdr.type == MessageType.resolve_response
      then handle_resolve_response app hdr payload
      else if hdr.type == MessageType.monitor_message
      then handle_monitor_message app hdr payload
      else if hdr.type == MessageType.down_message
      then handle_down_message app hdr payload
      else if hdr.type == MessageType.heartbeat
      then (none, app)
      else (some (ec_error Ec.unimplemented), app)
