-- ===== src/Basp/Tests/ApplicationTests.antt =====
-- The BASP application on concrete packets, with a small actor system in which everything is a
-- number: actor 5 is the only one there is, and a payload is read as its bytes say.
use incubator.Prelude.{
  ℕ, ◌+◌, ◌<◌, ◌≡◌, refl, arith, false, ◌==◌, if◌then◌else◌, none, some, ◌⊎◌, inl, inr, [], ◌∷◌,
  ◌++◌,
}
use incubator.Bytes.{Bytes, big_endian}
use incubator.Net.Error.{Error, make_error, invalid_argument}
use incubator.Net.ReceivePolicy.{exactly}
use incubator.Basp.MessageType
use incubator.Basp.ConnectionState
use incubator.Basp.Header.{Header, IsHeader, header_size, to_bytes, from_bytes}
use incubator.Basp.MessageQueue.Calls.{Reach, begin, start, issue, hand_in}
use incubator.Basp.Application.System.{
  Kinds, Element, App, Core, Remote, initial, emit, write_packet, respond,
}
use incubator.Basp.Application.Handlers.{handle_actor_message, handle_resolve_response}
use incubator.Basp.Application.Protocol.{init, handle, handle_data, resolve}
use incubator.Basp.Application.Packets.{
  handlers, handled_by, hand_over, finish, handshake_header, packet_handled, handshake_accepted,
}
use incubator.Basp.Application.Session.{IsSound, Reach-IsSound, receives}
use incubator.Basp.Application.Session as Session
use incubator.Basp.Application.Phases.{
  quiet_before_handshake, read_size_follows_state, expected_size,
}
use incubator.Basp.Application.Resolving.{told, resolve_answered_once}
use incubator.Basp.Application.Ordering.{
  Matches, Continues, element_of, handle_actor_message-Continues, lost_message_takes_id,
}

abbrev numbers : Kinds
numbers = record {
  Node = ℕ;
  Actor = ℕ;
  Listener = ℕ;
  Content = Bytes;
  Reason = ℕ;
  Interfaces = Bytes;
}

abbrev bad : Error
bad = make_error invalid_argument ""

-- The first byte names the receiver.
abbrev read_remote : Bytes → Error ⊎ Remote numbers
read_remote [] = inl bad
read_remote (b ∷ bs) = inr (record { src_node = some 2; src_id = 3; dst_id = b; message = bs })

abbrev read_first : Bytes → Error ⊎ ℕ
read_first [] = inl bad
read_first (b ∷ bs) = inr b

abbrev read_pair : Bytes → Error ⊎ (ℕ × Bytes)
read_pair [] = inl bad
read_pair (b ∷ bs) = inr (b, bs)

abbrev small : Core numbers
small = record {
  app_ids = "x" ∷ [];
  read_handshake = λ p. inr (some 7, "x" ∷ []);
  read_path = read_pair;
  read_resolved = read_pair;
  read_reason = read_first;
  read_message = read_remote;
  write_handshake = inr (9 ∷ 9 ∷ []);
  write_path = λ p. inr p;
  write_resolved = λ n. inr (n ∷ 0 ∷ []);
  write_reason = λ n. inr (n ∷ []);
  write_envelope = λ src dst c. inr (dst ∷ []);
  write_content = λ c. inr c;
  get = λ n. if n == 5 then some 5 else none;
  get_by_name = λ n. none;
  parse_id = λ p. none;
  parse_name = λ p. none;
  id_of = λ a. a;
  node_of = λ a. 1;
  get_or_put = λ n i. some (100 + i);
  unknown = 4;
  idle_worker = false;
}

abbrev fresh_app : App numbers
fresh_app = initial numbers

abbrev open_app : App numbers
open_app = record fresh_app { state = ConnectionState.await_header; peer_id = some 7 }

abbrev message_header : Header
message_header = record { type = MessageType.actor_message; payload_len = 2; operation_data = 11 }

message_header-IsHeader : IsHeader message_header
message_header-IsHeader = omega arith

packet_handled_example :
    hand_over small open_app message_header (5 ∷ 1 ∷ [])
    ≡ finish (
        handled_by
          (handlers small)
          MessageType.actor_message
          (record open_app { hdr = message_header })
          message_header
          (5 ∷ 1 ∷ []))
packet_handled_example =
    packet_handled small open_app message_header (5 ∷ 1 ∷ []) refl message_header-IsHeader refl

handshake_accepted_example :
    (init small open_app ≡ (
      inr (exactly header_size),
      emit open_app (write_packet (to_bytes (handshake_header (9 ∷ 9 ∷ []))) (9 ∷ 9 ∷ [])),
    ))
    × (hand_over small fresh_app (handshake_header (9 ∷ 9 ∷ [])) (9 ∷ 9 ∷ []) ≡ (
      inr (exactly header_size),
      record fresh_app {
        state = ConnectionState.await_header;
        hdr = handshake_header (9 ∷ 9 ∷ []);
        peer_id = some 7;
      },
    ))
handshake_accepted_example =
    handshake_accepted small small open_app fresh_app (9 ∷ 9 ∷ []) 7 ("x" ∷ []) refl (omega arith)
      (omega arith) refl refl refl

abbrev shake_bytes : Bytes
shake_bytes = 0 ∷ 0 ∷ 0 ∷ 0 ∷ 2 ∷ 0 ∷ 0 ∷ 0 ∷ 0 ∷ 0 ∷ 0 ∷ 0 ∷ 1 ∷ []

Reach-IsSound_example : IsSound (handle_data small fresh_app shake_bytes).1
Reach-IsSound_example =
    Reach-IsSound (Session.next Session.begin (receives small fresh_app shake_bytes))

quiet_before_handshake_example :
    ((handle_data small fresh_app shake_bytes).1.effects ≡ [])
    × ((handle_data small fresh_app shake_bytes).1.queue ≡ fresh_app.queue)
    × ((handle_data small fresh_app shake_bytes).1.pending_resolves ≡ [])
quiet_before_handshake_example = quiet_before_handshake small fresh_app shake_bytes (omega arith)

shake_accepted : (handle_data small fresh_app shake_bytes).0 ≡ inr (exactly 2)
unfolding handle_data handle from_bytes
shake_accepted = refl

read_size_follows_state_example :
    exactly 2 ≡ exactly (expected_size (handle_data small fresh_app shake_bytes).1)
read_size_follows_state_example =
    read_size_follows_state small fresh_app shake_bytes (exactly 2) shake_accepted

abbrev answer_header : Header
answer_header = record { type = MessageType.resolve_response; payload_len = 1; operation_data = 1 }

resolve_answered_once_example :
    ((handle_resolve_response small
        (resolve small open_app (1 ∷ []) 30)
        answer_header
        (6 ∷ [])).1.pending_resolves
      ≡ [])
    × ((handle_resolve_response small
          (resolve small open_app (1 ∷ []) 30)
          answer_header
          (6 ∷ [])).1.effects
        ≡ (resolve small open_app (1 ∷ []) 30).effects
          ++ (respond 30 (told small (some 7) (6 ∷ [])) ∷ []))
    × (handle_resolve_response small
          (handle_resolve_response small
            (resolve small open_app (1 ∷ []) 30)
            answer_header
            (6 ∷ [])).1
          answer_header
          []
        ≡ (
          none,
          (handle_resolve_response small
              (resolve small open_app (1 ∷ []) 30)
              answer_header
              (6 ∷ [])).1,
        ))
resolve_answered_once_example =
    resolve_answered_once small small small open_app (1 ∷ []) 30 (1 ∷ []) (6 ∷ []) [] answer_header
      answer_header refl refl refl refl

abbrev remote_two : Remote numbers
remote_two = record { src_node = some 2; src_id = 3; dst_id = 5; message = 1 ∷ [] }

handle_actor_message-Continues_example :
    ((handle_actor_message small open_app message_header (5 ∷ 1 ∷ [])).0 ≡ none)
    × Continues open_app
        (handle_actor_message small open_app message_header (5 ∷ 1 ∷ [])).1
        start
        (hand_in (issue start) 0 (some 5) (some (element_of small message_header remote_two)))
handle_actor_message-Continues_example =
    handle_actor_message-Continues small open_app start message_header (5 ∷ 1 ∷ []) remote_two 5
      begin refl (omega arith) refl refl (omega arith) refl

lost_message_takes_id_example :
    ((handle_actor_message small open_app message_header (6 ∷ [])).0 ≡ none)
    × ((handle_actor_message small open_app message_header (6 ∷ [])).1.effects ≡ [])
    × Matches (handle_actor_message small open_app message_header (6 ∷ [])).1 (issue start)
    × Reach {R = ℕ} {C = Element numbers} (issue start)
    × (0 < (issue {R = ℕ} {C = Element numbers} start).queue.next_id)
    × ((issue {R = ℕ} {C = Element numbers} start).log 0 ≡ none)
lost_message_takes_id_example =
    lost_message_takes_id small open_app start message_header (6 ∷ []) begin refl (omega arith) refl
      (inr (record { src_node = some 2; src_id = 3; dst_id = 6; message = [] }, refl, inr refl))
