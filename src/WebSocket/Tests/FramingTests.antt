-- ===== src/WebSocket/Tests/FramingTests.antt =====
-- The WebSocket framing on concrete frames, with an upper layer that keeps what it is given.
use incubator.Prelude.{◌+◌, ◌≡◌, refl, arith, Bool, true, false, none, some, List, [], ◌∷◌, ◌++◌}
use incubator.Bytes.{Bytes, big_endian}
use incubator.Net.Consumed.{failed}
use incubator.Net.Error.{make_error, connection_closed}
use incubator.WebSocket.Rfc6455.{
  text_frame, binary_frame, continuation_frame, connection_close, ping, pong,
}
use incubator.WebSocket.Framing.{
  Framing, nil_code, handle, handled, ship_pong, end_text_message, end_binary_message, consume,
}
use incubator.WebSocket.Framing.Loop.{resume, shift, IsWithin, consume-IsWithin}
use incubator.WebSocket.Framing.Wire.{wire, wire_size, IsFrame}
use incubator.WebSocket.Framing.Messages.{
  single_frame_handled, parts_wire, parts_size, completed, parts_joined,
}
use incubator.WebSocket.Framing.Sending.{
  HasKey, sent_message_received, control_frames_answered, stray_continuation_fails,
}

abbrev client : Framing
client = record {
  mask_outgoing_frames = true;
  binary_buf = 1 ∷ 2 ∷ [];
  text_buf = 104 ∷ 105 ∷ [];
  rng = λ i. 17 + i;
  opcode = nil_code;
  payload_buf = [];
  down = record {
    write_buf = [];
    max_write_buf_size = 100;
    min_read_size = 1;
    max_read_size = 2048;
    registered = [];
    reason = none;
  };
}

-- Collects the messages, and refuses a text without characters.
abbrev collect : Bytes → List Bytes → Framing → Bool × List Bytes × Framing
collect [] got f = (false, got, f)
collect (b ∷ bs) got f = (true, got ++ ((b ∷ bs) ∷ []), f)

hello-IsFrame : IsFrame text_frame 17 (104 ∷ 105 ∷ [])
hello-IsFrame = record {
  known = refl;
  key_lt = omega arith;
  bytes = omega arith;
  size_lt = omega arith;
}

bin-IsFrame : IsFrame binary_frame 17 (1 ∷ 2 ∷ [])
bin-IsFrame = record {
  known = refl;
  key_lt = omega arith;
  bytes = omega arith;
  size_lt = omega arith;
}

part-IsFrame : IsFrame continuation_frame 5 (3 ∷ [])
part-IsFrame = record {
  known = refl;
  key_lt = omega arith;
  bytes = omega arith;
  size_lt = omega arith;
}

ping-IsFrame : IsFrame ping 5 (3 ∷ [])
ping-IsFrame = record {
  known = refl;
  key_lt = omega arith;
  bytes = omega arith;
  size_lt = omega arith;
}

close-IsFrame : IsFrame connection_close 5 (3 ∷ [])
close-IsFrame = record {
  known = refl;
  key_lt = omega arith;
  bytes = omega arith;
  size_lt = omega arith;
}

client-HasKey : HasKey client
client-HasKey on e = absurd (omega arith)

consume-IsWithin_example :
    IsWithin (129 ∷ 1 ∷ 7 ∷ 129 ∷ []) (consume collect collect (129 ∷ 1 ∷ 7 ∷ 129 ∷ []) [] client).0
consume-IsWithin_example = consume-IsWithin collect collect (129 ∷ 1 ∷ 7 ∷ 129 ∷ []) [] client

single_frame_handled_example :
    consume collect collect (wire true text_frame 17 (104 ∷ 105 ∷ []) ++ (1 ∷ [])) [] client
    ≡ resume collect collect (
        handled
          (wire_size 17 (104 ∷ 105 ∷ []))
          (1 ∷ [])
          (handle collect collect text_frame (104 ∷ 105 ∷ []) [] client))
single_frame_handled_example =
    single_frame_handled collect collect text_frame 17 (104 ∷ 105 ∷ []) (1 ∷ []) [] client
      hello-IsFrame refl

parts_joined_example :
    consume collect collect
      (wire false text_frame 17 (104 ∷ 105 ∷ [])
        ++ (parts_wire ((5, 3 ∷ []) ∷ []) ++ (wire true continuation_frame 5 (3 ∷ []) ++ [])))
      []
      client
    ≡ shift
        (wire_size 17 (104 ∷ 105 ∷ []) + parts_size ((5, 3 ∷ []) ∷ []))
        (completed collect collect text_frame 5 (3 ∷ []) (104 ∷ 105 ∷ 3 ∷ 3 ∷ []) [] [] client)
parts_joined_example =
    parts_joined collect collect text_frame 17 5 (104 ∷ 105 ∷ []) (3 ∷ []) ((5, 3 ∷ []) ∷ []) [] []
      client hello-IsFrame refl (part-IsFrame, tt) part-IsFrame (omega arith) refl refl

sent_message_received_example :
    (consume collect collect (end_text_message client).down.write_buf [] client
      ≡ resume collect collect
          (handled (wire_size 17 (104 ∷ 105 ∷ [])) [] (collect (104 ∷ 105 ∷ []) [] client)))
    × (consume collect collect (end_binary_message client).down.write_buf [] client
        ≡ resume collect collect
            (handled (wire_size 17 (1 ∷ 2 ∷ [])) [] (collect (1 ∷ 2 ∷ []) [] client)))
    × ((end_text_message client).text_buf ≡ [])
    × ((end_binary_message client).binary_buf ≡ [])
sent_message_received_example =
    sent_message_received collect collect client client [] client-HasKey refl hello-IsFrame
      bin-IsFrame refl

control_frames_answered_example :
    (consume collect collect (wire true ping 5 (3 ∷ []) ++ (9 ∷ [])) [] client
      ≡ resume collect collect
          (handled (wire_size 5 (3 ∷ [])) (9 ∷ []) (true, [], ship_pong (3 ∷ []) client)))
    × ((ship_pong (3 ∷ []) client).down.write_buf ≡ [] ++ wire true pong 17 (3 ∷ []))
    × (consume collect collect (wire true connection_close 5 (3 ∷ []) ++ (9 ∷ [])) [] client ≡ (
      failed,
      [],
      record client {
        down = record client.down { reason = some (make_error connection_closed "") };
      },
    ))
control_frames_answered_example =
    control_frames_answered collect collect 5 (3 ∷ []) (9 ∷ []) [] client ping-IsFrame close-IsFrame
      client-HasKey refl

stray_continuation_fails_example :
    consume collect collect (wire true continuation_frame 5 (3 ∷ []) ++ []) [] client
    ≡ (failed, [], client)
stray_continuation_fails_example =
    stray_continuation_fails collect collect 5 (3 ∷ []) [] [] client part-IsFrame refl
