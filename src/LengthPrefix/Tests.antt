-- ===== src/LengthPrefix/Tests.antt =====
-- Length-prefixed messages on concrete inputs, with an upper layer that keeps what it is given.
use incubator.Prelude.{
  zero, suc, ◌≡◌, refl, arith, Bool, true, false, none, some, List, [], ◌∷◌, ◌++◌, length, ◌==◌,
  if◌then◌else◌, inl,
}
use incubator.Bytes.{Bytes, big_endian}
use incubator.Net.Error.{make_error, runtime_error}
use incubator.Net.Down.{Down}
use incubator.Net.Consumed.{taken}
use incubator.LengthPrefix.{
  Framing, init, begin_message, append_payload, end_message, consume_loop, consume,
}
use incubator.LengthPrefix.Send.{frame, end_message_sends, end_message_refuses}
use incubator.LengthPrefix.Progress.{
  frames, feed, resume, consume-frames, IsReady, Outcome, consume_progress,
}

abbrev idle : Down
idle = record {
  write_buf = 5 ∷ [];
  max_write_buf_size = 100;
  min_read_size = 0;
  max_read_size = 0;
  registered = [];
  reason = none;
}

abbrev fresh : Framing
fresh = record {
  message_offset = 0;
  receive_buf_upper_bound = 4096;
  down = record idle { min_read_size = 4; max_read_size = 4096 };
}

fresh_init : (init idle).down.max_read_size ≡ fresh.down.max_read_size
unfolding init
fresh_init = refl

-- Collects the messages, and refuses one of a single byte 0.
abbrev collect : Bytes → List Bytes → Framing → Bool × List Bytes × Framing
collect m got f = (
  elim (length m) [
    | zero ↦ true
    | suc n ↦ elim m [ [] ↦ true | b ∷ bs ↦ if b == 0 then false else true ]
  ],
  got ++ (m ∷ []),
  f,
)

abbrev hi : Bytes
hi = 104 ∷ 105 ∷ []

-- Two messages, an empty one between them, and the start of a third.
abbrev wire : Bytes
wire = 0 ∷ 0 ∷ 0 ∷ 2 ∷ 104 ∷ 105 ∷ 0 ∷ 0 ∷ 0 ∷ 0 ∷ 0 ∷ 0 ∷ 0 ∷ 1 ∷ 9 ∷ 0 ∷ 0 ∷ 0 ∷ 2 ∷ 8 ∷ []

wire_consumed : consume collect wire [] fresh ≡ (taken 15, hi ∷ (9 ∷ []) ∷ [], fresh)
unfolding consume consume_loop
wire_consumed = refl

end_message_sends_example :
    ((end_message (append_payload hi (begin_message fresh))).0 ≡ true)
    × ((end_message (append_payload hi (begin_message fresh))).1.down.write_buf
        ≡ (5 ∷ []) ++ frame hi)
    × ((end_message (append_payload hi (begin_message fresh))).1.down.reason ≡ none)
end_message_sends_example = end_message_sends fresh hi (omega arith) (omega arith)

end_message_refuses_example :
    ((end_message (append_payload [] (begin_message fresh))).0 ≡ false)
    × ((end_message (append_payload [] (begin_message fresh))).1.down.reason
        ≡ some (make_error runtime_error "logic error: message of size 0"))
end_message_refuses_example = end_message_refuses fresh [] (inl refl)

consume-frames_example :
    consume collect (frames (hi ∷ (0 ∷ []) ∷ hi ∷ []) ++ (0 ∷ [])) [] fresh
    ≡ resume collect 17 (0 ∷ []) (feed collect (hi ∷ (0 ∷ []) ∷ hi ∷ []) [] fresh)
consume-frames_example =
    consume-frames collect (hi ∷ (0 ∷ []) ∷ hi ∷ []) (0 ∷ []) [] fresh (omega arith)

collect-IsReady :
    (m : Bytes) (got : List Bytes) (f : Framing) → IsReady f → IsReady (collect m got f).2
collect-IsReady m got f h = h

consume_progress_example : Outcome wire (consume collect wire [] fresh)
consume_progress_example =
    consume_progress collect collect-IsReady wire [] fresh (omega arith, refl)
