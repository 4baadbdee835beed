-- ===== src/StreamTransport/StreamTests.antt =====
-- Reads of a stream transport on a socket that always has three bytes, with an upper layer that takes
-- two at a time.
use incubator.Prelude.{
  ℕ, ◌+◌, ◌≡◌, refl, sym, append-nil, arith, true, none, some, List, [], ◌∷◌, ◌++◌, length, take,
}
use incubator.Bytes.{Bytes}
use incubator.StreamTransport.{
  Transport, received, read_would_block, sent, handle_write_event, Socket, Upper, turn, read_loop,
  handle_read_event,
}
use incubator.StreamTransport.Output.{
  Recorded, Logged, OnlyAdds, EndsInOrder, write_events, output_in_order,
}
use incubator.StreamTransport.Buffer.{KeepsRest, turn-KeepsRest}
use incubator.StreamTransport.Excess.{TakesSome, excess_handed_again}

abbrev three : Socket ℕ
three = record {
  receive = λ n s. (received (take n (7 ∷ 8 ∷ 9 ∷ [])), s + 1);
  send = λ b s. (sent (length b), s);
}

abbrev pairs : Upper (List Bytes)
pairs = record {
  consume = λ bs delta got d. (some 2, got ++ (bs ∷ []), d);
  abort = λ e got d. (got, d);
  prepare_send = λ got d. (true, got, d);
  done_sending = λ got d. (true, got, d);
}

abbrev start : Transport
start = record {
  down = record {
    write_buf = [];
    max_write_buf_size = 10;
    min_read_size = 2;
    max_read_size = 4;
    registered = [];
    reason = none;
  };
  max_consecutive_reads = 2;
  offset = 1;
  delta_offset = 1;
  read_buf = 6 ∷ 0 ∷ 0 ∷ 0 ∷ [];
}

read_twice :
    (handle_read_event pairs three start [] 0).2 ≡ (6 ∷ 7 ∷ 8 ∷ 9 ∷ []) ∷ (8 ∷ 9 ∷ 7 ∷ 8 ∷ []) ∷ []
unfolding handle_read_event read_loop turn
read_twice = refl

turn-KeepsRest_example :
    KeepsRest pairs three (turn pairs three start [] 0) (8 ∷ 9 ∷ []) 2 start.down
turn-KeepsRest_example =
    turn-KeepsRest pairs three start [] ((6 ∷ 7 ∷ 8 ∷ 9 ∷ []) ∷ []) 0 1 (7 ∷ 8 ∷ 9 ∷ []) 2
      start.down (omega arith) (omega arith) refl (omega arith) (omega arith) refl (omega arith)

abbrev full : Transport
full = record start { offset = 4 }

pairs-TakesSome : (bs : Bytes) → TakesSome pairs 4 bs
pairs-TakesSome bs = record { amount = λ u d. 1; takes = λ u d e. refl; asks = λ u d e. e }

excess_handed_again_example :
    handle_read_event pairs three full [] 0
    ≡ (true, full, (6 ∷ 0 ∷ 0 ∷ 0 ∷ []) ∷ (6 ∷ 0 ∷ 0 ∷ 0 ∷ []) ∷ [], 0)
excess_handed_again_example =
    excess_handed_again pairs three full [] 0 (pairs-TakesSome (6 ∷ 0 ∷ 0 ∷ 0 ∷ [])) (omega arith)
      (omega arith) (omega arith)

-- A layer that adds a byte before each write, and a socket that takes one byte at a time.
abbrev chatty : Upper ℕ
chatty = record {
  consume = λ bs delta n d. (some 0, n, d);
  abort = λ e n d. (n, d);
  prepare_send = λ n d. (true, n + 1, record d { write_buf = d.write_buf ++ (n ∷ []) });
  done_sending = λ n d. (true, n, d);
}

abbrev one_byte : Socket ℕ
one_byte = record { receive = λ n s. (read_would_block, s); send = λ bs s. (sent 1, s + 1) }

chatty-OnlyAdds : OnlyAdds chatty
chatty-OnlyAdds = record {
  prepares = λ n d. (n ∷ [], refl);
  completes = λ n d. ([], sym (append-nil d.write_buf));
  aborts = λ e n d. ([], sym (append-nil d.write_buf));
}

abbrev waiting : Transport
waiting = record start { down = record start.down { write_buf = 6 ∷ 7 ∷ [] } }

abbrev at_first : Logged ℕ
at_first = record { layer = 1; added = 6 ∷ 7 ∷ [] }

abbrev nothing_taken : Recorded ℕ
nothing_taken = record { socket_state = 0; taken = [] }

taken_in_order :
    (write_events chatty one_byte 3 waiting at_first nothing_taken).3.taken ≡ 6 ∷ 7 ∷ 1 ∷ []
unfolding handle_write_event
taken_in_order = refl

output_in_order_example :
    EndsInOrder (write_events chatty one_byte 3 waiting at_first nothing_taken)
output_in_order_example =
    output_in_order chatty one_byte chatty-OnlyAdds 3 waiting at_first nothing_taken refl
