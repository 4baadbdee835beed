-- ===== src/Multiplexer/ControlTests.antt =====
-- The shutdown of a multiplexer with three managers beside its own, and calls that go through the pipe.
use incubator.Prelude.{
  ℕ, suc, ◌+◌, ◌≡◌, refl, arith, true, false, ◌==◌, if◌then◌else◌, List, [], ◌∷◌, ◌++◌,
}
use incubator.Bytes.{big_encode, big_decode, length-big_encode, big_decode-encode}
use incubator.StreamTransport.{received, read_would_block}
use incubator.Net.Operation.{Operation, no_operation, read, write, read_write}
use incubator.Multiplexer.{
  Entry, Multiplexer, no_events, to_bitmask, register_reading, register_writing,
}
use incubator.Multiplexer.Registering.{IsConsistent}
use incubator.Multiplexer.Control.{shutdown}
use incubator.Multiplexer.Control.Turns.{write_only, writers}
use incubator.Multiplexer.Control.Shutdown.{shutdown_lem}
use incubator.Multiplexer.Pipe.{
  Pointers, Pipe, register_writing_code, shutdown_code, write_to_pipe, handle_read_event,
}
use incubator.Multiplexer.Pipe.Written.{Command, write_all}
use incubator.Multiplexer.Pipe.Commands.{call_all, calls_replayed}

abbrev entry : ℕ → Operation → Entry
entry mgr op = record { manager = mgr; events = to_bitmask op; revents = no_events }

abbrev rest : List Entry
rest = entry 5 read_write ∷ entry 6 read ∷ entry 7 write ∷ []

abbrev mask_of : ℕ → Operation
mask_of i =
    if i == 5
    then read_write
    else if i == 6
    then read
    else if i == 7
    then write
    else if i == 1
    then read
    else no_operation

abbrev busy : Multiplexer
busy = record {
  pollset = entry 1 read ∷ rest;
  masks = mask_of;
  shutting_down = false;
  pipe_open = true;
}

busy-IsConsistent : IsConsistent busy
busy-IsConsistent = record {
  masks_lt = λ i. ground arith;
  agrees = (refl, (refl, (refl, (refl, tt))));
  distinct = (refl, (refl, (refl, (refl, tt))));
  polled = λ i h. ground (arith, h);
  idle = λ i h. ground (arith, h);
}

shutdown_lem_example :
    ((shutdown busy).pollset ≡ entry 1 read ∷ writers rest)
    × ((j : ℕ) → (shutdown busy).masks j ≡ (if 1 == j then mask_of j else write_only (mask_of j)))
    × ((shutdown busy).pipe_open ≡ false)
    × ((mgr : ℕ)
        → (register_reading mgr (shutdown busy) ≡ shutdown busy)
          × (register_writing mgr (shutdown busy) ≡ shutdown busy))
shutdown_lem_example = shutdown_lem busy (entry 1 read) rest refl busy-IsConsistent

abbrev wide : Pointers
wide = record {
  size = 8;
  encode = big_encode 8;
  decode = big_decode;
  length-encode = length-big_encode 8;
  decode-encode = big_decode-encode 8;
}

abbrev calls : List Command
calls = (register_writing_code, 9) ∷ (shutdown_code, 0) ∷ []

abbrev empty_pipe : Pipe
empty_pipe = record { bytes = []; refs = λ i. 1 }

abbrev counting : ℕ → ℕ → Multiplexer → ℕ × Multiplexer
counting mgr u m = (suc u, m)

-- The state counts the managers that were given up, too.
abbrev give_up : ℕ → ℕ → ℕ
give_up mgr u = u + 100

calls_written :
    (1 ∷ 0 ∷ 0 ∷ 0 ∷ []) ++ ((0 ∷ 0 ∷ 0 ∷ 0 ∷ 9 ∷ []) ++ (4 ∷ 0 ∷ 0 ∷ 0 ∷ 0 ∷ 0 ∷ 0 ∷ 0 ∷ 0 ∷ []))
    ≡ (write_all wide busy calls empty_pipe).bytes
unfolding write_to_pipe
calls_written = refl

calls_replayed_example :
    handle_read_event counting give_up wide
      (received (1 ∷ 0 ∷ 0 ∷ 0 ∷ [])
        ∷ received (0 ∷ 0 ∷ 0 ∷ 0 ∷ 9 ∷ [])
        ∷ received (4 ∷ 0 ∷ 0 ∷ 0 ∷ 0 ∷ 0 ∷ 0 ∷ 0 ∷ 0 ∷ [])
        ∷ read_would_block
        ∷ [])
      []
      (0, busy)
    ≡ (true, [], call_all counting give_up wide calls (0, busy))
calls_replayed_example =
    calls_replayed counting give_up wide calls
      (received (1 ∷ 0 ∷ 0 ∷ 0 ∷ [])
        ∷ received (0 ∷ 0 ∷ 0 ∷ 0 ∷ 9 ∷ [])
        ∷ received (4 ∷ 0 ∷ 0 ∷ 0 ∷ 0 ∷ 0 ∷ 0 ∷ 0 ∷ 0 ∷ [])
        ∷ read_would_block
        ∷ [])
      busy empty_pipe (0, busy) (omega arith) refl refl (omega arith) calls_written
