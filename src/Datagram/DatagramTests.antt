-- ===== src/Datagram/DatagramTests.antt =====
-- Runs of caf/net/datagram_transport.hpp with an application that sends back what it gets.
use incubator.Prelude.{ℕ, suc, ◌≡◌, refl, true, Option, none, List, [], ◌∷◌}
use incubator.Bytes.{Bytes}
use incubator.Net.Error.{Error}
use incubator.Datagram.{initial, write_packet}
use incubator.Datagram.Workers.{
  handle_data, Application, Call, header_buffer, packet, Transport, no_workers,
}
use incubator.Datagram.Events.{
  datagram, bytes_written, cannot_write_yet, handle_read_event, handle_write_event, settle,
}
use incubator.Datagram.Routing.{AreAnswers}
use incubator.Datagram.Routing.Sender.{answers_reach_sender}
use incubator.Datagram.Steps.{read, write, done, and_then}

abbrev send_back : Bytes → ℕ → Option Error × ℕ × List Call
send_back bytes n = (none, suc n, header_buffer ∷ packet (bytes ∷ []) ∷ [])

-- The state counts the calls.
abbrev echo : Application ℕ
echo = record {
  make = 0;
  init = λ n. (none, n, []);
  handle_data = send_back;
  write_message = send_back;
  handle_event = λ e n. (n, []);
  handle_error = λ code n. 0;
}

abbrev at_start : Transport ℕ
at_start = record { base = initial (λ n. n) 2 1 1; layer = no_workers }

abbrev transport_read : Transport ℕ
transport_read =
    (handle_read_event echo (datagram (1 ∷ []) 7 ∷ datagram (2 ∷ []) 8 ∷ []) at_start).1

abbrev transport_written : Transport ℕ
transport_written =
    settle (handle_write_event echo [] (bytes_written 1 ∷ cannot_write_yet ∷ []) transport_read)

-- Each sender has its own worker, and the answers wait in order.
answers_wait :
    transport_read.base.packet_queue
    ≡ record { id = 7; bytes = (1 ∷ []) ∷ [] } ∷ record { id = 8; bytes = (2 ∷ []) ∷ [] } ∷ []
unfolding handle_read_event write_packet
answers_wait = refl

-- The first is sent, and its buffer is kept.
buffer_kept : transport_written.base.header_bufs ≡ [] ∷ []
unfolding handle_read_event handle_write_event write_packet
buffer_kept = refl

still_writing : transport_written.base.writing ≡ true
unfolding handle_read_event handle_write_event write_packet
still_writing = refl

answers_reach_sender_example :
    AreAnswers 8 transport_written.base.written
      (handle_data echo (3 ∷ []) 8 transport_written).1.base.written
answers_reach_sender_example =
    answers_reach_sender echo (λ n. n) 2 1 1 transport_written (3 ∷ []) 8
      (and_then (and_then done (read (datagram (1 ∷ []) 7 ∷ datagram (2 ∷ []) 8 ∷ [])))
        (write [] (bytes_written 1 ∷ cannot_write_yet ∷ [])))
