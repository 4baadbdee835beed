-- ===== src/Datagram/Events.antt =====
-- The handlers of caf/net/datagram_transport.hpp.
use incubator.Prelude.{ℕ, zero, suc, Bool, true, false, Option, none, some, List, [], ◌∷◌}
use incubator.Bytes.{Bytes}
use incubator.Net.Error.{Error, Code, unavailable_or_would_block}
use incubator.Datagram.{recycle, has_packets, count_failure}
use incubator.Datagram.Workers.{
  Application, Transport, Message, handle_data, write_message, handle_error,
}

-- What `read` on the socket gives: a datagram with its sender, or an error.
pub data ReadResult : Type 0 where
  datagram : Bytes → ℕ → ReadResult
  nothing_to_read : ReadResult
  read_error : Code → ReadResult

-- What `write` on the socket gives: the number of bytes, or an error.
pub data WriteResult : Type 0 where
  bytes_written : ℕ → WriteResult
  cannot_write_yet : WriteResult
  write_error : Code → WriteResult

module _ {A : Type 0} (app : Application A) where
  -- datagram_transport::write_some, on what the calls of write give; behind them, the socket would
  -- block. A packet that was not sent completely is done with all the same.
  unfoldable pub write_some :
      List WriteResult → Transport A → Option Code × List WriteResult × Transport A
  unfolding recycle
  write_some [] t = elim (t.base.packet_queue) [
    | [] ↦ (none, [], t)
    | p ∷ ps ↦ (some unavailable_or_would_block, [], t)
  ]
  write_some (r ∷ results) t = elim (t.base.packet_queue) [
    | [] ↦ (none, r ∷ results, t)
    | p ∷ ps ↦ elim r [
      | bytes_written n ↦ write_some results (record t { base = recycle p ps t.base })
      | cannot_write_yet ↦ (some unavailable_or_would_block, results, t)
      | write_error code ↦
          (some code, results, handle_error app code (record t { base = count_failure t.base }))
    ]
  ]

  abbrev pub is_would_block : Code → Bool
  is_would_block unavailable_or_would_block = true
  is_would_block code = false

  abbrev pub more_to_write : Transport A → Bool × Transport A
  more_to_write t = (has_packets t.base.packet_queue, t)

  abbrev pub after_some :
      (List WriteResult → Transport A → Bool × Transport A)
      → Option Code × List WriteResult × Transport A
      → Bool × Transport A
  after_some next (some code, results, t) = (is_would_block code, t)
  after_some next (none, results, t) = next results t

  -- The messages are those that next_message of the manager gives.
  unfoldable pub handle_write_event :
      List Message → List WriteResult → Transport A → Bool × Transport A
  unfolding write_some write_message
  handle_write_event [] results t = after_some (λ rs. more_to_write) (write_some results t)
  handle_write_event (msg ∷ msgs) results t =
      after_some (λ rs t'. handle_write_event msgs rs (write_message app msg t'))
        (write_some results t)

  abbrev pub after_data :
      (Transport A → Bool × Transport A) → Option Error × Transport A → Bool × Transport A
  after_data next (none, t) = next t
  after_data next (some err, t) = (false, t)

  -- The loop over the reads, with the number of reads that are left; behind the list, there is nothing
  -- to read.
  unfoldable pub read_loop : ℕ → List ReadResult → Transport A → Bool × Transport A
  unfolding handle_data
  read_loop zero results t = (true, t)
  read_loop (suc reads) [] t = (true, t)
  read_loop (suc reads) (nothing_to_read ∷ results) t = (true, t)
  read_loop (suc reads) (read_error code ∷ results) t = (false, handle_error app code t)
  read_loop (suc reads) (datagram bytes id ∷ results) t =
      after_data (read_loop reads results) (handle_data app bytes id t)

  unfoldable pub handle_read_event : List ReadResult → Transport A → Bool × Transport A
  unfolding read_loop
  handle_read_event results t = read_loop t.base.max_consecutive_reads results t

-- The multiplexer drops the request to report for writing where handle_write_event returns false.
abbrev pub settle : {A : Type 0} → Bool × Transport A → Transport A
settle (ok, t) = record t { base = record t.base { writing = ok } }
