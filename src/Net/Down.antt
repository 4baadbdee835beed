-- ===== src/Net/Down.antt =====
-- The lower layer as a stream-oriented upper layer sees it through `stream_oriented_layer_ptr`:
-- the part of stream_transport.hpp that it reads and writes, with the abort reason that
-- socket_manager.hpp keeps and the events that it was asked to register.
use incubator.Prelude.{
  ℕ, Bool, true, false, ◌&&◌, ltb, ◌==◌, if◌then◌else◌, Option, some, List, [], ◌∷◌, ◌++◌, length,
}
use incubator.Bytes.{Bytes}
use incubator.Net.Operation.{Operation, read, write}
use incubator.Net.ReceivePolicy.{ReceivePolicy}
use incubator.Net.Error.{Error}

pub record Down : Type 0 where
  pub write_buf : Bytes
  pub max_write_buf_size : ℕ
  pub min_read_size : ℕ
  pub max_read_size : ℕ
  -- Calls of `register_reading` and `register_writing` on the parent, in order.
  pub registered : List Operation
  pub reason : Option Error

abbrev is_empty : Bytes → Bool
is_empty [] = true
is_empty (b ∷ bs) = false

abbrev pub can_send_more : Down → Bool
can_send_more d = ltb (length d.write_buf) d.max_write_buf_size

abbrev pub begin_output : Down → Down
begin_output d =
    if is_empty d.write_buf then record d { registered = d.registered ++ (write ∷ []) } else d

abbrev pub end_output : Down → Down
end_output d = d

abbrev pub abort_reason : Error → Down → Down
abort_reason e d = record d { reason = some e }

abbrev pub configure_read : ReceivePolicy → Down → Down
configure_read p d = record d {
  registered =
      if ltb 0 p.max_size && d.max_read_size == 0
      then d.registered ++ (read ∷ [])
      else d.registered;
  min_read_size = p.min_size;
  max_read_size = p.max_size;
}
