-- ===== src/LengthPrefix.antt =====
-- caf/net/length_prefix_framing.hpp: messages with a length prefix of four bytes.
pub mod Send
pub mod Receive
pub mod Progress
mod Tests
use incubator.Prelude.{
  ℕ, zero, suc, ◌+◌, ◌-◌, ◌*◌, ◌%◌, ◌^◌, Bool, true, false, ◌&&◌, ltb, ◌==◌, if◌then◌else◌, List,
  [], ◌++◌, length, take, drop, replicate,
}
use incubator.Bytes.{Bytes, copy_to, copy_to-prefix, NetworkOrder, encode, decode}
use incubator.Net.Consumed.{Consumed, taken, failed, stuck}
use incubator.Net.ReceivePolicy.{between}
use incubator.Net.Error.{make_error, runtime_error}
use incubator.Net.Down.{Down, begin_output, abort_reason, configure_read}

-- INT32_MAX - sizeof(uint32_t)
abbrev pub max_message_length : ℕ
max_message_length = 2 ^ 31 - 1 - 4

abbrev pub default_receive_size : ℕ
default_receive_size = 4 * 1024

-- The member variables of the layer, less the upper layer, beside the layer below.
pub record Framing : Type 0 where
  pub message_offset : ℕ
  pub receive_buf_upper_bound : ℕ
  pub down : Down

-- The layer configures the first read when it is initialized.
unfoldable pub init : Down → Framing
init d = record {
  message_offset = 0;
  receive_buf_upper_bound = default_receive_size;
  down = configure_read (between 4 default_receive_size) d;
}

-- `msg_begin` stays where the placeholder of the length was put.
unfoldable pub begin_message : Framing → Framing
begin_message f =
    let d = begin_output f.down in
    record f {
      message_offset = length d.write_buf;
      down = record d { write_buf = d.write_buf ++ replicate 4 0 };
    }

-- What the upper layer appends to the message buffer.
abbrev pub append_payload : Bytes → Framing → Framing
append_payload bs f = record f { down = record f.down { write_buf = f.down.write_buf ++ bs } }

module _ ⦃net : NetworkOrder⦄ where
  -- A buffer shorter than the placeholder gives a negative size in the source: the test for a
  -- positive one fails, and so does the test for 0 in the choice of the text.
  unfoldable pub end_message : Framing → Bool × Framing
  end_message f =
      let msg_size = length f.down.write_buf - (f.message_offset + 4) in
      if ltb 0 msg_size && ltb msg_size max_message_length
      then (
        true,
        record f {
          down = record f.down {
            write_buf = copy_to f.message_offset (encode 4 (msg_size % 2 ^ 32)) f.down.write_buf;
          };
        },
      )
      else (
        false,
        record f {
          down =
              abort_reason
                (make_error runtime_error (
                  if length f.down.write_buf == f.message_offset + 4
                  then "logic error: message of size 0"
                  else "maximum message size exceeded"))
                f.down;
        },
      )

  -- The source requires four bytes at least.
  abbrev pub split : Bytes → ℕ × Bytes
  split buffer = (decode (take 4 buffer), drop 4 buffer)

-- The upper layer has a state `U` and one operation, which may call the layers below: the result
-- tells whether it was at least 0.
module _ ⦃net : NetworkOrder⦄ {U : Type 0} (upper : Bytes → U → Framing → Bool × U × Framing) where
  -- A receive buffer that is too small for the announced message is enlarged.
  abbrev grow : ℕ → Framing → Framing
  grow msg_size f =
      if ltb f.receive_buf_upper_bound (msg_size + 4)
      then record f {
        receive_buf_upper_bound = (msg_size + 4) % 2 ^ 32;
        down = configure_read (between 4 ((msg_size + 4) % 2 ^ 32)) f.down;
      }
      else f

  pub consume_loop : ℕ → Bytes → ℕ → U → Framing → Consumed × U × Framing
  consume_loop zero input consumed u f = (stuck, u, f)
  consume_loop (suc fuel) input consumed u f =
      let (msg_size, sub_buffer) = split input in
      let skip = consume_loop fuel sub_buffer (consumed + 4) u f in
      let msg = take msg_size sub_buffer in
      let (accepted, u', f') = upper msg u f in
      let more = consume_loop fuel (drop msg_size sub_buffer) (consumed + (length msg + 4)) u' f' in
      if ltb (length input) 4
      then (taken consumed, u, f)
      else if msg_size == 0
      then skip
      else if ltb max_message_length msg_size
      then (
        failed,
        u,
        record f {
          down = abort_reason (make_error runtime_error "maximum message size exceeded") f.down;
        },
      )
      else if ltb (length sub_buffer) msg_size
      then (taken consumed, u, grow msg_size f)
      else if accepted
      then more
      else (failed, u', f')

  -- A round takes four bytes at least.
  unfoldable pub consume : Bytes → U → Framing → Consumed × U × Framing
  unfolding consume_loop
  consume input u f = consume_loop (suc (length input)) input 0 u f
