-- ===== src/WebSocket/Framing.antt =====
-- caf/net/web_socket/framing.hpp: frames in both directions, over the stream below and the messages
-- above.
pub mod Shrinking
pub mod Loop
pub mod Wire
pub mod Messages
pub mod Sending
use incubator.Prelude.{
  ℕ, zero, suc, ◌+◌, ◌-◌, ◌%◌, ◌^◌, Bool, true, false, not, ltb, leb, ◌==◌, if◌then◌else◌, List, [],
  ◌∷◌, ◌++◌, length, take, drop,
}
use Prim.Native.String.{String}
use incubator.Bytes.{Bytes, NetworkOrder}
use incubator.Net.Consumed.{Consumed, taken, failed, stuck}
use incubator.Net.ReceivePolicy.{exactly, up_to}
use incubator.Net.Error.{make_error, runtime_error, connection_closed}
use incubator.Net.Down.{Down, begin_output, end_output, abort_reason, configure_read}
use incubator.WebSocket.Rfc6455.{
  FrameHeader, continuation_frame, text_frame, binary_frame, connection_close, ping, pong, fin_flag,
  mask_data, assemble_frame, Decoded, incomplete, invalid, decoded, decode_header,
}

-- INT32_MAX
abbrev pub max_frame_size : ℕ
max_frame_size = 2 ^ 31 - 1

abbrev pub nil_code : ℕ
nil_code = 0xFF

-- Member variables, less the upper layer, beside the layer below. The generator is the sequence of
-- the numbers that it is going to give.
pub record Framing : Type 0 where
  pub mask_outgoing_frames : Bool
  pub binary_buf : Bytes
  pub text_buf : Bytes
  pub rng : ℕ → ℕ
  pub opcode : ℕ
  pub payload_buf : Bytes
  pub down : Down

-- The generator is seeded anew; then the upper layer is initialized.
abbrev pub init : (ℕ → ℕ) → Framing → Framing
init seeded f = record f { rng = seeded }

-- One turn of the loop of `consume`: it returns, or goes on with the rest of the buffer after a frame
-- of a number of bytes.
pub data Round (U : Type 0) : Type 0 where
  done : Consumed → U → Framing → Round U
  again : ℕ → Bytes → U → Framing → Round U

-- The masking key of a frame that is sent.
abbrev pub next_key : Framing → ℕ
next_key f = if f.mask_outgoing_frames then f.rng 0 % 2 ^ 32 else 0

abbrev pub draw : Framing → Framing
draw f = if f.mask_outgoing_frames then record f { rng = λ i. f.rng (suc i) } else f

abbrev pub fail : {U : Type 0} → String → U → Framing → Round U
fail text u f =
    done failed u (record f { down = abort_reason (make_error runtime_error text) f.down })

abbrev is_empty : Bytes → Bool
is_empty [] = true
is_empty (b ∷ bs) = false

abbrev pub advance : {U : Type 0} → ℕ → Bytes → U → Framing → Round U
advance frame_size rest u f =
    if is_empty rest
    then done (taken frame_size) u (record f { down = configure_read (up_to 2048) f.down })
    else again frame_size rest u f

abbrev pub handled : {U : Type 0} → ℕ → Bytes → Bool × U × Framing → Round U
handled frame_size rest (ok, u, f) = if ok then advance frame_size rest u f else done failed u f

-- The end of a fragmented message clears what was gathered.
abbrev pub handled_last : {U : Type 0} → ℕ → Bytes → Bool × U × Framing → Round U
handled_last frame_size rest (ok, u, f) =
    if ok
    then advance frame_size rest u (record f { opcode = nil_code; payload_buf = [] })
    else done failed u f

abbrev pub add_taken : ℕ → Consumed → Consumed
add_taken consumed (taken n) = taken (consumed + n)
add_taken consumed failed = failed
add_taken consumed stuck = stuck

module _ ⦃net : NetworkOrder⦄ where
  -- The lines that ship_pong and ship_frame share.
  abbrev pub ship : ℕ → Bytes → Framing → Framing
  ship code payload f =
      let data' = if f.mask_outgoing_frames then mask_data (next_key f) payload else payload in
      let d = begin_output f.down in
      record (draw f) {
        down =
            end_output (record d {
              write_buf = assemble_frame code (next_key f) data' d.write_buf fin_flag;
            });
      }

  abbrev pub ship_pong : Bytes → Framing → Framing
  ship_pong payload f = ship pong payload f

  unfoldable pub end_binary_message : Framing → Framing
  end_binary_message f = record (ship binary_frame f.binary_buf f) { binary_buf = [] }

  unfoldable pub end_text_message : Framing → Framing
  end_text_message f = record (ship text_frame f.text_buf f) { text_buf = [] }

  abbrev pub unmasked : ℕ → Bytes → Bytes
  unmasked key payload = if key == 0 then payload else mask_data key payload

  -- The upper layer has a state `U` and two operations that read a message, and may call the layers
  -- below: the result tells whether it was at least 0.
  module _ {U : Type 0}
      (consume_text consume_binary : Bytes → U → Framing → Bool × U × Framing) where
    unfoldable pub handle : ℕ → Bytes → U → Framing → Bool × U × Framing
    handle opcode payload u f =
        if opcode == text_frame
        then consume_text payload u f
        else if opcode == binary_frame
        then consume_binary payload u f
        else if opcode == connection_close
        then (false, u, record f { down = abort_reason (make_error connection_closed "") f.down })
        else if opcode == ping
        then (true, u, ship_pong payload f)
        else if opcode == pong
        then (true, u, f)
        else (false, u, f)

    abbrev pub last_frame : FrameHeader → Bytes → ℕ → Bytes → U → Framing → Round U
    last_frame hdr payload frame_size rest u f =
        let gathered = f.payload_buf ++ payload in
        if f.opcode == nil_code
        then handled frame_size rest (handle hdr.opcode payload u f)
        else if not (hdr.opcode == continuation_frame)
        then fail "invalid WebSocket frame (expected a continuation frame)" u f
        else if ltb max_frame_size (length f.payload_buf + hdr.payload_len)
        then fail "fragmented payload exceeds maximum size" u f
        else handled_last frame_size rest
            (handle f.opcode gathered u (record f { payload_buf = gathered }))

    abbrev pub part_frame : FrameHeader → Bytes → ℕ → Bytes → U → Framing → Round U
    part_frame hdr payload frame_size rest u f =
        let gathered = f.payload_buf ++ payload in
        if f.opcode == nil_code
        then (if hdr.opcode == continuation_frame
            then fail "invalid WebSocket continuation frame (no prior opcode)" u f
            else advance frame_size rest u
                (record f { opcode = hdr.opcode; payload_buf = gathered }))
        else if not (hdr.opcode == continuation_frame)
        then fail "expected a continuation frame" u f
        else if ltb max_frame_size (length f.payload_buf + hdr.payload_len)
        then fail "fragmented payload exceeds maximum size" u f
        else advance frame_size rest u (record f { payload_buf = gathered })

    abbrev pub with_header : ℕ → FrameHeader → Bytes → U → Framing → Round U
    with_header hdr_bytes hdr buffer u f =
        let frame_size = hdr_bytes + hdr.payload_len in
        let payload = unmasked hdr.mask_key (take hdr.payload_len (drop hdr_bytes buffer)) in
        let rest = drop frame_size buffer in
        if leb (max_frame_size - hdr_bytes) hdr.payload_len
        then fail "WebSocket frame too large" u f
        else if ltb (length buffer) frame_size
        then done (taken 0) u (record f { down = configure_read (exactly frame_size) f.down })
        else if hdr.fin
        then last_frame hdr payload frame_size rest u f
        else part_frame hdr payload frame_size rest u f

    abbrev pub react : Bytes → U → Framing → Decoded → Round U
    react buffer u f invalid = fail "invalid WebSocket frame header" u f
    react buffer u f incomplete =
        done (taken 0) u (record f { down = configure_read (up_to 2048) f.down })
    react buffer u f (decoded hdr_bytes hdr) = with_header hdr_bytes hdr buffer u f

    unfoldable pub round : Bytes → U → Framing → Round U
    unfolding handle
    round buffer u f = react buffer u f (decode_header buffer)

    pub consume_loop : ℕ → Bytes → ℕ → U → Framing → Consumed × U × Framing
    unfolding round
    consume_loop zero buffer consumed u f = (stuck, u, f)
    consume_loop (suc fuel) buffer consumed u f = elim (round buffer u f) [
      | done r u' f' ↦ (add_taken consumed r, u', f')
      | again frame_size rest u' f' ↦ consume_loop fuel rest (consumed + frame_size) u' f'
    ]

    -- A frame has two bytes at least.
    unfoldable pub consume : Bytes → U → Framing → Consumed × U × Framing
    unfolding consume_loop
    consume input u f = consume_loop (suc (length input)) input 0 u f
