-- ===== src/StreamTransport.antt =====
-- caf/net/stream_transport.hpp: reading from and writing to a stream socket.
pub mod Buffer
pub mod Output
pub mod Excess
mod StreamTests
use incubator.Prelude.{
  ℕ, zero, suc, ◌+◌, ◌-◌, Bool, true, false, not, ◌&&◌, ltb, leb, ◌==◌, if◌then◌else◌, Option, none,
  some, List, [], ◌∷◌, ◌++◌, length, take, drop, ◌⊎◌, inl, inr,
}
use Prim.Native.String.{String}
use incubator.Bytes.{Bytes, copy_to, resize}
use incubator.Net.Error.{
  Error, Code, make_error, or_reason, runtime_error, socket_operation_failed, socket_disconnected,
}
use incubator.Net.Down.{Down, abort_reason}

-- Member variables, less the upper layer. Those that the upper layer can reach are in `down`.
pub record Transport : Type 0 where
  pub down : Down
  pub max_consecutive_reads : ℕ
  pub offset : ℕ
  pub delta_offset : ℕ
  pub read_buf : Bytes

-- What `read` on the socket gives: bytes, 0 for a closed connection, or an error, which may be
-- temporary.
pub data Received : Type 0 where
  received : Bytes → Received
  read_closed read_would_block read_failed : Received

-- What `write` on the socket gives: the number of bytes that it took.
pub data Sent : Type 0 where
  sent : ℕ → Sent
  write_closed write_would_block write_failed : Sent

-- The socket, with a state `S` of the operating system.
pub record Socket (S : Type 0) : Type 0 where
  pub receive : ℕ → S → Received × S
  pub send : Bytes → S → Sent × S

-- The upper layer, with a state `U`. `consume` is given the bytes and the new ones among them, and
-- `none` stands for a negative result.
pub record Upper (U : Type 0) : Type 0 where
  pub consume : Bytes → Bytes → U → Down → Option ℕ × U × Down
  pub abort : Error → U → Down → U × Down
  pub prepare_send : U → Down → Bool × U × Down
  pub done_sending : U → Down → Bool × U × Down

-- One turn of the loop over the reads: it returns, or the next turn follows.
pub data Turn (U S : Type 0) : Type 0 where
  returns : Bool → Transport → U → S → Turn U S
  continues : Transport → U → S → Turn U S

abbrev pub is_empty : Bytes → Bool
is_empty [] = true
is_empty (b ∷ bs) = false

-- `if (read_buf_.size() != max_read_size_) if (offset_ < max_read_size_) read_buf_.resize(...)`
abbrev pub adjust : Transport → Transport
adjust t =
    if not (length t.read_buf == t.down.max_read_size) && ltb t.offset t.down.max_read_size
    then record t { read_buf = resize t.down.max_read_size t.read_buf }
    else t

-- The consumed bytes are shifted out of the buffer.
abbrev pub shift_out : ℕ → Transport → Transport
shift_out n t = record t {
  read_buf =
      if ltb n t.offset
      then copy_to 0 (take (t.offset - n) (drop n t.read_buf)) t.read_buf
      else t.read_buf;
  offset = t.offset - n;
  delta_offset = t.offset - n;
}

module _ {U S : Type 0} (upper : Upper U) (socket : Socket S) where
  abbrev aborted : Transport → S → U × Down → Bool × Transport × U × S
  aborted t s (u, d) = (false, record t { down = d }, u, s)

  -- `upper_layer_.abort(..., parent->abort_reason_or(...)); return false;`
  abbrev pub abort_or : Error → Transport → U → S → Bool × Transport × U × S
  abort_or e t u s =
      let reason = or_reason t.down.reason e in
      aborted t s (upper.abort reason u (abort_reason reason t.down))

  -- The lambda `fail`.
  abbrev pub fail : Error → Transport → U → S → Bool × Transport × U × S
  fail e t u s = aborted t s (upper.abort e u (abort_reason e t.down))

  abbrev pub as_turn : Bool × Transport × U × S → Turn U S
  as_turn (r, t, u, s) = returns r t u s

  -- More bytes are there than the upper layer asks for at a time.
  abbrev pub consumed_excess : ℕ → Transport → S → Option ℕ × U × Down → Turn U S
  consumed_excess old_max t s (none, u, d) =
      as_turn (abort_or (make_error runtime_error "") (record t { down = d }) u s)
  consumed_excess old_max t s (some zero, u, d) =
      if leb d.max_read_size old_max
      then as_turn (
          abort_or (make_error runtime_error "unable to make progress") (record t { down = d }) u s)
      else continues (record t { down = d }) u s
  consumed_excess old_max t s (some (suc n), u, d) = continues (record t { down = d }) u s

  abbrev pub consumed_bytes : Transport → S → Option ℕ × U × Down → Turn U S
  consumed_bytes t s (none, u, d) =
      as_turn (abort_or (make_error runtime_error "consumed < 0") (record t { down = d }) u s)
  consumed_bytes t s (some zero, u, d) = continues (adjust (record t { down = d })) u s
  consumed_bytes t s (some (suc n), u, d) =
      continues (adjust (shift_out (suc n) (record t { down = d }))) u s

  abbrev pub with_bytes : Transport → U → S → Turn U S
  with_bytes t u s =
      let bytes = take t.offset t.read_buf in
      if ltb t.offset t.down.min_read_size
      then continues t u s
      else consumed_bytes t s (upper.consume bytes (drop t.delta_offset bytes) u t.down)

  abbrev pub after_read : Transport → U → Received × S → Turn U S
  after_read t u (received bs, s) =
      with_bytes
        (record t { read_buf = copy_to t.offset bs t.read_buf; offset = t.offset + length bs }) u s
  after_read t u (read_would_block, s) = returns true t u s
  after_read t u (read_failed, s) = as_turn (fail (make_error socket_operation_failed "") t u s)
  after_read t u (read_closed, s) = as_turn (fail (make_error socket_disconnected "") t u s)

  unfoldable pub turn : Transport → U → S → Turn U S
  turn t u s =
      let old_max = t.down.max_read_size in
      let bytes = take old_max t.read_buf in
      if leb old_max t.offset
      then consumed_excess old_max t s (upper.consume bytes [] u t.down)
      else after_read t u (socket.receive (old_max - t.offset) s)

  unfoldable pub read_loop : ℕ → Transport → U → S → Bool × Transport × U × S
  unfolding turn
  read_loop zero t u s = (ltb 0 t.down.max_read_size, t, u, s)
  read_loop (suc reads) t u s = elim (turn t u s) [
    | returns r t' u' s' ↦ if t.down.max_read_size == 0 then (false, t, u, s) else (r, t', u', s')
    | continues t' u' s' ↦
        let rest = read_loop reads t' u' s' in
        if t.down.max_read_size == 0 then (false, t, u, s) else rest
  ]

  unfoldable pub handle_read_event : Transport → U → S → Bool × Transport × U × S
  unfolding read_loop
  handle_read_event t u s =
      let t' =
        if ltb (length t.read_buf) t.down.max_read_size
        then record t { read_buf = resize t.down.max_read_size t.read_buf }
        else t in
      read_loop t.max_consecutive_reads t' u s

  abbrev pub finished : Transport → S → Bool × U × Down → Bool × Transport × U × S
  finished t s (done, u, d) = (not done, record t { down = d }, u, s)

  abbrev pub after_write : Transport → U → Sent × S → Bool × Transport × U × S
  after_write t u (sent n, s) =
      let rest = drop n t.down.write_buf in
      let d = record t.down { write_buf = rest } in
      if is_empty rest
      then finished t s (upper.done_sending u d)
      else (true, record t { down = d }, u, s)
  after_write t u (write_would_block, s) = (true, t, u, s)
  after_write t u (write_failed, s) = fail (make_error socket_operation_failed "") t u s
  after_write t u (write_closed, s) = fail (make_error socket_disconnected "") t u s

  abbrev pub prepared : Transport → S → Bool × U × Down → Bool × Transport × U × S
  prepared t s (ok, u, d) =
      let t' = record t { down = d } in
      if ok
      then (if is_empty d.write_buf
          then finished t' s (upper.done_sending u d)
          else after_write t' u (socket.send d.write_buf s))
      else abort_or (make_error runtime_error "prepare_send failed") t' u s

  unfoldable pub handle_write_event : Transport → U → S → Bool × Transport × U × S
  handle_write_event t u s = prepared t s (upper.prepare_send u t.down)

  -- `init`, with the configured number of reads, the error of nodelay on a TCP socket, and what the
  -- socket gives as the size of its send buffer: an error, or the size.
  abbrev pub init :
      ℕ
      → Option Error
      → Error ⊎ ℕ
      → (U → Down → Option Error × U × Down)
      → Transport
      → U
      → Option Error × Transport × U
  init reads (some err) size start t u = (some err, record t { max_consecutive_reads = reads }, u)
  init reads none (inl err) start t u = (some err, record t { max_consecutive_reads = reads }, u)
  init reads none (inr size) start t u =
      let r = start u (record t.down { max_write_buf_size = size }) in
      (r.0, record t { max_consecutive_reads = reads; down = r.2 }, r.1)

  abbrev pub abort : Error → Transport → U → Transport × U
  abort e t u = let r = upper.abort e u t.down in (record t { down = r.1 }, r.0)
