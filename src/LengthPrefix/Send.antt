-- ===== src/LengthPrefix/Send.antt =====
-- What sending a message puts into the output, and when it is refused.
use Prim.Native.String.{String}
use native.Mathlib.Nat.{mod-eq_of_lt}
use incubator.Prelude.{
  ℕ, ◌+◌, ◌-◌, ◌^◌, ◌≤◌, ◌<◌, ◌≡◌, refl, ap, ◌∙◌, arith, true, false, ◌&&◌, some, lt→ltb, ◌⊎◌, ltb,
  ◌==◌, if◌then◌else◌, ◌++◌, length, replicate, drop, length-append, append_assoc, Bool-cases, inl,
  inr,
}
use incubator.Bytes.{Bytes, copy_to, copy_to-prefix, NetworkOrder, encode}
use incubator.Net.Error.{make_error, runtime_error}
use incubator.Net.Down.{Down, begin_output, abort_reason}
use incubator.LengthPrefix.{Framing, max_message_length, begin_message, append_payload, end_message}

module _ ⦃net : NetworkOrder⦄ where
  -- A message on the wire.
  abbrev pub frame : Bytes → Bytes
  frame payload = encode 4 (length payload) ++ payload

  write_buf-begin_output : (d : Down) → (begin_output d).write_buf ≡ d.write_buf
  write_buf-begin_output d = ground arith

  -- Overwriting the placeholder.
  patch :
      (front payload prefix : Bytes)
      → length prefix ≡ 4
      → copy_to (length front) prefix ((front ++ replicate 4 0) ++ payload)
        ≡ front ++ (prefix ++ payload)
  patch front payload prefix e =
      ap (copy_to (length front) prefix) (append_assoc front (replicate 4 0) payload)
      ∙ copy_to-prefix front prefix (replicate 4 0 ++ payload) (length front) refl
      ∙ ap (λ k. front ++ (prefix ++ k)) (ap (λ (n : ℕ). drop n (replicate 4 0 ++ payload)) e)

  sent_size :
      (front payload : Bytes)
      → length ((front ++ replicate 4 0) ++ payload) - (length front + 4) ≡ length payload
  sent_size front payload =
      omega
        (arith, length-append (front ++ replicate 4 0) payload, length-append front (replicate 4 0))

  too_long : ℕ → String
  too_long n = if n == 0 then "logic error: message of size 0" else "maximum message size exceeded"

  -- `end_message` where the buffer ends in a placeholder and a payload.
  end_message_at :
      (m u : ℕ) (d : Down) (front payload : Bytes)
      → m ≡ length front
      → d.write_buf ≡ (front ++ replicate 4 0) ++ payload
      → end_message (record { message_offset = m; receive_buf_upper_bound = u; down = d }) ≡ (
          if ltb 0 (length payload) && ltb (length payload) max_message_length
          then (
            true,
            record {
              message_offset = m;
              receive_buf_upper_bound = u;
              down = record d { write_buf = front ++ frame payload };
            },
          )
          else (
            false,
            record {
              message_offset = m;
              receive_buf_upper_bound = u;
              down = abort_reason (make_error runtime_error (too_long (length payload))) d;
            },
          ))
  unfolding end_message too_long
  end_message_at m u d front payload em ew =
      elim (Bool-cases (ltb 0 (length payload) && ltb (length payload) max_message_length)) [
        | inl fits ↦ rw (size, fits, mod-eq_of_lt (small fits), patched)
        | inr over ↦ rw (size, over, same_text)
      ]
    where
      size : length d.write_buf - (m + 4) ≡ length payload
      size = rw (em, ew) (sent_size front payload)

      small :
          (ltb 0 (length payload) && ltb (length payload) max_message_length) ≡ true
          → length payload < 2 ^ 32
      small e = ground arith

      patched : copy_to m (encode 4 (length payload)) d.write_buf ≡ front ++ frame payload
      patched =
          rw (em, ew)
            (patch front payload (encode 4 (length payload)) (net.length-encode 4 (length payload)))

      level : length d.write_buf ≡ m + 4 + length payload
      level =
          rw (em, ew)
            (omega (
              arith,
              length-append (front ++ replicate 4 0) payload,
              length-append front (replicate 4 0),
            ))

      same_text : (length d.write_buf == m + 4) ≡ (length payload == 0)
      same_text = ground (arith, level)

  begun :
      (f : Framing) (payload : Bytes)
      → (append_payload payload (begin_message f)).down.write_buf
        ≡ (f.down.write_buf ++ replicate 4 0) ++ payload
  unfolding begin_message
  begun f payload = ap (λ b. (b ++ replicate 4 0) ++ payload) (write_buf-begin_output f.down)

  begun_offset : (f : Framing) → (begin_message f).message_offset ≡ length f.down.write_buf
  unfolding begin_message
  begun_offset f = ap length (write_buf-begin_output f.down)

  begun_reason : (f : Framing) → (begin_message f).down.reason ≡ f.down.reason
  unfolding begin_message
  begun_reason f = ground arith

  finished :
      (f : Framing) (payload : Bytes)
      → end_message (append_payload payload (begin_message f)) ≡ (
          if ltb 0 (length payload) && ltb (length payload) max_message_length
          then (
            true,
            record (begin_message f) {
              down = record (begin_message f).down {
                write_buf = f.down.write_buf ++ frame payload;
              };
            },
          )
          else (
            false,
            record (begin_message f) {
              down =
                  abort_reason
                    (make_error runtime_error (too_long (length payload)))
                    (append_payload payload (begin_message f)).down;
            },
          ))
  finished f payload =
      end_message_at (begin_message f).message_offset (begin_message f).receive_buf_upper_bound
        (append_payload payload (begin_message f)).down f.down.write_buf payload (begun_offset f)
        (begun f payload)

  -- A message of 1 byte to below the maximum is accepted: the output grows by its frame, a length
  -- prefix in network order and the payload, and the abort reason is as before.
  pub end_message_sends :
      (f : Framing) (payload : Bytes)
      → 0 < length payload
      → length payload < max_message_length
      → ((end_message (append_payload payload (begin_message f))).0 ≡ true)
        × ((end_message (append_payload payload (begin_message f))).1.down.write_buf
            ≡ f.down.write_buf ++ frame payload)
        × ((end_message (append_payload payload (begin_message f))).1.down.reason ≡ f.down.reason)
  end_message_sends f payload h0 h1 =
      rw
        (
          finished f payload,
          lt→ltb 0 (length payload) h0,
          lt→ltb (length payload) max_message_length h1,
        )
        (refl, refl, begun_reason f)

  -- An empty message, and one of the maximal size or more, is refused with an error, whose text
  -- tells the two apart.
  pub end_message_refuses :
      (f : Framing) (payload : Bytes)
      → (length payload ≡ 0) ⊎ (max_message_length ≤ length payload)
      → ((end_message (append_payload payload (begin_message f))).0 ≡ false)
        × ((end_message (append_payload payload (begin_message f))).1.down.reason
            ≡ some (
                make_error runtime_error (
                  if length payload == 0
                  then "logic error: message of size 0"
                  else "maximum message size exceeded")))
  unfolding too_long
  end_message_refuses f payload h = rw (finished f payload, refused) (refl, refl)
    where
      refused : (ltb 0 (length payload) && ltb (length payload) max_message_length) ≡ false
      refused = ground arith
