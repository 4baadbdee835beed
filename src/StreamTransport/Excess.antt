-- ===== src/StreamTransport/Excess.antt =====
-- What a read event does with more pending bytes than the upper layer asks for.
use incubator.Prelude.{
  ℕ, zero, suc, ◌≤◌, ◌<◌, ◌≡◌, refl, ap, ◌∙◌, arith, true, false, ltb, leb, ◌==◌, some, [], length,
  take,
}
use incubator.Bytes.{Bytes}
use incubator.Net.Down.{Down}
use incubator.StreamTransport.{Transport, Socket, Upper, turn, read_loop, handle_read_event}

module _ {U : Type 0} (upper : Upper U) where
  -- The upper layer, after it was handed the same bytes a number of times.
  abbrev pub fed : ℕ → Bytes → U → Down → U × Down
  fed zero bs u d = (u, d)
  fed (suc n) bs u d = let r = upper.consume bs [] u d in fed n bs r.1 r.2

  -- The upper layer takes some of these bytes each time, and goes on to ask for as many.
  pub record TakesSome (size : ℕ) (bs : Bytes) : Type 0 where
    pub amount : U → Down → ℕ
    pub takes :
        (u : U) (d : Down)
        → d.max_read_size ≡ size
        → (upper.consume bs [] u d).0 ≡ some (suc (amount u d))
    pub asks :
        (u : U) (d : Down)
        → d.max_read_size ≡ size
        → (upper.consume bs [] u d).2.max_read_size ≡ size

module _ {U S : Type 0} (upper : Upper U) (socket : Socket S) where
  excess_loop :
      (reads : ℕ) (t : Transport) (u : U) (s : S) (size : ℕ) (bs : Bytes)
      → TakesSome upper size bs
      → t.down.max_read_size ≡ size
      → take size t.read_buf ≡ bs
      → 0 < size
      → size ≤ t.offset
      → read_loop upper socket reads t u s
        ≡ (let r = fed upper reads bs u t.down in (true, record t { down = r.1 }, r.0, s))
  unfolding read_loop turn
  excess_loop zero t u s size bs h e b pos full = rw asked refl
    where
      asked : ltb 0 t.down.max_read_size ≡ true
      asked = ground arith
  excess_loop (suc reads) t u s size bs h e b pos full =
      let r = upper.consume bs [] u t.down in
      rw
        (
          at_least,
          ap (λ (n : ℕ). take n t.read_buf) e ∙ b,
          h.takes u t.down e,
          nonzero,
          read_loop,
          turn,
        )
        (excess_loop reads (record t { down = r.2 }) r.1 s size bs h (h.asks u t.down e) b pos full)
    where
      at_least : leb t.down.max_read_size t.offset ≡ true
      at_least = ground arith

      nonzero : (t.down.max_read_size == 0) ≡ false
      nonzero = ground arith

  -- Where the buffer holds as many pending bytes as the upper layer asks for, or more, and the upper
  -- layer takes some of them each time and goes on to ask for as many: a read event hands it the same
  -- bytes as often as the transport may read in a row, reads nothing from the socket, and keeps the
  -- buffer and the number of pending bytes as they were, as if none was taken.
  pub excess_handed_again :
      (t : Transport) (u : U) (s : S)
      → TakesSome upper t.down.max_read_size (take t.down.max_read_size t.read_buf)
      → 0 < t.down.max_read_size
      → t.down.max_read_size ≤ t.offset
      → t.offset ≤ length t.read_buf
      → handle_read_event upper socket t u s ≡ (
          let r =
            fed upper t.max_consecutive_reads (take t.down.max_read_size t.read_buf) u t.down in
          (true, record t { down = r.1 }, r.0, s))
  unfolding handle_read_event
  excess_handed_again t u s h pos full there =
      rw (no_resize, handle_read_event)
        (excess_loop t.max_consecutive_reads t u s t.down.max_read_size
          (take t.down.max_read_size t.read_buf) h refl refl pos full)
    where
      no_resize : ltb (length t.read_buf) t.down.max_read_size ≡ false
      no_resize = ground arith
