-- ===== src/StreamTransport/Buffer.antt =====
-- What the buffer for incoming bytes holds from one read to the next.
use incubator.Prelude.{
  ℕ, zero, suc, ◌+◌, ◌-◌, ◌≤◌, ◌<◌, ◌≡◌, sym, ap, subst, ◌∙◌, arith, true, false, not, ◌&&◌,
  Bool-cases, inl, inr, ltb, leb, ltb→le, le→ltb, ◌==◌, some, ◌++◌, length, take, drop, replicate,
  append_assoc, length-append, length-take, length-drop, take_prefix, take-append_le, take-take,
  drop-take,
}
use incubator.Bytes.{Bytes, copy_to}
use incubator.Net.Down.{Down}
use incubator.StreamTransport.{
  Transport, received, Socket, Upper, Turn, returns, continues, adjust, shift_out, consumed_bytes,
  turn,
}

-- The bytes that were received and not consumed.
abbrev pub pending : Transport → Bytes
pending t = take t.offset t.read_buf

take-copy_to :
    (off : ℕ) (bs buf : Bytes)
    → off ≤ length buf
    → take (off + length bs) (copy_to off bs buf) ≡ take off buf ++ bs
take-copy_to off bs buf h =
    ap (take (off + length bs)) (sym (append_assoc (take off buf) bs (drop (off + length bs) buf)))
    ∙ take_prefix (take off buf ++ bs) (drop (off + length bs) buf) (off + length bs)
        (omega (arith, length-append (take off buf) bs, length-take off buf))

length-copy_to :
    (off : ℕ) (bs buf : Bytes)
    → off + length bs ≤ length buf
    → length (copy_to off bs buf) ≡ length buf
length-copy_to off bs buf h = omega (
  arith,
  length-append (take off buf) (bs ++ drop (off + length bs) buf),
  length-append bs (drop (off + length bs) buf),
  length-take off buf,
  length-drop (off + length bs) buf,
)

-- Shifting keeps what was not consumed.
pending-shift_out :
    (n : ℕ) (t : Transport)
    → n ≤ t.offset
    → t.offset ≤ length t.read_buf
    → pending (shift_out n t) ≡ drop n (pending t)
pending-shift_out n t hn ho = elim (Bool-cases (ltb n t.offset)) [
  | inl some_left ↦ rw some_left (
      take_prefix kept (drop (0 + length kept) t.read_buf) (t.offset - n)
        (omega (arith, length-take (t.offset - n) (drop n t.read_buf), length-drop n t.read_buf))
      ∙ sym (drop-take n t.offset (t.offset - n) t.read_buf (omega arith)))
  | inr none_left ↦ rw none_left (
      ap (λ (m : ℕ). take m t.read_buf) (nothing none_left)
      ∙ ap (λ (m : ℕ). take m (drop n t.read_buf)) (sym (nothing none_left))
      ∙ sym (drop-take n t.offset (t.offset - n) t.read_buf (omega arith)))
]
  where
    kept : Bytes
    kept = take (t.offset - n) (drop n t.read_buf)

    nothing : ltb n t.offset ≡ false → t.offset - n ≡ 0
    nothing e = omega (arith, ltb→le _ _ e)

-- Making the buffer larger or smaller keeps it, too.
pending-adjust : (t : Transport) → t.offset ≤ length t.read_buf → pending (adjust t) ≡ pending t
pending-adjust t h =
    elim (Bool-cases
      (not (length t.read_buf == t.down.max_read_size) && ltb t.offset t.down.max_read_size)) [
        | inl change ↦ rw change (
            take-take t.offset t.down.max_read_size (t.read_buf ++ replicate t.down.max_read_size 0)
              (small change)
            ∙ take-append_le t.offset t.read_buf (replicate t.down.max_read_size 0) h)
        | inr keep ↦ rw keep
      ]
  where
    small :
        (not (length t.read_buf == t.down.max_read_size) && ltb t.offset t.down.max_read_size)
          ≡ true
        → t.offset ≤ t.down.max_read_size
    small e = ground (arith, e)

offset-adjust : (t : Transport) → (adjust t).offset ≡ t.offset
offset-adjust t = ground arith

module _ {U S : Type 0} (upper : Upper U) (socket : Socket S) where
  -- The turn goes on with a transport that keeps the pending bytes less the consumed ones.
  abbrev pub KeepsRest : Turn U S → Bytes → ℕ → Down → Type 0
  KeepsRest (returns r t u s) rest size d = ⊥
  KeepsRest (continues t u s) rest size d = (pending t ≡ rest) × (t.offset ≡ size) × (t.down ≡ d)

  down-adjust : (t : Transport) → (adjust t).down ≡ t.down
  down-adjust t = ground arith

  length-shift_out :
      (n : ℕ) (t : Transport)
      → n ≤ t.offset
      → t.offset ≤ length t.read_buf
      → t.offset - n ≤ length (shift_out n t).read_buf
  length-shift_out n t hn ho = elim (Bool-cases (ltb n t.offset)) [
    | inl some_left ↦ rw some_left (
        omega (
          arith,
          length-append (take (t.offset - n) (drop n t.read_buf))
              (drop (0 + length (take (t.offset - n) (drop n t.read_buf))) t.read_buf),
          length-take (t.offset - n) (drop n t.read_buf),
          length-drop n t.read_buf,
        ))
    | inr none_left ↦ rw none_left (omega arith)
  ]

  consumed-KeepsRest :
      (t : Transport) (s : S) (n : ℕ) (u : U) (d : Down)
      → t.offset ≤ length t.read_buf
      → n ≤ t.offset
      → KeepsRest
          (consumed_bytes upper socket t s (some n, u, d))
          (drop n (pending t))
          (t.offset - n)
          d
  consumed-KeepsRest t s zero u d ho hn =
      let t' = record t { down = d } in
      (pending-adjust t' ho, offset-adjust t' ∙ omega arith, down-adjust t')
  consumed-KeepsRest t s (suc n) u d ho hn =
      let t' = record t { down = d } in
      (
        pending-adjust (shift_out (suc n) t') (length-shift_out (suc n) t' hn ho)
            ∙ pending-shift_out (suc n) t' hn ho,
        offset-adjust (shift_out (suc n) t'),
        down-adjust (shift_out (suc n) t'),
      )

  -- A turn that reads: where the buffer has room for what is asked for, the socket gives no more than
  -- that, the bytes are as many as the upper layer wants at least, and it takes some of them, the
  -- upper layer is handed all bytes that are pending, the new ones last; what it does not take stays
  -- pending, in order, and nothing else is.
  pub turn-KeepsRest :
      (t : Transport) (u u' : U) (s s' : S) (bs : Bytes) (n : ℕ) (d : Down)
      → t.down.max_read_size ≤ length t.read_buf
      → t.offset < t.down.max_read_size
      → socket.receive (t.down.max_read_size - t.offset) s ≡ (received bs, s')
      → length bs ≤ t.down.max_read_size - t.offset
      → t.down.min_read_size ≤ t.offset + length bs
      → upper.consume (pending t ++ bs) (drop t.delta_offset (pending t ++ bs)) u t.down
        ≡ (some n, u', d)
      → n ≤ t.offset + length bs
      → KeepsRest (turn upper socket t u s) (drop n (pending t ++ bs)) (t.offset + length bs - n) d
  unfolding turn
  turn-KeepsRest t u u' s s' bs n d room lt e fits enough c hn =
      rw (lt→leb t.down.max_read_size t.offset lt, e, le→ltb _ _ enough, whole, c)
        (subst
          (λ b.
            KeepsRest (consumed_bytes upper socket filled s' (some n, u', d)) (drop n b)
              (t.offset + length bs - n) d)
          whole (consumed-KeepsRest filled s' n u' d size hn))
    where
      filled : Transport
      filled = record t { read_buf = copy_to t.offset bs t.read_buf; offset = t.offset + length bs }

      whole : take (t.offset + length bs) (copy_to t.offset bs t.read_buf) ≡ pending t ++ bs
      whole = take-copy_to t.offset bs t.read_buf (omega arith)

      size : t.offset + length bs ≤ length (copy_to t.offset bs t.read_buf)
      size = omega (arith, length-copy_to t.offset bs t.read_buf)

      lt→leb : (m k : ℕ) → k < m → leb m k ≡ false
      lt→leb m k h = ground arith
