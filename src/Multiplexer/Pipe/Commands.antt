-- ===== src/Multiplexer/Pipe/Commands.antt =====
-- The commands that go through the pipe, in whatever pieces they are read.
use incubator.Prelude.{
  ℕ, suc, ◌+◌, ◌^◌, ◌≤◌, ◌<◌, ◌≡◌, ◌≢◌, refl, sym, ap, subst, ◌∙◌, arith, Bool, true, false,
  Bool-cases, inl, inr, ◌==◌, ==_iff, if◌then◌else◌, List, [], ◌∷◌, ◌++◌, append-nil, append_assoc,
  length, length-append, take, drop, take_prefix, drop_prefix,
}
use incubator.Bytes.{Bytes}
use incubator.StreamTransport.{Received, received, read_would_block, read_closed, read_failed}
use incubator.Multiplexer.{Multiplexer, register_reading, register_writing}
use incubator.Multiplexer.Control.{shutdown}
use incubator.Multiplexer.Pipe.{
  Pointers, Pipe, message, init, released, dispatch, absorb, handle_read_event,
}
use incubator.Multiplexer.Pipe.Written.{
  Command, render, write_all, AreCommands, written, pieces, FitsBuffer,
}

module _ {U : Type 0} (init_manager : ℕ → U → Multiplexer → U × Multiplexer) (release : ℕ → U → U)
    (pointers : Pointers) where
  -- What the calls are, by their codes.
  abbrev effects : List (ℕ × (ℕ → U × Multiplexer → U × Multiplexer))
  effects =
      (0, λ mgr s. (s.0, register_reading mgr s.1))
      ∷ (1, λ mgr s. (s.0, register_writing mgr s.1))
      ∷ (2, init init_manager release)
      ∷ (4, λ mgr s. (s.0, shutdown s.1))
      ∷ []

  -- Any other code has no effect.
  abbrev effect_of :
      List (ℕ × (ℕ → U × Multiplexer → U × Multiplexer)) → ℕ → ℕ → U × Multiplexer → U × Multiplexer
  effect_of [] opcode mgr s = s
  effect_of ((code, effect) ∷ more) opcode mgr s =
      if opcode == code then effect mgr s else effect_of more opcode mgr s

  -- The calls in the thread of the multiplexer, each of which gives the reference to its manager up
  -- at its end.
  abbrev pub call_all : List Command → U × Multiplexer → U × Multiplexer
  call_all [] s = s
  call_all ((opcode, mgr) ∷ cs) s =
      call_all cs (released init_manager release mgr (effect_of effects opcode mgr s))

  abbrev dispatch_all : List Command → U × Multiplexer → U × Multiplexer
  dispatch_all [] s = s
  dispatch_all ((opcode, mgr) ∷ cs) s = dispatch_all cs (dispatch init_manager release opcode mgr s)

  dispatch-released :
      (opcode mgr : ℕ) (s : U × Multiplexer)
      → dispatch init_manager release opcode mgr s
        ≡ released init_manager release mgr (effect_of effects opcode mgr s)
  unfolding dispatch
  dispatch-released opcode mgr s = refl

  dispatch_all-call_all :
      (cs : List Command) (s : U × Multiplexer) → dispatch_all cs s ≡ call_all cs s
  dispatch_all-call_all [] s = refl
  dispatch_all-call_all ((opcode, mgr) ∷ cs) s =
      dispatch_all-call_all cs (dispatch init_manager release opcode mgr s)
      ∙ ap (call_all cs) (dispatch-released opcode mgr s)

  absorbed :
      (opcode mgr : ℕ) (buf : Bytes) (s : U × Multiplexer)
      → mgr < 256 ^ pointers.size
      → buf ≡ message pointers opcode mgr
      → absorb init_manager release pointers buf s
        ≡ ([], dispatch init_manager release opcode mgr s)
  unfolding absorb
  absorbed opcode mgr buf s h e =
      ap (λ (t : Bytes). absorb init_manager release pointers t s) e
      ∙ rw (pointers.length-encode mgr, pointers.decode-encode mgr h, ==_refl (suc pointers.size))
          refl
    where
      ==_refl : (n : ℕ) → (n == n) ≡ true
      ==_refl n = ground arith

  kept :
      (buf : Bytes) (s : U × Multiplexer)
      → (length buf == suc pointers.size) ≡ false
      → absorb init_manager release pointers buf s ≡ (buf, s)
  unfolding absorb
  kept buf s h = rw h refl

  read_step :
      (bs buf buf' : Bytes) (reads : List Received) (s s' : U × Multiplexer)
      → absorb init_manager release pointers (buf ++ bs) s ≡ (buf', s')
      → handle_read_event init_manager release pointers (received bs ∷ reads) buf s
        ≡ handle_read_event init_manager release pointers reads buf' s'
  unfolding handle_read_event
  read_step bs buf buf' reads s s' e =
      ap (λ next. handle_read_event init_manager release pointers reads next.0 next.1) e

  read_end :
      (buf : Bytes) (reads : List Received) (s : U × Multiplexer)
      → handle_read_event init_manager release pointers (read_would_block ∷ reads) buf s
        ≡ (true, buf, s)
  unfolding handle_read_event
  read_end buf reads s = refl

  message_size : (opcode mgr : ℕ) → length (message pointers opcode mgr) ≡ suc pointers.size
  message_size opcode mgr = ap suc (pointers.length-encode mgr)

  -- A text that is short of a message is no message.
  short :
      (buf part more : Bytes) (cs : List Command)
      → length buf < suc pointers.size
      → buf ≡ render pointers cs ++ part
      → (cs ≡ []) × (buf ≡ part)
  short buf part more [] h e = (refl, e)
  short buf part more ((opcode, mgr) ∷ cs) h e = absurd (
      omega (
        arith,
        ap (length {A = ℕ}) e,
        message_size opcode mgr,
        length-append {0} (message pointers opcode mgr ++ render pointers cs) part,
        length-append {0} (message pointers opcode mgr) (render pointers cs),
      ))

  -- A full buffer in front of the rest is the first message.
  first_message :
      (buf rest part : Bytes) (opcode mgr : ℕ) (cs : List Command)
      → length buf ≡ suc pointers.size
      → buf ++ rest ≡ (message pointers opcode mgr ++ render pointers cs) ++ part
      → (buf ≡ message pointers opcode mgr) × (rest ≡ render pointers cs ++ part)
  first_message buf rest part opcode mgr cs n e =
      let joined : buf ++ rest ≡ message pointers opcode mgr ++ (render pointers cs ++ part) =
        e ∙ append_assoc (message pointers opcode mgr) (render pointers cs) part in
      (
        sym (take_prefix buf rest (suc pointers.size) n)
            ∙ ap (take (suc pointers.size)) joined
            ∙ take_prefix (message pointers opcode mgr) (render pointers cs ++ part)
                (suc pointers.size) (message_size opcode mgr),
        sym (drop_prefix buf rest (suc pointers.size) n)
            ∙ ap (drop (suc pointers.size)) joined
            ∙ drop_prefix (message pointers opcode mgr) (render pointers cs ++ part)
                (suc pointers.size) (message_size opcode mgr),
      )

  full_no_command :
      (buf rest part : Bytes)
      → length buf ≡ suc pointers.size
      → length part < suc pointers.size
      → buf ++ rest ≢ part
  full_no_command buf rest part n h e =
      absurd (omega (arith, ap (length {A = ℕ}) e, length-append {0} buf rest))

  roomy :
      (buf bs : Bytes)
      → length buf + length bs ≤ suc pointers.size
      → (length (buf ++ bs) == suc pointers.size) ≡ false
      → length (buf ++ bs) < suc pointers.size
  roomy buf bs h room = ground (arith, length-append {0} buf bs)

  fits_later :
      (reads : List Received) (buf bs : Bytes) (full : Bool)
      → (length (buf ++ bs) == suc pointers.size) ≡ full
      → FitsBuffer pointers.size
          (if length buf + length bs == suc pointers.size then 0 else length buf + length bs)
          reads
      → FitsBuffer pointers.size (if full then 0 else length (buf ++ bs)) reads
  fits_later reads buf bs full e f =
      subst (λ (b : Bool). FitsBuffer pointers.size (if b then 0 else length (buf ++ bs)) reads) e
        (subst (λ (k : ℕ). FitsBuffer pointers.size (if k == suc pointers.size then 0 else k) reads)
          (sym (length-append buf bs)) f)

  -- Whatever pieces the bytes come in.
  replayed :
      (reads : List Received) (cs : List Command) (buf part : Bytes) (s : U × Multiplexer)
      → length buf < suc pointers.size
      → length part < suc pointers.size
      → FitsBuffer pointers.size (length buf) reads
      → AreCommands pointers cs
      → buf ++ pieces reads ≡ render pointers cs ++ part
      → handle_read_event init_manager release pointers reads buf s
        ≡ (true, part, dispatch_all cs s)
  replayed (read_would_block ∷ reads) cs buf part s hb hp f c e =
      let (none_left, same) = short buf part [] cs hb (sym (append-nil buf) ∙ e) in
      rw (none_left, same) (read_end part reads s)
  replayed (received bs ∷ reads) [] buf part s hb hp f c e =
      elim (Bool-cases (length (buf ++ bs) == suc pointers.size)) [
        | inl full ↦ absurd (
            full_no_command (buf ++ bs) (pieces reads) part ((==_iff _ _).0 full) hp
              (append_assoc buf bs (pieces reads) ∙ e))
        | inr room ↦
            read_step bs buf (buf ++ bs) reads s s (kept (buf ++ bs) s room)
            ∙ replayed reads [] (buf ++ bs) part s (roomy buf bs f.1 room) hp
                (fits_later reads buf bs false room f.2) c (append_assoc buf bs (pieces reads) ∙ e)
      ]
  replayed (received bs ∷ reads) ((opcode, mgr) ∷ cs) buf part s hb hp f c e =
      let joined = append_assoc buf bs (pieces reads) ∙ e in
      elim (Bool-cases (length (buf ++ bs) == suc pointers.size)) [
        | inl full ↦
            let (whole, rest) =
              first_message (buf ++ bs) (pieces reads) part opcode mgr cs ((==_iff _ _).0 full)
                joined in
            read_step bs buf [] reads s (dispatch init_manager release opcode mgr s)
              (absorbed opcode mgr (buf ++ bs) s c.0 whole)
            ∙ replayed reads cs [] part (dispatch init_manager release opcode mgr s) (omega arith)
                hp (fits_later reads buf bs true full f.2) c.1 rest
        | inr room ↦
            read_step bs buf (buf ++ bs) reads s s (kept (buf ++ bs) s room)
            ∙ replayed reads ((opcode, mgr) ∷ cs) (buf ++ bs) part s (roomy buf bs f.1 room) hp
                (fits_later reads buf bs false room f.2) c joined
      ]
  replayed [] cs buf part s hb hp f c e = absurd f
  replayed (read_closed ∷ reads) cs buf part s hb hp f c e = absurd f
  replayed (read_failed ∷ reads) cs buf part s hb hp f c e = absurd f

  -- The calls of other threads, made while the pipe takes them, are made in the thread of the
  -- multiplexer in the same order, however the reads cut the bytes into pieces: 0 registers the manager
  -- for reading, 1 for writing, 2 initializes it, 4 shuts the multiplexer down, and any other code has
  -- no effect; after each, the reference to the manager that came with it is given up.
  pub calls_replayed :
      (cs : List Command) (reads : List Received) (writer : Multiplexer) (p : Pipe)
      (s : U × Multiplexer)
      → AreCommands pointers cs
      → writer.pipe_open ≡ true
      → p.bytes ≡ []
      → FitsBuffer pointers.size 0 reads
      → pieces reads ≡ (write_all pointers writer cs p).bytes
      → handle_read_event init_manager release pointers reads [] s ≡ (true, [], call_all cs s)
  calls_replayed cs reads writer p s c on empty f e =
      replayed reads cs [] [] s (omega arith) (omega arith) f c (
        e
        ∙ written pointers writer cs p on
        ∙ ap (λ (t : Bytes). t ++ render pointers cs) empty
        ∙ sym (append-nil (render pointers cs)))
      ∙ ap (λ t. (true, [], t)) (dispatch_all-call_all cs s)
