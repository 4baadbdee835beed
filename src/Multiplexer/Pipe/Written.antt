-- ===== src/Multiplexer/Pipe/Written.antt =====
-- What other threads write to the pipe, and the pieces in which it is read.
use incubator.Prelude.{
  ℕ, suc, ◌+◌, ◌^◌, ◌≤◌, ◌<◌, ◌≡◌, refl, sym, ap, ◌∙◌, true, Bool-cases, inl, inr, ◌==◌,
  if◌then◌else◌, List, [], ◌∷◌, ◌++◌, append-nil, append_assoc, length,
}
use incubator.Bytes.{Bytes}
use incubator.StreamTransport.{Received, received, read_would_block}
use incubator.Multiplexer.{Multiplexer}
use incubator.Multiplexer.Pipe.{Pointers, Pipe, message, shutdown_code, write_to_pipe}

-- A call: its code, and the manager.
abbrev pub Command : Type 0
Command = ℕ × ℕ

abbrev pub render : Pointers → List Command → Bytes
render pointers [] = []
render pointers ((opcode, mgr) ∷ cs) = message pointers opcode mgr ++ render pointers cs

-- What other threads write, one call after the other, while the pipe takes it.
abbrev pub write_all : Pointers → Multiplexer → List Command → Pipe → Pipe
write_all pointers m [] p = p
write_all pointers m ((opcode, mgr) ∷ cs) p =
    write_all pointers m cs (write_to_pipe pointers true opcode mgr m p)

-- A pointer fits its bytes.
abbrev pub AreCommands : Pointers → List Command → Type 0
AreCommands pointers [] = Unit {0}
AreCommands pointers ((opcode, mgr) ∷ cs) = (mgr < 256 ^ pointers.size) × AreCommands pointers cs

one_written :
    (pointers : Pointers) (m : Multiplexer) (opcode mgr : ℕ) (p : Pipe)
    → m.pipe_open ≡ true
    → (write_to_pipe pointers true opcode mgr m p).bytes ≡ p.bytes ++ message pointers opcode mgr
unfolding write_to_pipe
one_written pointers m opcode mgr p on = elim (Bool-cases (opcode == shutdown_code)) [
  | inl down ↦ rw (down, on) refl
  | inr other ↦ rw (other, on) refl
]

pub written :
    (pointers : Pointers) (m : Multiplexer) (cs : List Command) (p : Pipe)
    → m.pipe_open ≡ true
    → (write_all pointers m cs p).bytes ≡ p.bytes ++ render pointers cs
written pointers m [] p on = sym (append-nil p.bytes)
written pointers m ((opcode, mgr) ∷ cs) p on =
    written pointers m cs (write_to_pipe pointers true opcode mgr m p) on
    ∙ ap (λ (t : Bytes). t ++ render pointers cs) (one_written pointers m opcode mgr p on)
    ∙ append_assoc p.bytes (message pointers opcode mgr) (render pointers cs)

-- What the reads give, one after the other.
abbrev pub pieces : List Received → Bytes
pieces [] = []
pieces (received bs ∷ reads) = bs ++ pieces reads
pieces (other ∷ reads) = []

-- Every read gives some bytes, and no more than there is room for behind the filled part of the
-- buffer, until the pipe is empty.
abbrev pub FitsBuffer : ℕ → ℕ → List Received → Type 0
FitsBuffer size filled (received bs ∷ reads) =
    (0 < length bs)
    × (filled + length bs ≤ suc size)
    × FitsBuffer size (if filled + length bs == suc size then 0 else filled + length bs) reads
FitsBuffer size filled (read_would_block ∷ reads) = Unit {0}
FitsBuffer size filled other = ⊥
