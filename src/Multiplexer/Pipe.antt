-- ===== src/Multiplexer/Pipe.antt =====
-- Calls from other threads: multiplexer::write_to_pipe of src/multiplexer.cpp, and the other end of
-- the pipe, caf/net/pollset_updater.hpp and src/pollset_updater.cpp.
pub mod Written
pub mod Commands
use incubator.Prelude.{
  ℕ, zero, suc, ◌+◌, ◌-◌, ◌^◌, ◌<◌, ◌≡◌, Bool, true, false, not, ◌&&◌, ◌==◌, if◌then◌else◌, List,
  [], ◌∷◌, ◌++◌, length,
}
use incubator.Bytes.{Bytes}
use incubator.StreamTransport.{Received, received, read_closed, read_would_block, read_failed}
use incubator.Multiplexer.{Multiplexer, register_reading, register_writing}
use incubator.Multiplexer.Control.{shutdown}

-- `memcpy` of an `intptr_t`; a pointer to a manager is its number, and `nullptr` is 0.
pub record Pointers : Type 0 where
  pub size : ℕ
  pub encode : ℕ → Bytes
  pub decode : Bytes → ℕ
  pub length-encode : (x : ℕ) → length (encode x) ≡ size
  pub decode-encode : (x : ℕ) → x < 256 ^ size → decode (encode x) ≡ x

abbrev pub register_reading_code : ℕ
register_reading_code = 0x00

abbrev pub register_writing_code : ℕ
register_writing_code = 0x01

abbrev pub init_manager_code : ℕ
init_manager_code = 0x02

abbrev pub shutdown_code : ℕ
shutdown_code = 0x04

-- The bytes that are written and not read yet, and the counts of references.
pub record Pipe : Type 0 where
  pub bytes : Bytes
  pub refs : ℕ → ℕ

abbrev pub ref : ℕ → Pipe → Pipe
ref mgr p = record p { refs = λ i. if i == mgr then suc (p.refs i) else p.refs i }

abbrev pub deref : ℕ → Pipe → Pipe
deref mgr p = record p { refs = λ i. if i == mgr then p.refs i - 1 else p.refs i }

module _ (pointers : Pointers) where
  abbrev pub message : ℕ → ℕ → Bytes
  message opcode mgr = opcode ∷ pointers.encode mgr

  -- `ok` tells whether the pipe takes the message: a message of a few bytes is written whole or not.
  unfoldable pub write_to_pipe : Bool → ℕ → ℕ → Multiplexer → Pipe → Pipe
  write_to_pipe ok opcode mgr m p =
      let p' = if opcode == shutdown_code then p else ref mgr p in
      if m.pipe_open && ok
      then record p' { bytes = p'.bytes ++ message opcode mgr }
      else if opcode == shutdown_code
      then p'
      else deref mgr p'

-- The managers initialize themselves, with a state `U` of their own, which also keeps the references
-- to them: `release` gives one up, and may end the manager.
module _ {U : Type 0} (init_manager : ℕ → U → Multiplexer → U × Multiplexer)
    (release : ℕ → U → U) where
  -- multiplexer::init, in the thread of the multiplexer.
  abbrev pub init : ℕ → U × Multiplexer → U × Multiplexer
  init mgr (u, m) = if m.shutting_down then (u, m) else init_manager mgr u m

  abbrev on_multiplexer : (Multiplexer → Multiplexer) → U × Multiplexer → U × Multiplexer
  on_multiplexer f (u, m) = (u, f m)

  -- The switch over the opcode.
  abbrev pub call_for : ℕ → ℕ → U × Multiplexer → U × Multiplexer
  call_for opcode mgr s =
      if opcode == register_reading_code
      then on_multiplexer (register_reading mgr) s
      else if opcode == register_writing_code
      then on_multiplexer (register_writing mgr) s
      else if opcode == init_manager_code
      then init mgr s
      else if opcode == shutdown_code
      then on_multiplexer shutdown s
      else s

  -- The pointer of the message holds the reference that its writer took, and gives it up at the end;
  -- `nullptr` holds none.
  abbrev pub released : ℕ → U × Multiplexer → U × Multiplexer
  released mgr (u, m) = if mgr == 0 then (u, m) else (release mgr u, m)

  unfoldable pub dispatch : ℕ → ℕ → U × Multiplexer → U × Multiplexer
  unfolding register_reading register_writing shutdown
  dispatch opcode mgr s = released mgr (call_for opcode mgr s)

  module _ (pointers : Pointers) where
    abbrev first_byte : Bytes → ℕ
    first_byte [] = 0
    first_byte (b ∷ bs) = b

    abbrev after_first : Bytes → Bytes
    after_first [] = []
    after_first (b ∷ bs) = bs

    -- A read that filled the buffer, of one byte and a pointer, or did not.
    unfoldable pub absorb : Bytes → U × Multiplexer → Bytes × (U × Multiplexer)
    unfolding dispatch
    absorb buf s =
        if length buf == suc pointers.size
        then ([], dispatch (first_byte buf) (pointers.decode (after_first buf)) s)
        else (buf, s)

    -- pollset_updater::handle_read_event, on what the calls of read give: the result, the filled part of
    -- the buffer, and the rest. A list without an end of the loop stands for a call that has not
    -- returned, with the result false.
    unfoldable pub handle_read_event :
        List Received → Bytes → U × Multiplexer → Bool × Bytes × (U × Multiplexer)
    unfolding absorb
    handle_read_event [] buf s = (false, buf, s)
    handle_read_event (received bs ∷ reads) buf s =
        let next = absorb (buf ++ bs) s in handle_read_event reads next.0 next.1
    handle_read_event (read_closed ∷ reads) buf s = (false, buf, s)
    handle_read_event (read_would_block ∷ reads) buf s = (true, buf, s)
    handle_read_event (read_failed ∷ reads) buf s = (false, buf, s)
