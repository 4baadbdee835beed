-- ===== src/Multiplexer.antt =====
-- src/multiplexer.cpp and src/socket_manager.cpp: which sockets are polled for what. The functions are
-- modelled as they run in the thread of the multiplexer.
pub mod Registering
pub mod Scanning
pub mod Control
pub mod Pipe
mod MultiplexerTests
mod ControlTests
use incubator.Prelude.{
  ℕ, zero, suc, ◌-◌, bit_and, bit_or, Bool, true, false, not, ◌&&◌, ◌||◌, ◌==◌, if◌then◌else◌,
  Option, none, some, List, [], ◌∷◌, ◌++◌, map,
}
use incubator.Net.Operation.{Operation, no_operation, read, write, read_write}
use incubator.Net.Error.{Code, socket_invalid, socket_disconnected, socket_operation_failed}

-- The events of an entry: the bits of `input_mask`, set or cleared together, and of `output_mask`.
pub record Events : Type 0 where
  pub input : Bool
  pub output : Bool

-- The events that poll reports: whether a bit of `input_mask`, `output_mask` or `error_mask` is
-- set, and two bits of the last.
pub record Reported : Type 0 where
  pub readable : Bool
  pub writable : Bool
  pub error : Bool
  pub invalid : Bool
  pub hangup : Bool

-- An index of `pollset_` and `managers_`; a manager is a number.
pub record Entry : Type 0 where
  pub manager : ℕ
  pub events : Events
  pub revents : Reported

abbrev pub no_events : Reported
no_events = record {
  readable = false;
  writable = false;
  error = false;
  invalid = false;
  hangup = false;
}

-- The multiplexer, with the event mask of each manager.
pub record Multiplexer : Type 0 where
  pub pollset : List Entry
  pub masks : ℕ → Operation
  pub shutting_down : Bool
  -- Whether `write_handle_` is a valid socket.
  pub pipe_open : Bool

abbrev pub to_bitmask : Operation → Events
to_bitmask op =
    if op == read
    then record { input = true; output = false }
    else if op == write
    then record { input = false; output = true }
    else if op == read_write
    then record { input = true; output = true }
    else record { input = false; output = false }

abbrev pub set_mask : ℕ → Operation → Multiplexer → Multiplexer
set_mask mgr op m = record m { masks = λ i. if i == mgr then op else m.masks i }

-- socket_manager::mask_add
unfoldable pub mask_add : ℕ → Operation → Multiplexer → Bool × Multiplexer
mask_add mgr flag m =
    let x = m.masks mgr in
    if bit_and x flag == flag then (false, m) else (true, set_mask mgr (bit_or x flag) m)

-- socket_manager::mask_del; `x & ~flag` clears the bits that both have.
unfoldable pub mask_del : ℕ → Operation → Multiplexer → Bool × Multiplexer
mask_del mgr flag m =
    let x = m.masks mgr in
    if bit_and x flag == no_operation
    then (false, m)
    else (true, set_mask mgr (x - bit_and x flag) m)

abbrev pub is_polled : ℕ → List Entry → Bool
is_polled mgr [] = false
is_polled mgr (e ∷ es) = e.manager == mgr || is_polled mgr es

-- A change of the entry at `index_of(mgr)`, the first one of the manager.
abbrev pub at_index_of : ℕ → (Events → Events) → List Entry → List Entry
at_index_of mgr f [] = []
at_index_of mgr f (e ∷ es) =
    if e.manager == mgr then record e { events = f e.events } ∷ es else e ∷ at_index_of mgr f es

abbrev pub add : ℕ → Multiplexer → Multiplexer
add mgr m = record m {
  pollset =
      m.pollset
      ++ (record { manager = mgr; events = to_bitmask (m.masks mgr); revents = no_events } ∷ []);
}

abbrev pub erase_at : ℕ → List Entry → List Entry
erase_at i [] = []
erase_at zero (e ∷ es) = es
erase_at (suc i) (e ∷ es) = e ∷ erase_at i es

abbrev pub del : ℕ → Multiplexer → Multiplexer
del index m = record m { pollset = erase_at index m.pollset }

abbrev when_added : Bool × Multiplexer → (Multiplexer → Multiplexer) → Multiplexer → Multiplexer
when_added (true, m') f m = f m'
when_added (false, m') f m = m'

-- The two functions differ in the flag and in the bits.
abbrev pub register : Operation → (Events → Events) → ℕ → Multiplexer → Multiplexer
register flag f mgr m =
    if m.shutting_down
    then m
    else if not (m.masks mgr == no_operation)
    then (if is_polled mgr m.pollset
        then when_added (mask_add mgr flag m)
            (λ m'. record m' { pollset = at_index_of mgr f m'.pollset }) m
        else m)
    else when_added (mask_add mgr flag m) (add mgr) m

unfoldable pub register_reading : ℕ → Multiplexer → Multiplexer
register_reading = register read (λ e. record e { input = true })

unfoldable pub register_writing : ℕ → Multiplexer → Multiplexer
register_writing = register write (λ e. record e { output = true })

-- socket_manager::register_writing, which asks the multiplexer where the bit is not set yet.
unfoldable pub manager_register_writing : ℕ → Multiplexer → Multiplexer
unfolding register_writing
manager_register_writing mgr m =
    if bit_and (m.masks mgr) write == write then m else register_writing mgr m

unfoldable pub manager_register_reading : ℕ → Multiplexer → Multiplexer
unfolding register_reading
manager_register_reading mgr m =
    if bit_and (m.masks mgr) read == read then m else register_reading mgr m

-- The handlers of the managers, with a state `U` of their own. They may call the multiplexer.
pub record Managers (U : Type 0) : Type 0 where
  pub read_event : ℕ → U → Multiplexer → Bool × U × Multiplexer
  pub write_event : ℕ → U → Multiplexer → Bool × U × Multiplexer
  pub error_event : ℕ → Code → U → Multiplexer → U × Multiplexer

-- `pollset_[i].events = new_events`
abbrev pub set_events : ℕ → Events → List Entry → List Entry
set_events i events [] = []
set_events zero events (e ∷ es) = record e { events = events } ∷ es
set_events (suc i) events (e ∷ es) = e ∷ set_events i events es

abbrev same_bit : Bool → Bool → Bool
same_bit true y = y
same_bit false y = not y

abbrev pub same_events : Events → Events → Bool
same_events a b = same_bit a.input b.input && same_bit a.output b.output

abbrev pub error_code : Reported → Code
error_code revents =
    if revents.invalid
    then socket_invalid
    else if revents.hangup
    then socket_disconnected
    else socket_operation_failed

module _ {U : Type 0} (managers : Managers U) where
  -- After a handler: where it returned false, the bit is cleared in the mask and in the events.
  abbrev pub settle :
      ℕ → Operation → Events → Events → Bool × U × Multiplexer → Events × U × Multiplexer
  settle mgr flag events less (ok, u, m) =
      if ok then (events, u, m) else (less, u, (mask_del mgr flag m).1)

  abbrev pub on_read : ℕ → Events → Reported → U → Multiplexer → Events × U × Multiplexer
  on_read mgr events revents u m =
      if revents.readable
      then settle mgr read events (record events { input = false }) (managers.read_event mgr u m)
      else (events, u, m)

  abbrev pub on_write : ℕ → Reported → Events × U × Multiplexer → Events × U × Multiplexer
  on_write mgr revents (events, u, m) =
      if revents.writable
      then settle mgr write events (record events { output = false }) (managers.write_event mgr u m)
      else (events, u, m)

  abbrev pub failed_with : ℕ → U × Multiplexer → Events × U × Multiplexer
  failed_with mgr (u, m) =
      (record { input = false; output = false }, u, (mask_del mgr read_write m).1)

  abbrev pub on_error : ℕ → Reported → Events × U × Multiplexer → Events × U × Multiplexer
  on_error mgr revents (events, u, m) =
      if (not revents.readable && not revents.writable) && revents.error
      then failed_with mgr (managers.error_event mgr (error_code revents) u m)
      else (events, u, m)

  unfoldable pub handle : ℕ → Events → Reported → U → Multiplexer → Events × U × Multiplexer
  handle mgr events revents u m =
      on_error mgr revents (on_write mgr revents (on_read mgr events revents u m))

  -- What poll_once does with an entry that has events reported: the index that is next, and the rest.
  abbrev pub update_entry : ℕ → Events → Events × U × Multiplexer → ℕ × U × Multiplexer
  update_entry i events (new_events, u, m) =
      if not new_events.input && not new_events.output
      then (i, u, del i m)
      else if same_events new_events events
      then (suc i, u, m)
      else (suc i, u, record m { pollset = set_events i new_events m.pollset })

  unfoldable pub scan_entry : ℕ → Entry → U → Multiplexer → ℕ × U × Multiplexer
  unfolding handle
  scan_entry i entry u m =
      update_entry i entry.events (handle entry.manager entry.events entry.revents u m)
