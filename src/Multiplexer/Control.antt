-- ===== src/Multiplexer/Control.antt =====
-- The control flow of src/multiplexer.cpp: the scan of the pollset, the loop over poll, and the
-- shutdown. What poll gives is a list of outcomes, one for each call.
pub mod Turns
pub mod Shutdown
use incubator.Prelude.{
  ℕ, zero, suc, Bool, true, false, ◌||◌, ◌==◌, if◌then◌else◌, Option, none, some, List, [], ◌∷◌,
  length, get_elem?, drop,
}
use incubator.Net.Operation.{no_operation, read}
use incubator.Net.Error.{Code}
use incubator.Multiplexer.{
  Events, Reported, no_events, Entry, Multiplexer, mask_del, at_index_of, when_added, add, del,
  set_mask, Managers, scan_entry,
}

-- `revents != 0`
abbrev pub is_reported : Reported → Bool
is_reported r = r.readable || r.writable || r.error

-- poll writes what it reports into the entries.
abbrev pub set_revents : List Reported → List Entry → List Entry
set_revents rs [] = []
set_revents [] (e ∷ es) = record e { revents = no_events } ∷ set_revents [] es
set_revents (r ∷ rs) (e ∷ es) = record e { revents = r } ∷ set_revents rs es

-- The result of poll: the number of entries with events.
abbrev pub count_reported : List Entry → ℕ
count_reported [] = 0
count_reported (e ∷ es) =
    if is_reported e.revents then suc (count_reported es) else count_reported es

-- The turns of the scan that pass over an entry without events.
abbrev pub next_from : ℕ → List Entry → Option (ℕ × Entry)
next_from i [] = none
next_from i (e ∷ es) = if is_reported e.revents then some (i, e) else next_from (suc i) es

abbrev pub next_reported : ℕ → List Entry → Option (ℕ × Entry)
next_reported i es = next_from i (drop i es)

-- What a call of poll comes to. A failure that is neither an interruption nor a lack of memory ends
-- the program.
pub data Polled : Type 0 where
  reported : List Reported → Polled
  no_activity interrupted not_enough_memory unexpected : Polled

-- What a call of poll_once comes to: a result, with what is left of the outcomes; the end of the
-- program; or a call of poll that has not returned.
pub data Once (U : Type 0) : Type 0 where
  returned : Bool → List Polled → U → Multiplexer → Once U
  crashed pending : Once U

module _ {U : Type 0} (managers : Managers U) where
  -- The scan, with the number of entries with events that are left.
  unfoldable pub scan : ℕ → ℕ → U → Multiplexer → U × Multiplexer
  unfolding scan_entry
  scan zero i u m = (u, m)
  scan (suc presult) i u m = elim (next_reported i m.pollset) [
    | none ↦ (u, m)
    | some (j, e) ↦ let next = scan_entry managers j e u m in scan presult next.0 next.1 next.2
  ]

  abbrev pub scanned : List Polled → U × Multiplexer → Once U
  scanned polls (u, m) = returned true polls u m

  abbrev pub has_reported : List Reported → Multiplexer → Multiplexer
  has_reported rs m = record m { pollset = set_revents rs m.pollset }

  -- The loop around poll.
  unfoldable pub poll_loop : List Polled → U → Multiplexer → Once U
  unfolding scan
  poll_loop [] u m = pending
  poll_loop (reported rs ∷ polls) u m =
      let m' = has_reported rs m in scanned polls (scan (count_reported m'.pollset) 0 u m')
  poll_loop (no_activity ∷ polls) u m = returned false polls u m
  poll_loop (interrupted ∷ polls) u m = poll_loop polls u m
  poll_loop (not_enough_memory ∷ polls) u m = poll_loop polls u m
  poll_loop (unexpected ∷ polls) u m = crashed

  unfoldable pub poll_once : List Polled → U → Multiplexer → Once U
  unfolding poll_loop
  poll_once polls u m = elim (m.pollset) [
    | [] ↦ returned false polls u m
    | e ∷ es ↦ poll_loop polls u m
  ]

  -- multiplexer::run, with as much fuel as there are outcomes: each turn takes one at least.
  abbrev pub goes_on : (List Polled → U → Multiplexer → Once U) → Once U → Once U
  goes_on again (returned result polls u m) = again polls u m
  goes_on again crashed = crashed
  goes_on again pending = pending

  pub run_loop : ℕ → List Polled → U → Multiplexer → Once U
  unfolding poll_once
  run_loop zero polls u m = pending
  run_loop (suc fuel) polls u m = elim (m.pollset) [
    | [] ↦ returned true polls u m
    | e ∷ es ↦ goes_on (run_loop fuel) (poll_once polls u m)
  ]

  unfoldable pub run : List Polled → U → Multiplexer → Once U
  unfolding run_loop
  run polls u m = run_loop (suc (length polls)) polls u m

-- multiplexer::init, with the results of make_pipe and of the initialization of the pollset_updater,
-- whose mask is read from the start.
unfoldable pub init : ℕ → Option Code → Option Code → Multiplexer → Option Code × Multiplexer
init updater (some err) init_error m = (some err, m)
init updater none (some err) m = (some err, m)
init updater none none m =
    (none, record (add updater (set_mask updater read m)) { pipe_open = true })

abbrev pub stop_reading : ℕ → Multiplexer → Multiplexer
stop_reading mgr m =
    when_added (mask_del mgr read m)
      (λ m'. record m' { pollset = at_index_of mgr (λ e. record e { input = false }) m'.pollset }) m

-- One turn of the loop of shutdown: the index that is next.
unfoldable pub stop_entry : ℕ → Entry → Multiplexer → ℕ × Multiplexer
stop_entry i e m =
    let m' = stop_reading e.manager m in
    if m'.masks e.manager == no_operation then (i, del i m') else (suc i, m')

-- Each turn passes over an entry or takes it out.
pub stop_from : ℕ → ℕ → Multiplexer → Multiplexer
unfolding stop_entry
stop_from zero i m = m
stop_from (suc fuel) i m = elim (get_elem? m.pollset i) [
  | none ↦ m
  | some e ↦ let next = stop_entry i e m in stop_from fuel next.0 next.1
]

abbrev pub close_pipe : Multiplexer → Multiplexer
close_pipe m = record m { pipe_open = false }

-- The first manager is the pollset_updater.
unfoldable pub shutdown : Multiplexer → Multiplexer
unfolding stop_from
shutdown m = close_pipe (stop_from (length m.pollset) 1 (record m { shutting_down = true }))
