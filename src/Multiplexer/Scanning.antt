-- ===== src/Multiplexer/Scanning.antt =====
-- What the scan of the pollset does when a handler registers its manager.
use incubator.Prelude.{
  ℕ, ◌≡◌, refl, ap, ◌∙◌, arith, true, false, ◌==◌, if◌then◌else◌, List, [], ◌∷◌, ◌++◌, length,
}
use incubator.Net.Operation.{Operation, read, write, read_write}
use incubator.Multiplexer.{
  Events, Reported, Entry, Multiplexer, to_bitmask, mask_add, mask_del, is_polled, at_index_of,
  erase_at, register_writing, manager_register_writing, Managers, handle, update_entry, scan_entry,
}

-- A multiplexer in which a manager is polled for the operation of its mask.
abbrev pub polling :
    List Entry → List Entry → Reported → (ℕ → Operation) → ℕ → Operation → Multiplexer
polling front back r masks mgr op = record {
  pollset = front ++ (record { manager = mgr; events = to_bitmask op; revents = r } ∷ back);
  masks = masks;
  shutting_down = false;
  pipe_open = true;
}

is_polled-middle :
    (mgr : ℕ) (front back : List Entry) (r : Reported) (events : Events)
    → is_polled mgr (front ++ (record { manager = mgr; events = events; revents = r } ∷ back))
      ≡ true
is_polled-middle mgr [] back r events = ground arith
is_polled-middle mgr (e ∷ front) back r events =
    ground (arith, is_polled-middle mgr front back r events)

pub at_index_of-middle :
    (mgr : ℕ) (f : Events → Events) (front back : List Entry) (r : Reported) (events : Events)
    → is_polled mgr front ≡ false
    → at_index_of mgr f (front ++ (record { manager = mgr; events = events; revents = r } ∷ back))
      ≡ front ++ (record { manager = mgr; events = f events; revents = r } ∷ back)
at_index_of-middle mgr f [] back r events h = ground arith
at_index_of-middle mgr f (e ∷ front) back r events h =
    ground (arith, at_index_of-middle mgr f front back r events)

pub erase_at-middle :
    (front back : List Entry) (e : Entry)
    → erase_at (length front) (front ++ (e ∷ back)) ≡ front ++ back
erase_at-middle [] back e = refl
erase_at-middle (x ∷ front) back e = ap (◌∷◌ x) (erase_at-middle front back e)

abbrev with_mask : (ℕ → Operation) → ℕ → Operation → ℕ → Operation
with_mask masks mgr op i = if i == mgr then op else masks i

registered :
    (front back : List Entry) (r : Reported) (masks : ℕ → Operation) (mgr : ℕ)
    → is_polled mgr front ≡ false
    → masks mgr ≡ read
    → manager_register_writing mgr (polling front back r masks mgr read)
      ≡ polling front back r (with_mask masks mgr read_write) mgr read_write
unfolding manager_register_writing register_writing mask_add
registered front back r masks mgr h hm = rw (
  hm,
  is_polled-middle mgr front back r (to_bitmask read),
  at_index_of-middle mgr (λ e. record e { output = true }) front back r (to_bitmask read) h,
)

module _ {U : Type 0} (managers : Managers U) where
  read_refused :
      (mgr : ℕ) (events : Events) (r : Reported) (u : U) (m : Multiplexer) (u' : U)
      (m' : Multiplexer)
      → r.readable ≡ true
      → r.writable ≡ false
      → managers.read_event mgr u m ≡ (false, u', m')
      → handle managers mgr events r u m
        ≡ (record events { input = false }, u', (mask_del mgr read m').1)
  unfolding handle
  read_refused mgr events r u m u' m' hr hw e = rw (hr, hw, e) refl

  dropped :
      (front back : List Entry) (masks : ℕ → Operation) (mgr : ℕ) (u u' : U) (revents : Reported)
      → revents.readable ≡ true
      → revents.writable ≡ false
      → is_polled mgr front ≡ false
      → masks mgr ≡ read
      → managers.read_event mgr u (polling front back revents masks mgr read)
        ≡ (false, u', manager_register_writing mgr (polling front back revents masks mgr read))
      → scan_entry managers
          (length front)
          (record { manager = mgr; events = to_bitmask read; revents = revents })
          u
          (polling front back revents masks mgr read)
        ≡ (
          length front,
          u',
          record {
            pollset = front ++ back;
            masks = with_mask (with_mask masks mgr read_write) mgr write;
            shutting_down = false;
            pipe_open = true;
          },
        )
  unfolding scan_entry mask_del
  dropped front back masks mgr u u' revents hr hw h hm e =
      ap (update_entry managers (length front) (to_bitmask read)) (
        read_refused mgr (to_bitmask read) revents u (polling front back revents masks mgr read) u'
          (manager_register_writing mgr (polling front back revents masks mgr read)) hr hw e)
      ∙ rw
          (
            registered front back revents masks mgr h hm,
            ==_refl mgr,
            erase_at-middle front back
                (record { manager = mgr; events = to_bitmask read_write; revents = revents }),
          )
          refl
    where
      ==_refl : (n : ℕ) → (n == n) ≡ true
      ==_refl n = ground arith

  -- Where a manager is polled for reading only, and its read handler registers it for writing and
  -- returns false: the entry of the manager is taken out of the pollset, although its mask says write
  -- from then on; and registering it for writing again changes nothing.
  pub write_registration_lost :
      (front back : List Entry) (masks : ℕ → Operation) (mgr : ℕ) (u u' : U) (revents : Reported)
      → revents.readable ≡ true
      → revents.writable ≡ false
      → is_polled mgr front ≡ false
      → masks mgr ≡ read
      → managers.read_event mgr u (polling front back revents masks mgr read)
        ≡ (false, u', manager_register_writing mgr (polling front back revents masks mgr read))
      → (m : Multiplexer) × (scan_entry managers
            (length front)
            (record { manager = mgr; events = to_bitmask read; revents = revents })
            u
            (polling front back revents masks mgr read)
          ≡ (length front, u', m))
        × (m.pollset ≡ front ++ back)
        × (m.masks mgr ≡ write)
        × (manager_register_writing mgr m ≡ m)
  unfolding manager_register_writing
  write_registration_lost front back masks mgr u u' revents hr hw h hm e = (
    record {
      pollset = front ++ back;
      masks = with_mask (with_mask masks mgr read_write) mgr write;
      shutting_down = false;
      pipe_open = true;
    },
    dropped front back masks mgr u u' revents hr hw h hm e,
    refl,
    own,
    rw own,
  )
    where
      own : with_mask (with_mask masks mgr read_write) mgr write mgr ≡ write
      own = ground arith
