-- ===== src/Multiplexer/Control/Turns.antt =====
-- The turns of the loop of shutdown.
use incubator.Prelude.{
  ℕ, zero, suc, ◌<◌, ◌≡◌, refl, sym, ap, ◌∙◌, arith, true, false, Bool-cases, ◌⊎◌, inl, inr, ◌==◌,
  ◌||◌, ltb, if◌then◌else◌, none, some, List, [], ◌∷◌, ◌++◌, length, get_elem?, All, ==_iff,
}
use incubator.Net.Operation.{Operation, no_operation, write}
use incubator.Multiplexer.{Entry, Multiplexer, to_bitmask, mask_del, is_polled}
use incubator.Multiplexer.Registering.{is_polled-append}
use incubator.Multiplexer.Scanning.{at_index_of-middle, erase_at-middle}
use incubator.Multiplexer.Control.{stop_entry, stop_from}

-- A mask without its read bit.
abbrev pub write_only : Operation → Operation
write_only x = if ltb x 2 then no_operation else write

-- The entries that are polled for writing, and for nothing else then.
abbrev pub writers : List Entry → List Entry
writers [] = []
writers (e ∷ es) =
    if e.events.output then record e { events = to_bitmask write } ∷ writers es else writers es

pub get-middle :
    (front back : List Entry) (e : Entry) → get_elem? (front ++ (e ∷ back)) (length front) ≡ some e
get-middle [] back e = refl
get-middle (x ∷ front) back e = get-middle front back e

pub get_end : (front : List Entry) → get_elem? (front ++ []) (length front) ≡ none
get_end [] = refl
get_end (x ∷ front) = get_end front

abbrev pub with_pollset : List Entry → (ℕ → Operation) → Multiplexer → Multiplexer
with_pollset es masks m = record m { pollset = es; masks = masks }

abbrev pub with_mask : ℕ → Operation → (ℕ → Operation) → ℕ → Operation
with_mask mgr op masks i = if i == mgr then op else masks i

pub ==_refl : (n : ℕ) → (n == n) ≡ true
==_refl n = ground arith

-- One turn, by the mask of the manager.
module _ (front back : List Entry) (e : Entry) (masks : ℕ → Operation) (m : Multiplexer)
    (apart : is_polled e.manager front ≡ false) where
  pub stop_reader :
      masks e.manager ≡ 1
      → stop_entry (length front) e (with_pollset (front ++ (e ∷ back)) masks m)
        ≡ (length front, with_pollset (front ++ back) (with_mask e.manager 0 masks) m)
  unfolding stop_entry mask_del
  stop_reader x =
      rw
        (
          x,
          ==_refl e.manager,
          at_index_of-middle e.manager (λ ev. record ev { input = false }) front back e.revents
              e.events apart,
          erase_at-middle front back (record e { events = record e.events { input = false } }),
        )
        refl

  pub stop_writer :
      masks e.manager ≡ 2
      → stop_entry (length front) e (with_pollset (front ++ (e ∷ back)) masks m)
        ≡ (suc (length front), with_pollset (front ++ (e ∷ back)) masks m)
  unfolding stop_entry mask_del
  stop_writer x = rw (x, x) refl

  pub stop_both :
      masks e.manager ≡ 3
      → stop_entry (length front) e (with_pollset (front ++ (e ∷ back)) masks m) ≡ (
        suc (length front),
        with_pollset
            (front ++ (record e { events = record e.events { input = false } } ∷ back))
            (with_mask e.manager 2 masks)
            m,
      )
  unfolding stop_entry mask_del
  stop_both x =
      rw
        (
          x,
          ==_refl e.manager,
          at_index_of-middle e.manager (λ ev. record ev { input = false }) front back e.revents
              e.events apart,
        )
        refl

-- The mask of a manager whose entry is turned to.
module _ (mgr j v : ℕ) (back : List Entry) (masks : ℕ → Operation)
    (once : is_polled mgr back ≡ false) where
  pub own_polled : (mgr == j) ≡ true → is_polled j back ≡ false
  own_polled e = rw (← (==_iff mgr j).0 e) once

  pub masks_changed :
      (op : Operation)
      → op ≡ write_only (masks mgr)
      → v ≡ (
          if is_polled j back
          then write_only (with_mask mgr op masks j)
          else with_mask mgr op masks j)
      → v ≡ (if mgr == j || is_polled j back then write_only (masks j) else masks j)
  masks_changed op own e = elim (Bool-cases (mgr == j)) [
    | inl same ↦
        let eq : mgr ≡ j = (==_iff mgr j).0 same in
        let op' : op ≡ write_only (masks j) = own ∙ ap (λ (i : ℕ). write_only (masks i)) eq in
        rw same (e ∙ rw (own_polled same, sym eq, ==_refl mgr) own)
    | inr other ↦ rw other (e ∙ ground (arith, other))
  ]

  pub masks_kept :
      masks mgr ≡ 2
      → v ≡ (if is_polled j back then write_only (masks j) else masks j)
      → v ≡ (if mgr == j || is_polled j back then write_only (masks j) else masks j)
  masks_kept own e = elim (Bool-cases (mgr == j)) [
    | inl same ↦
        let eq : mgr ≡ j = (==_iff mgr j).0 same in
        rw same (e ∙ rw (own_polled same, sym eq, own) refl)
    | inr other ↦ rw other e
  ]

abbrev pub Apart : List Entry → List Entry → Type 0
Apart front back = All (λ e. is_polled e.manager front ≡ false) back

abbrev pub HasMask : (ℕ → Operation) → Entry → Type 0
HasMask masks e = (0 < masks e.manager) × (masks e.manager < 4)

pub Apart-snoc :
    (front back : List Entry) (e : Entry) (mgr : ℕ)
    → e.manager ≡ mgr
    → is_polled mgr back ≡ false
    → Apart front back
    → Apart (front ++ (e ∷ [])) back
Apart-snoc front [] e mgr same once a = tt
Apart-snoc front (x ∷ back) e mgr same once a = (
  is_polled-append x.manager front e ∙ ground (arith, a.0, once, same),
  Apart-snoc front back e mgr same (ground (arith, once)) a.1,
)

pub other-HasMask :
    (mgr : ℕ) (op : Operation) (masks : ℕ → Operation) (es : List Entry)
    → is_polled mgr es ≡ false
    → All (HasMask masks) es
    → All (HasMask (with_mask mgr op masks)) es
other-HasMask mgr op masks [] h a = tt
other-HasMask mgr op masks (e ∷ es) h a =
    (ground (arith, h, a.0), other-HasMask mgr op masks es (ground (arith, h)) a.1)

-- What the loop leaves of the entries that it has not turned to.
pub record IsStopped (front back : List Entry) (masks : ℕ → Operation) (m m' : Multiplexer)
    : Type 0 where
  pub entries : m'.pollset ≡ front ++ writers back
  pub left : (j : ℕ) → m'.masks j ≡ (if is_polled j back then write_only (masks j) else masks j)
  pub flag : m'.shutting_down ≡ m.shutting_down

pub step_from :
    (fuel i i' : ℕ) (e : Entry) (m m' : Multiplexer)
    → get_elem? m.pollset i ≡ some e
    → stop_entry i e m ≡ (i', m')
    → stop_from (suc fuel) i m ≡ stop_from fuel i' m'
unfolding stop_from
step_from fuel i i' e m m' found step = rw (found, stop_from) (rw step refl)

end_from :
    (fuel i : ℕ) (m : Multiplexer) → get_elem? m.pollset i ≡ none → stop_from (suc fuel) i m ≡ m
unfolding stop_from
end_from fuel i m h = rw (h, stop_from) refl

pub IsStopped-none :
    (fuel i : ℕ) (front : List Entry) (masks : ℕ → Operation) (m : Multiplexer)
    → i ≡ length front
    → IsStopped front [] masks m (stop_from fuel i (with_pollset (front ++ []) masks m))
unfolding stop_from
IsStopped-none zero i front masks m e = record { entries = refl; left = λ j. refl; flag = refl }
IsStopped-none (suc fuel) i front masks m e =
    rw
      (end_from fuel i (with_pollset (front ++ []) masks m)
        (ap (get_elem? (front ++ [])) e ∙ get_end front))
      (record { entries = refl; left = λ j. refl; flag = refl })

pub mask_cases : (x : ℕ) → 0 < x → x < 4 → (x ≡ 1) ⊎ ((x ≡ 2) ⊎ (x ≡ 3))
mask_cases zero h k = absurd (omega arith)
mask_cases (suc zero) h k = inl refl
mask_cases (suc (suc zero)) h k = inr (inl refl)
mask_cases (suc (suc (suc zero))) h k = inr (inr refl)
mask_cases (suc (suc (suc (suc x)))) h k = absurd (omega arith)

pub writers_cons :
    (x : Entry) (back : List Entry)
    → x.events.output ≡ true
    → writers (x ∷ back) ≡ record x { events = to_bitmask write } ∷ writers back
writers_cons x back h = rw h refl
