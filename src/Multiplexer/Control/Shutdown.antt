-- ===== src/Multiplexer/Control/Shutdown.antt =====
-- What a shutdown leaves.
use incubator.Prelude.{
  ℕ, zero, suc, ◌≤◌, ◌≡◌, refl, sym, ap, subst, ◌∙◌, arith, true, false, Bool-cases, inl, inr, ◌==◌,
  if◌then◌else◌, List, [], ◌∷◌, ◌++◌, length, get_elem?, All, ==_iff, append_assoc,
}
use incubator.Net.Operation.{Operation, no_operation, write}
use incubator.Multiplexer.{Entry, Multiplexer, to_bitmask, is_polled}
use incubator.Multiplexer.Registering.{Agrees, Distinct, IsConsistent, other-Agrees}
use incubator.Multiplexer.Control.Turns.{
  write_only, writers, get-middle, with_pollset, with_mask, stop_reader, stop_writer, stop_both,
  masks_changed, masks_kept, Apart, HasMask, Apart-snoc, own_polled, other-HasMask, IsStopped,
  step_from, IsStopped-none, mask_cases, writers_cons,
}
use incubator.Multiplexer.{register_reading, register_writing}
use incubator.Multiplexer.Control.{stop_entry, stop_from, shutdown}

-- A turn, and what the rest of the loop leaves.
module _ (fuel i : ℕ) (front back : List Entry) (x : Entry) (masks : ℕ → Operation)
    (m : Multiplexer) (at : i ≡ length front) (once : is_polled x.manager back ≡ false)
    (apart : is_polled x.manager front ≡ false) (agrees : Agrees masks x) where
  abbrev start : Multiplexer
  start = with_pollset (front ++ (x ∷ back)) masks m

  turned :
      (i' : ℕ) (m' : Multiplexer)
      → stop_entry (length front) x start ≡ (i', m')
      → stop_from (suc fuel) i start ≡ stop_from fuel i' m'
  turned i' m' step =
      step_from fuel i i' x start m'
        (ap (get_elem? (front ++ (x ∷ back))) at ∙ get-middle front back x)
        (ap (λ (k : ℕ). stop_entry k x start) at ∙ step)

  reader-IsStopped :
      masks x.manager ≡ 1
      → IsStopped front back
          (with_mask x.manager 0 masks)
          m
          (stop_from fuel i (with_pollset (front ++ back) (with_mask x.manager 0 masks) m))
      → IsStopped front (x ∷ back) masks m (stop_from (suc fuel) i start)
  reader-IsStopped own rest =
      let rest' =
        subst
          (λ (k : ℕ).
            IsStopped front back (with_mask x.manager 0 masks) m
              (stop_from fuel k (with_pollset (front ++ back) (with_mask x.manager 0 masks) m)))
          at rest in
      subst (IsStopped front (x ∷ back) masks m)
        (sym (turned (length front) _ (stop_reader front back x masks m apart own)))
        (record {
          entries = rest'.entries ∙ rw (agrees, own) refl;
          left = λ j. masks_changed x.manager j _ back masks once 0 (rw own refl) (rest'.left j);
          flag = rest'.flag;
        })

  writer-IsStopped :
      masks x.manager ≡ 2
      → IsStopped
          (front ++ (x ∷ []))
          back
          masks
          m
          (stop_from fuel (suc (length front)) (with_pollset ((front ++ (x ∷ [])) ++ back) masks m))
      → IsStopped front (x ∷ back) masks m (stop_from (suc fuel) i start)
  writer-IsStopped own rest =
      let agrees' : (x.events.output ≡ true) × (x.events ≡ to_bitmask write) =
        (ap (λ ev. ev.output) (agrees ∙ ap to_bitmask own), agrees ∙ ap to_bitmask own) in
      let joined : (front ++ (x ∷ [])) ++ back ≡ front ++ (x ∷ back) =
        append_assoc front (x ∷ []) back in
      let rest' =
        subst
          (λ (es : List Entry).
            IsStopped (front ++ (x ∷ [])) back masks m
              (stop_from fuel (suc (length front)) (with_pollset es masks m)))
          joined rest in
      subst (IsStopped front (x ∷ back) masks m)
        (sym (turned (suc (length front)) _ (stop_writer front back x masks m apart own)))
        (record {
          entries =
              rest'.entries
              ∙ append_assoc front (x ∷ []) (writers back)
              ∙ ap (◌++◌ front) (
                  sym (
                    writers_cons x back agrees'.0
                    ∙ ap (λ ev. record x { events = ev } ∷ writers back) (sym agrees'.1)));
          left = λ j. masks_kept x.manager j _ back masks once own (rest'.left j);
          flag = rest'.flag;
        })

  abbrev halved : Entry
  halved = record x { events = record x.events { input = false } }

  both-IsStopped :
      masks x.manager ≡ 3
      → IsStopped (front ++ (halved ∷ [])) back (with_mask x.manager 2 masks) m (
          stop_from fuel
            (suc (length front))
            (with_pollset ((front ++ (halved ∷ [])) ++ back) (with_mask x.manager 2 masks) m))
      → IsStopped front (x ∷ back) masks m (stop_from (suc fuel) i start)
  both-IsStopped own rest =
      let output : x.events.output ≡ true = ap (λ ev. ev.output) (agrees ∙ ap to_bitmask own) in
      let same : halved ≡ record x { events = to_bitmask write } =
        ap (λ ev. record x { events = record ev { input = false } }) (agrees ∙ ap to_bitmask own) in
      let rest' =
        subst
          (λ (es : List Entry).
            IsStopped (front ++ (halved ∷ [])) back (with_mask x.manager 2 masks) m (
              stop_from fuel (suc (length front))
                (with_pollset es (with_mask x.manager 2 masks) m)))
          (append_assoc front (halved ∷ []) back) rest in
      subst (IsStopped front (x ∷ back) masks m)
        (sym (turned (suc (length front)) _ (stop_both front back x masks m apart own)))
        (record {
          entries =
              rest'.entries
              ∙ append_assoc front (halved ∷ []) (writers back)
              ∙ ap (◌++◌ front)
                  (ap (λ e. e ∷ writers back) same ∙ sym (writers_cons x back output));
          left = λ j. masks_changed x.manager j _ back masks once 2 (rw own refl) (rest'.left j);
          flag = rest'.flag;
        })

length-snoc : (front : List Entry) (x : Entry) → suc (length front) ≡ length (front ++ (x ∷ []))
length-snoc [] x = refl
length-snoc (y ∷ front) x = ap suc (length-snoc front x)

stop_from-IsStopped :
    (fuel i : ℕ) (front back : List Entry) (masks : ℕ → Operation) (m : Multiplexer)
    → i ≡ length front
    → length back ≤ fuel
    → Distinct back
    → Apart front back
    → All (Agrees masks) back
    → All (HasMask masks) back
    → IsStopped front back masks m (stop_from fuel i (with_pollset (front ++ back) masks m))
stop_from-IsStopped fuel i front [] masks m e n d a g h = IsStopped-none fuel i front masks m e
stop_from-IsStopped zero i front (x ∷ back) masks m e n d a g h = absurd (omega arith)
stop_from-IsStopped (suc fuel) i front (x ∷ back) masks m e n d a g h =
    let begun = with_pollset (front ++ (x ∷ back)) masks m in
    let later = λ (y : Entry) (same : y.manager ≡ x.manager).
      Apart-snoc front back y x.manager same d.0 a.1 in
    elim (mask_cases (masks x.manager) h.0.0 h.0.1) [
      | inl own ↦ reader-IsStopped fuel i front back x masks m e d.0 a.0 g.0 own (
          stop_from-IsStopped fuel i front back (with_mask x.manager 0 masks) m e (omega arith) d.1
            a.1 (other-Agrees x.manager 0 begun back d.0 g.1)
            (other-HasMask x.manager 0 masks back d.0 h.1))
      | inr (inl own) ↦ writer-IsStopped fuel i front back x masks m e d.0 a.0 g.0 own (
          stop_from-IsStopped fuel (suc (length front)) (front ++ (x ∷ [])) back masks m
            (length-snoc front x) (omega arith) d.1 (later x refl) g.1 h.1)
      | inr (inr own) ↦
          let y = record x { events = record x.events { input = false } } in
          both-IsStopped fuel i front back x masks m e d.0 a.0 g.0 own (
            stop_from-IsStopped fuel (suc (length front)) (front ++ (y ∷ [])) back
              (with_mask x.manager 2 masks) m (length-snoc front y) (omega arith) d.1 (later y refl)
              (other-Agrees x.manager 2 begun back d.0 g.1)
              (other-HasMask x.manager 2 masks back d.0 h.1))
    ]

no_Apart : (es : List Entry) → Apart [] es
no_Apart [] = tt
no_Apart (e ∷ es) = (refl, no_Apart es)

polled-cons :
    (e : Entry) (es ys : List Entry)
    → All (λ y. is_polled y.manager es ≡ true) ys
    → All (λ y. is_polled y.manager (e ∷ es) ≡ true) ys
polled-cons e es [] h = tt
polled-cons e es (y ∷ ys) h = (ground (arith, h.0), polled-cons e es ys h.1)

All-polled : (es : List Entry) → All (λ y. is_polled y.manager es ≡ true) es
All-polled [] = tt
All-polled (e ∷ es) = (ground arith, polled-cons e es es (All-polled es))

polled-HasMask :
    (m : Multiplexer) (es : List Entry)
    → IsConsistent m
    → All (λ y. is_polled y.manager m.pollset ≡ true) es
    → All (HasMask m.masks) es
polled-HasMask m [] c h = tt
polled-HasMask m (e ∷ es) c h =
    ((omega (arith, c.idle e.manager h.0), c.masks_lt e.manager), polled-HasMask m es c h.1)

module _ (m : Multiplexer) (u : Entry) (rest : List Entry) (first : m.pollset ≡ u ∷ rest)
    (c : IsConsistent m) where
  abbrev marked : Multiplexer
  marked = record m { shutting_down = true }

  loop-IsStopped : IsStopped (u ∷ []) rest m.masks marked (stop_from (length m.pollset) 1 marked)
  loop-IsStopped =
      let d = subst Distinct first c.distinct in
      let g = subst (All (Agrees m.masks)) first c.agrees in
      let h =
        subst (All (HasMask m.masks)) first (polled-HasMask m m.pollset c (All-polled m.pollset)) in
      subst
        (λ (es : List Entry).
          IsStopped (u ∷ []) rest m.masks marked
            (stop_from (length es) 1 (with_pollset es m.masks marked)))
        (sym first)
        (stop_from-IsStopped (suc (length rest)) 1 (u ∷ []) rest m.masks marked refl (omega arith)
          d.1 (Apart-snoc [] rest u u.manager refl d.0 (no_Apart rest)) g.1 h.1)

  not_polled :
      {j : ℕ} → (u.manager == j) ≡ false → is_polled j rest ≡ false → m.masks j ≡ no_operation
  not_polled {j} other gone = elim (Bool-cases (m.masks j == no_operation)) [
    | inl z ↦ (==_iff (m.masks j) no_operation).0 z
    | inr some_mask ↦ absurd (
        let there =
          subst (λ (es : List Entry). is_polled j es ≡ true) first
            (c.polled j (λ e. ground (arith, e, some_mask))) in
        ground (arith, there, other, gone))
  ]

  mask_left :
      (j : ℕ)
      → (if is_polled j rest then write_only (m.masks j) else m.masks j)
        ≡ (if u.manager == j then m.masks j else write_only (m.masks j))
  mask_left j = elim (Bool-cases (u.manager == j)) [
    | inl same ↦
        rw (own_polled u.manager j 0 rest m.masks (subst Distinct first c.distinct).0 same, same)
          refl
    | inr other ↦ elim (Bool-cases (is_polled j rest)) [
      | inl there ↦ rw (there, other) refl
      | inr gone ↦ rw (gone, other, not_polled other gone) refl
    ]
  ]

  -- The shutdown of a consistent multiplexer.
  pub shutdown_lem :
      ((shutdown m).pollset ≡ u ∷ writers rest)
      × ((j : ℕ)
          → (shutdown m).masks j ≡ (if u.manager == j then m.masks j else write_only (m.masks j)))
      × ((shutdown m).pipe_open ≡ false)
      × ((mgr : ℕ)
          → (register_reading mgr (shutdown m) ≡ shutdown m)
            × (register_writing mgr (shutdown m) ≡ shutdown m))
  unfolding shutdown register_reading register_writing
  shutdown_lem = (
    loop-IsStopped.entries,
    λ j. loop-IsStopped.left j ∙ mask_left j,
    refl,
    λ mgr. (rw loop-IsStopped.flag refl, rw loop-IsStopped.flag refl),
  )
