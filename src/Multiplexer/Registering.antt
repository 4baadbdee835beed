-- ===== src/Multiplexer/Registering.antt =====
-- The events that are polled, and the masks of the managers.
use incubator.Prelude.{
  ◌||◌, ℕ, zero, suc, ◌<◌, ◌≡◌, ◌≢◌, refl, sym, ap, subst, ◌∙◌, arith, Bool, true, false,
  Bool-cases, inl, inr, ◌==◌, if◌then◌else◌, List, [], ◌∷◌, ◌++◌, All, bit_and, bit_or, ==_iff,
  All-append,
}
use incubator.Net.Operation.{Operation, no_operation, read, write}
use incubator.Multiplexer.{
  Events, Entry, no_events, Multiplexer, to_bitmask, set_mask, mask_add, is_polled, at_index_of,
  add, register, register_reading, register_writing,
}

-- An entry polls for what the mask of its manager says.
abbrev pub Agrees : (ℕ → Operation) → Entry → Type 0
Agrees masks e = e.events ≡ to_bitmask (masks e.manager)

-- No two entries of one manager.
abbrev pub Distinct : List Entry → Type 0
Distinct [] = Unit
Distinct (e ∷ es) = (is_polled e.manager es ≡ false) × Distinct es

-- A mask is none, read, write or both; every entry agrees with the mask of its manager; and the
-- managers with a mask are those that are polled.
pub record IsConsistent (m : Multiplexer) : Type 0 where
  pub masks_lt : (mgr : ℕ) → m.masks mgr < 4
  pub agrees : All (Agrees m.masks) m.pollset
  pub distinct : Distinct m.pollset
  pub polled : (mgr : ℕ) → m.masks mgr ≢ no_operation → is_polled mgr m.pollset ≡ true
  pub idle : (mgr : ℕ) → is_polled mgr m.pollset ≡ true → m.masks mgr ≢ no_operation

-- The bits of a mask that read or write is added to.
bits_added :
    (x : Operation)
    → x < 4
    → (bit_or x read < 4)
      × (bit_or x write < 4)
      × (bit_or x read ≢ no_operation)
      × (bit_or x write ≢ no_operation)
      × (to_bitmask (bit_or x read) ≡ record (to_bitmask x) { input = true })
      × (to_bitmask (bit_or x write) ≡ record (to_bitmask x) { output = true })
bits_added zero h = (omega arith, omega arith, omega arith, omega arith, refl, refl)
bits_added (suc zero) h = (omega arith, omega arith, omega arith, omega arith, refl, refl)
bits_added (suc (suc zero)) h = (omega arith, omega arith, omega arith, omega arith, refl, refl)
bits_added (suc (suc (suc zero))) h =
    (omega arith, omega arith, omega arith, omega arith, refl, refl)
bits_added (suc (suc (suc (suc x)))) h = absurd (omega arith)

abbrev pub masks_with : ℕ → Operation → Multiplexer → ℕ → Operation
masks_with mgr op m = (set_mask mgr op m).masks

is_polled-at_index_of :
    (mgr i : ℕ) (f : Events → Events) (es : List Entry)
    → is_polled i (at_index_of mgr f es) ≡ is_polled i es
is_polled-at_index_of mgr i f [] = refl
is_polled-at_index_of mgr i f (e ∷ es) = ground (arith, is_polled-at_index_of mgr i f es)

Distinct-at_index_of :
    (mgr : ℕ) (f : Events → Events) (es : List Entry)
    → Distinct es
    → Distinct (at_index_of mgr f es)
Distinct-at_index_of mgr f [] h = tt
Distinct-at_index_of mgr f (e ∷ es) h = elim (Bool-cases (e.manager == mgr)) [
  | inl here ↦ rw here h
  | inr later ↦
      rw later (is_polled-at_index_of mgr e.manager f es ∙ h.0, Distinct-at_index_of mgr f es h.1)
]

pub is_polled-append :
    (i : ℕ) (es : List Entry) (e : Entry)
    → is_polled i (es ++ (e ∷ [])) ≡ (is_polled i es || (e.manager == i))
is_polled-append i [] e = ground arith
is_polled-append i (x ∷ es) e = ground (arith, is_polled-append i es e)

Distinct-append :
    (es : List Entry) (e : Entry)
    → Distinct es
    → is_polled e.manager es ≡ false
    → Distinct (es ++ (e ∷ []))
Distinct-append [] e d h = (refl, tt)
Distinct-append (x ∷ es) e d h = (
  is_polled-append x.manager es e ∙ ground (arith, d.0, h),
  Distinct-append es e d.1 (ground (arith, h)),
)

module _ (mgr : ℕ) (op : Operation) (m : Multiplexer) where
  -- Entries of other managers.
  pub other-Agrees :
      (es : List Entry)
      → is_polled mgr es ≡ false
      → All (Agrees m.masks) es
      → All (Agrees (masks_with mgr op m)) es
  other-Agrees [] h a = tt
  other-Agrees (e ∷ es) h a = (ground (arith, h, a.0), other-Agrees es (ground (arith, h)) a.1)

  changed-Agrees :
      (f : Events → Events) (es : List Entry)
      → f (to_bitmask (m.masks mgr)) ≡ to_bitmask op
      → Distinct es
      → All (Agrees m.masks) es
      → All (Agrees (masks_with mgr op m)) (at_index_of mgr f es)
  changed-Agrees f [] e d a = tt
  changed-Agrees f (x ∷ es) e d a = elim (Bool-cases (x.manager == mgr)) [
    | inl here ↦
        let same : x.manager ≡ mgr = (==_iff x.manager mgr).0 here in
        rw here (
          rw here (ap f (a.0 ∙ ap (λ i. to_bitmask (m.masks i)) same) ∙ e),
          other-Agrees es (subst (λ i. is_polled i es ≡ false) same d.0) a.1,
        )
    | inr later ↦ rw later (rw later a.0, changed-Agrees f es e d.1 a.1)
  ]

  own_mask : (i : ℕ) → (i == mgr) ≡ true → masks_with mgr op m i ≡ op
  own_mask i e = rw e refl

  other_mask : (i : ℕ) → (i == mgr) ≡ false → masks_with mgr op m i ≡ m.masks i
  other_mask i e = rw e refl

  -- A manager that is polled gets another mask.
  changed-IsConsistent :
      (f : Events → Events)
      → f (to_bitmask (m.masks mgr)) ≡ to_bitmask op
      → op < 4
      → op ≢ no_operation
      → is_polled mgr m.pollset ≡ true
      → IsConsistent m
      → IsConsistent (record (set_mask mgr op m) { pollset = at_index_of mgr f m.pollset })
  changed-IsConsistent f e lt some_op there c = record {
    masks_lt = λ i. ground (arith, c.masks_lt i);
    agrees = changed-Agrees f m.pollset e c.distinct c.agrees;
    distinct = Distinct-at_index_of mgr f m.pollset c.distinct;
    polled = λ i h. is_polled-at_index_of mgr i f m.pollset ∙ elim (Bool-cases (i == mgr)) [
      | inl own ↦ ap (λ j. is_polled j m.pollset) ((==_iff i mgr).0 own) ∙ there
      | inr other ↦ c.polled i (λ e. h (other_mask i other ∙ e))
    ];
    idle = λ i h e. elim (Bool-cases (i == mgr)) [
      | inl own ↦ some_op (sym (own_mask i own) ∙ e)
      | inr other ↦
          c.idle i (sym (is_polled-at_index_of mgr i f m.pollset) ∙ h)
            (sym (other_mask i other) ∙ e)
    ];
  }

  -- A manager that is not polled gets a mask and an entry.
  added-IsConsistent :
      op < 4
      → op ≢ no_operation
      → is_polled mgr m.pollset ≡ false
      → IsConsistent m
      → IsConsistent (add mgr (set_mask mgr op m))
  added-IsConsistent lt some_op gone c = record {
    masks_lt = λ i. ground (arith, c.masks_lt i);
    agrees =
        All-append (Agrees (masks_with mgr op m)) m.pollset _ (other-Agrees m.pollset gone c.agrees)
          (refl, tt);
    distinct = Distinct-append m.pollset entry c.distinct gone;
    polled = λ i h. is_polled-append i m.pollset entry ∙ elim (Bool-cases (i == mgr)) [
      | inl own ↦ ground (arith, own)
      | inr other ↦ ap (λ b. b || (mgr == i)) (c.polled i (λ e. h (other_mask i other ∙ e)))
    ];
    idle = λ i h e. elim (Bool-cases (i == mgr)) [
      | inl own ↦ some_op (sym (own_mask i own) ∙ e)
      | inr other ↦
          c.idle i (only_old i (sym (is_polled-append i m.pollset entry) ∙ h) other)
            (sym (other_mask i other) ∙ e)
    ];
  }
    where
      entry : Entry
      entry = record {
        manager = mgr;
        events = to_bitmask (masks_with mgr op m mgr);
        revents = no_events;
      }

      only_old :
          (i : ℕ)
          → (is_polled i m.pollset || (mgr == i)) ≡ true
          → (i == mgr) ≡ false
          → is_polled i m.pollset ≡ true
      only_old i h other = ground arith

either_way :
    (b : Bool) {x y : Multiplexer}
    → IsConsistent x
    → IsConsistent y
    → IsConsistent (if b then x else y)
either_way true hx hy = hx
either_way false hx hy = hy

module _ (m : Multiplexer) (mgr : ℕ) (c : IsConsistent m) where
  register-IsConsistent :
      (flag : Operation) (f : Events → Events)
      → f (to_bitmask (m.masks mgr)) ≡ to_bitmask (bit_or (m.masks mgr) flag)
      → bit_or (m.masks mgr) flag < 4
      → bit_or (m.masks mgr) flag ≢ no_operation
      → IsConsistent (register flag f mgr m)
  unfolding mask_add
  register-IsConsistent flag f e lt some_op =
      either_way m.shutting_down c (elim (Bool-cases (m.masks mgr == no_operation)) [
        | inr active ↦
            let there : is_polled mgr m.pollset ≡ true =
              c.polled mgr (λ z. ground (arith, z, active)) in
            elim (Bool-cases (bit_and (m.masks mgr) flag == flag)) [
              | inl set ↦ rw (active, there, set) c
              | inr new ↦
                  rw (active, there, new)
                    (changed-IsConsistent mgr (bit_or (m.masks mgr) flag) m f e lt some_op there c)
            ]
        | inl idle ↦ elim (Bool-cases (bit_and (m.masks mgr) flag == flag)) [
          | inl set ↦ rw (idle, set) c
          | inr new ↦
              rw (idle, new)
                (added-IsConsistent mgr (bit_or (m.masks mgr) flag) m lt some_op (not_polled idle)
                  c)
        ]
      ])
    where
      not_polled : (m.masks mgr == no_operation) ≡ true → is_polled mgr m.pollset ≡ false
      not_polled idle = elim (Bool-cases (is_polled mgr m.pollset)) [
        | inl there ↦ absurd (c.idle mgr there ((==_iff (m.masks mgr) no_operation).0 idle))
        | inr gone ↦ gone
      ]

  -- Registering a manager for reading or for writing keeps the masks, the entries and their events
  -- consistent, in whatever state the multiplexer is.
  pub registering_keeps_consistency :
      IsConsistent (register_reading mgr m) × IsConsistent (register_writing mgr m)
  unfolding register_reading register_writing
  registering_keeps_consistency =
      let b = bits_added (m.masks mgr) (c.masks_lt mgr) in
      (
        register-IsConsistent read (λ e. record e { input = true }) (sym b.4) b.0 b.2,
        register-IsConsistent write (λ e. record e { output = true }) (sym b.5) b.1 b.3,
      )
