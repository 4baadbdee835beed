-- ===== src/Datagram/Routing.antt =====
-- Which endpoint the packets of a worker go to, and where the map by endpoint leads.
pub mod Sender
use incubator.Prelude.{
  ℕ, zero, suc, ◌≡◌, refl, sym, ap, ◌∙◌, ◌==◌, ==_iff, Bool, true, false, Bool-cases, inl, inr,
  Option, none, some, Option-cases, List, [], ◌∷◌, ◌++◌, append_assoc, append-nil, All, All-append,
  length, get_elem?, subst, arith,
}
use mathlib.Core.Option.{some-injective}
use incubator.Bytes.{Bytes}
use incubator.Net.Error.{Error, Code}
use incubator.Datagram.{
  Packet, Datagram, initial, next_header_buffer, next_payload_buffer, write_packet, recycle,
}
use incubator.Datagram.Workers.{
  Call, header_buffer, payload_buffer, packet, Application, Worker, Transport, no_workers,
  find_worker, is_there, emplace, perform, set_application, on_worker, initialized, then_call,
  add_new_worker, handle_data, all_errors, handle_error,
}
use incubator.Datagram.Steps.{Steps, IsKept}
use incubator.Datagram.Steps.Keeping.{Steps-keeps}

abbrev pub IsFor : ℕ → Packet → Type 0
IsFor id p = p.id ≡ id

-- What was written beside the packets of another time goes to one endpoint.
abbrev pub AreAnswers : ℕ → List Packet → List Packet → Type 0
AreAnswers id before after = (ps : List Packet) × (after ≡ before ++ ps) × All (IsFor id) ps

pub perform-AreAnswers :
    (id : ℕ) (calls : List Call) (d : Datagram)
    → AreAnswers id d.written (perform id calls d).written
unfolding write_packet
perform-AreAnswers id [] d = ([], sym (append-nil d.written), tt)
perform-AreAnswers id (header_buffer ∷ calls) d = perform-AreAnswers id calls (next_header_buffer d)
perform-AreAnswers id (payload_buffer ∷ calls) d =
    perform-AreAnswers id calls (next_payload_buffer d)
perform-AreAnswers id (packet buffers ∷ calls) d =
    let p : Packet = record { id = id; bytes = buffers } in
    let rest = perform-AreAnswers id calls (write_packet id buffers d) in
    (p ∷ rest.0, rest.1 ∙ append_assoc d.written (p ∷ []) rest.0, (refl, rest.2))

pub AreAnswers-join :
    (id : ℕ) (a b c : List Packet) → AreAnswers id a b → AreAnswers id b c → AreAnswers id a c
AreAnswers-join id a b c (ps, e, h) (qs, e', h') = (
  ps ++ qs,
  e' ∙ ap (λ (xs : List Packet). xs ++ qs) e ∙ append_assoc a ps qs,
  All-append (IsFor id) ps qs h h',
)

module _ {A : Type 0} where
  abbrev pub ids : List (Worker A) → List ℕ
  ids [] = []
  ids (x ∷ xs) = x.id ∷ ids xs

  pub ids-set_application :
      (w : ℕ) (a : A) (ws : List (Worker A)) → ids (set_application w a ws) ≡ ids ws
  ids-set_application w a [] = refl
  ids-set_application zero a (x ∷ xs) = refl
  ids-set_application (suc w) a (x ∷ xs) = ap (◌∷◌ x.id) (ids-set_application w a xs)

  pub ids-append : (xs ys : List (Worker A)) → ids (xs ++ ys) ≡ ids xs ++ ids ys
  ids-append [] ys = refl
  ids-append (x ∷ xs) ys = ap (◌∷◌ x.id) (ids-append xs ys)

  pub get_elem?-ids :
      (w : ℕ) (ws : List (Worker A)) (x : Worker A)
      → get_elem? ws w ≡ some x
      → get_elem? (ids ws) w ≡ some x.id
  get_elem?-ids w [] x e = cc
  get_elem?-ids zero (y ∷ ys) x e = ap (λ (z : Worker A). some z.id) (some-injective _ _ e)
  get_elem?-ids (suc w) (y ∷ ys) x e = get_elem?-ids w ys x e

  pub get_elem?-last :
      (ws : List (Worker A)) (x : Worker A) → get_elem? (ws ++ (x ∷ [])) (length ws) ≡ some x
  get_elem?-last [] x = refl
  get_elem?-last (y ∷ ys) x = get_elem?-last ys x

get_elem?-append :
    (w id : ℕ) (xs ys : List ℕ) → get_elem? xs w ≡ some id → get_elem? (xs ++ ys) w ≡ some id
get_elem?-append w id [] ys e = cc
get_elem?-append zero id (x ∷ xs) ys e = e
get_elem?-append (suc w) id (x ∷ xs) ys e = get_elem?-append w id xs ys e

-- An entry leads to an element with its key.
abbrev Leads : List ℕ → ℕ × ℕ → Type 0
Leads is e = get_elem? is e.1 ≡ some e.0

-- Every entry leads to an element with its key.
abbrev LeadTo : List ℕ → List (ℕ × ℕ) → Type 0
LeadTo is entries = All (Leads is) entries

pub LeadTo-append :
    (is js : List ℕ) (entries : List (ℕ × ℕ)) → LeadTo is entries → LeadTo (is ++ js) entries
LeadTo-append is js [] h = tt
LeadTo-append is js ((k, w) ∷ entries) h =
    (get_elem?-append w k is js h.0, LeadTo-append is js entries h.1)

pub LeadTo-emplace :
    (is : List ℕ) (k w : ℕ) (entries : List (ℕ × ℕ))
    → get_elem? is w ≡ some k
    → LeadTo is entries
    → LeadTo is (emplace k w entries)
LeadTo-emplace is k w entries e h = elim (Bool-cases (is_there (find_worker k entries))) [
  | inl there ↦ rw there h
  | inr new ↦ rw new (All-append (Leads is) entries ((k, w) ∷ []) h (e, tt))
]

pub find_worker_leads :
    (is : List ℕ) (key w : ℕ) (entries : List (ℕ × ℕ))
    → LeadTo is entries
    → find_worker key entries ≡ some w
    → get_elem? is w ≡ some key
find_worker_leads is key w [] h e = cc
find_worker_leads is key w ((k, v) ∷ entries) h e = elim (Bool-cases (k == key)) [
  | inl same ↦
      let v≡w = some-injective _ _ (rw (same, find_worker) at e) in
      ap (get_elem? is) (sym v≡w) ∙ h.0 ∙ ap (λ (i : ℕ). some i) ((==_iff k key).0 same)
  | inr other ↦ find_worker_leads is key w entries h.1 (rw (other, find_worker) at e)
]
