-- ===== src/Datagram/Routing/Sender.antt =====
-- The answers to a datagram go back to its sender.
use incubator.Prelude.{
  ℕ, ◌≡◌, refl, sym, ◌∙◌, inl, inr, Option, none, some, Option-cases, List, [], ◌∷◌, ◌++◌,
  append-nil, length, get_elem?, subst,
}
use mathlib.Core.Option.{some-injective}
use incubator.Bytes.{Bytes}
use incubator.Net.Error.{Error, Code}
use incubator.Datagram.{initial}
use incubator.Datagram.Workers.{
  Call, Application, Worker, Transport, no_workers, find_worker, perform, set_application,
  on_worker, initialized, then_call, add_new_worker, handle_data, all_errors,
}
use incubator.Datagram.Steps.{Steps, IsKept}
use incubator.Datagram.Steps.Keeping.{Steps-keeps}
use incubator.Datagram.Routing.{
  AreAnswers, LeadTo, ids, perform-AreAnswers, AreAnswers-join, ids-set_application, ids-append,
  get_elem?-ids, get_elem?-last, LeadTo-append, LeadTo-emplace, find_worker_leads,
}

module _ {A : Type 0} (app : Application A) where
  -- The map by endpoint leads to workers for the endpoint.
  abbrev pub Routes : Transport A → Type 0
  Routes t = LeadTo (ids t.layer.workers) t.layer.workers_by_id

  on_worker-Routes :
      (w : ℕ) (call : A → Option Error × A × List Call) (t : Transport A)
      → Routes t
      → Routes (on_worker app w call t).1
  on_worker-Routes w call t s = elim (Option-cases (get_elem? t.layer.workers w)) [
    | inl gone ↦ rw (gone, on_worker) s
    | inr (x, found) ↦
        let r = call x.application in
        rw (found, on_worker)
          (subst (λ is. LeadTo is t.layer.workers_by_id)
            (sym (ids-set_application w r.1 t.layer.workers)) s)
  ]

  last_id :
      (ws : List (Worker A)) (x : Worker A)
      → get_elem? (ids (ws ++ (x ∷ []))) (length ws) ≡ some x.id
  last_id ws x = get_elem?-ids (length ws) (ws ++ (x ∷ [])) x (get_elem?-last ws x)

  initialized-Routes :
      (node id : ℕ) (t : Transport A) (err : Option Error) (a : A) (calls : List Call)
      → Routes t
      → Routes (initialized app node id t (err, a, calls)).2
  initialized-Routes node id t (some err) a calls s = s
  initialized-Routes node id t none a calls s =
      let ws = t.layer.workers in
      let x : Worker A = record { application = a; id = id } in
      LeadTo-emplace (ids (ws ++ (x ∷ []))) id (length ws) t.layer.workers_by_id (last_id ws x) (
        subst (λ is. LeadTo is t.layer.workers_by_id) (sym (ids-append ws (x ∷ [])))
          (LeadTo-append (ids ws) (id ∷ []) t.layer.workers_by_id s))

  add_new_worker-Routes :
      (node id : ℕ) (t : Transport A) → Routes t → Routes (add_new_worker app node id t).2
  unfolding add_new_worker
  add_new_worker-Routes node id t s =
      let r = app.init app.make in initialized-Routes node id t r.0 r.1 r.2 s

  ids-all_errors :
      (code : Code) (entries : List (ℕ × ℕ)) (ws : List (Worker A))
      → ids (all_errors app code entries ws) ≡ ids ws
  ids-all_errors code [] ws = refl
  ids-all_errors code ((k, w) ∷ entries) ws = elim (Option-cases (get_elem? ws w)) [
    | inl gone ↦ rw (gone, all_errors) (ids-all_errors code entries ws)
    | inr (x, found) ↦
        let a = app.handle_error code x.application in
        rw (found, all_errors)
          (ids-all_errors code entries (set_application w a ws) ∙ ids-set_application w a ws)
  ]

  Routes-IsKept : IsKept app Routes
  Routes-IsKept = record {
    called = on_worker-Routes;
    added = add_new_worker-Routes;
    recycled = λ p ps t e s. s;
    unresolved = λ listener t s. s;
    noted = λ timeout_id w t s. s;
    forgotten = λ id t s. s;
    write_failed = λ code t s.
        subst (λ is. LeadTo is t.layer.workers_by_id)
          (sym (ids-all_errors code t.layer.workers_by_id t.layer.workers)) s;
    settled = λ ok t h s. s;
    failed = λ code t s.
        subst (λ is. LeadTo is t.layer.workers_by_id)
          (sym (ids-all_errors code t.layer.workers_by_id t.layer.workers)) s;
  }

  on_worker-AreAnswers :
      (w id : ℕ) (call : A → Option Error × A × List Call) (t : Transport A)
      → get_elem? (ids t.layer.workers) w ≡ some id
      → AreAnswers id t.base.written (on_worker app w call t).1.base.written
  on_worker-AreAnswers w id call t e = elim (Option-cases (get_elem? t.layer.workers w)) [
    | inl gone ↦ rw (gone, on_worker) ([], sym (append-nil t.base.written), tt)
    | inr (x, found) ↦
        let same : x.id ≡ id =
          some-injective _ _ (sym (get_elem?-ids w t.layer.workers x found) ∙ e) in
        rw (found, on_worker)
          (subst
            (λ i. AreAnswers i t.base.written (perform x.id (call x.application).2 t.base).written)
            same (perform-AreAnswers x.id (call x.application).2 t.base))
  ]

  new_worker-AreAnswers :
      (id : ℕ) (call : A → Option Error × A × List Call) (t : Transport A) (err : Option Error)
      (a : A) (calls : List Call)
      → AreAnswers id t.base.written
          (then_call app call (initialized app 0 id t (err, a, calls))).1.base.written
  new_worker-AreAnswers id call t (some err) a calls = perform-AreAnswers id calls t.base
  new_worker-AreAnswers id call t none a calls =
      let t₁ = (initialized app 0 id t (none, a, calls)).2 in
      let ws = t.layer.workers in
      AreAnswers-join id t.base.written t₁.base.written _ (perform-AreAnswers id calls t.base) (
        on_worker-AreAnswers (length ws) id call t₁
          (last_id ws (record { application = a; id = id })))

  handle_data-AreAnswers :
      (bytes : Bytes) (id : ℕ) (t : Transport A)
      → Routes t
      → AreAnswers id t.base.written (handle_data app bytes id t).1.base.written
  unfolding handle_data
  handle_data-AreAnswers bytes id t s = elim (Option-cases (find_worker id t.layer.workers_by_id)) [
    | inl new ↦
        let r = app.init app.make in
        rw (new, handle_data) (new_worker-AreAnswers id (app.handle_data bytes) t r.0 r.1 r.2)
    | inr (w, found) ↦
        rw (found, handle_data)
          (on_worker-AreAnswers w id (app.handle_data bytes) t
            (find_worker_leads (ids t.layer.workers) id w t.layer.workers_by_id s found))
  ]

  -- However the socket, the manager and the applications behaved, from an initialized datagram
  -- transport on: while the next datagram from an endpoint is handled, whatever its worker writes, and
  -- a new worker in its initialization, are packets for this endpoint, behind those written before.
  pub answers_reach_sender :
      (reserve : ℕ → ℕ) (reads headers payloads : ℕ) (t : Transport A) (bytes : Bytes) (id : ℕ)
      → Steps app (record { base = initial reserve reads headers payloads; layer = no_workers }) t
      → AreAnswers id t.base.written (handle_data app bytes id t).1.base.written
  answers_reach_sender reserve reads headers payloads t bytes id steps =
      handle_data-AreAnswers bytes id t (Steps-keeps app Routes-IsKept steps tt)
