-- ===== src/Basp/Application/Resolving.antt =====
-- Requests for paths and their answers.
use incubator.Prelude.{
  ℕ, ◌≡◌, refl, ap, ◌∙◌, arith, ◌==◌, if◌then◌else◌, Option, none, some, inl, inr, List, [], ◌∷◌,
  ◌++◌,
}
use incubator.Bytes.{Bytes, NetworkOrder}
use incubator.Basp.MessageQueue.{succ64}
use incubator.Basp.MessageType
use incubator.Basp.Header.{Header}
use incubator.Basp.Application.System.{
  Kinds, App, Core, Response, respond, lookup_failed, resolved, packet, find, emplace, erase,
}
use incubator.Basp.Application.Handlers.{handle_resolve_response}
use incubator.Basp.Application.Protocol.{resolve}

module _ {A : Type 0} where
  -- A map without the key.
  find-emplace :
      (key : ℕ) (a : A) (xs : List (ℕ × A))
      → find key xs ≡ none
      → find key (emplace key a xs) ≡ some a
  find-emplace key a [] h = ground arith
  find-emplace key a ((x, b) ∷ xs) h = ground (arith, find-emplace key a xs)

  erase_absent : (key : ℕ) (xs : List (ℕ × A)) → find key xs ≡ none → erase key xs ≡ xs
  erase_absent key [] h = refl
  erase_absent key ((x, b) ∷ xs) h = ground (arith, erase_absent key xs)

  erase-emplace :
      (key : ℕ) (a : A) (xs : List (ℕ × A)) → find key xs ≡ none → erase key (emplace key a xs) ≡ xs
  erase-emplace key a [] h = ground arith
  erase-emplace key a ((x, b) ∷ xs) h = ground (arith, erase-emplace key a xs)

  find-erase : (key : ℕ) (xs : List (ℕ × A)) → find key (erase key xs) ≡ none
  find-erase key [] = refl
  find-erase key ((x, b) ∷ xs) = ground (arith, find-erase key xs)

-- What a listener is to be told: a failed lookup for an unreadable answer, no actor for the ID 0,
-- and the proxy of the peer's actor otherwise.
abbrev pub told : {k : Kinds} → Core k → Option k.Node → Bytes → Response k
told core peer received = elim (core.read_resolved received) [
  | inl e ↦ lookup_failed
  | inr r ↦ resolved (if r.0 == 0 then none else core.get_or_put peer r.0) r.1
]

module _ ⦃net : NetworkOrder⦄ {k : Kinds} where
  answered :
      (core : Core k) (a : App k) (hdr : Header) (received : Bytes) (l : k.Listener)
      → find hdr.operation_data a.pending_resolves ≡ some l
      → (handle_resolve_response core a hdr received).1 ≡ record a {
        pending_resolves = erase hdr.operation_data a.pending_resolves;
        effects = a.effects ++ (respond l (told core a.peer_id received) ∷ []);
      }
  unfolding handle_resolve_response
  answered core a hdr received l e = ground arith

  ignored :
      (core : Core k) (a : App k) (hdr : Header) (received : Bytes)
      → find hdr.operation_data a.pending_resolves ≡ none
      → handle_resolve_response core a hdr received ≡ (none, a)
  unfolding handle_resolve_response
  ignored core a hdr received e = ground arith

  requested :
      (core : Core k) (a : App k) (path : Bytes) (l : k.Listener) (payload : Bytes)
      → core.write_path path ≡ inr payload
      → resolve core a path l ≡ record a {
        next_request_id = succ64 a.next_request_id;
        pending_resolves = emplace a.next_request_id l a.pending_resolves;
        effects = a.effects ++ (packet MessageType.resolve_request payload a.next_request_id ∷ []);
      }
  unfolding resolve
  requested core a path l payload e = ground (arith, e)

  abbrev NextAnswer : Core k → App k → Header → Bytes → Type 0
  NextAnswer core b hdr received = handle_resolve_response core b hdr received ≡ (none, b)

  -- Where the ID of the next request is not pending, and the path can be serialized: after `resolve`,
  -- the first answer with the ID of the request, whatever it holds, tells the listener the result,
  -- once, and takes the request off the pending ones, which are as before; a further answer with the
  -- ID changes nothing.
  pub resolve_answered_once :
      (core core' core'' : Core k) (a : App k) (path : Bytes) (l : k.Listener)
      (payload received again : Bytes) (hdr hdr' : Header)
      → find a.next_request_id a.pending_resolves ≡ none
      → core.write_path path ≡ inr payload
      → hdr.operation_data ≡ a.next_request_id
      → hdr'.operation_data ≡ a.next_request_id
      → ((handle_resolve_response core' (resolve core a path l) hdr received).1.pending_resolves
          ≡ a.pending_resolves)
        × ((handle_resolve_response core' (resolve core a path l) hdr received).1.effects
            ≡ (resolve core a path l).effects ++ (respond l (told core' a.peer_id received) ∷ []))
        × (handle_resolve_response core''
              (handle_resolve_response core' (resolve core a path l) hdr received).1
              hdr'
              again
            ≡ (none, (handle_resolve_response core' (resolve core a path l) hdr received).1))
  resolve_answered_once core core' core'' a path l payload received again hdr hdr' fresh w e e' =
      rw (requested core a path l payload w, first)
        (
          restored,
          refl,
          ignored core'' _ hdr' again (rw e' (ap (find a.next_request_id) restored ∙ fresh)),
        )
    where
      asked : App k
      asked = record a {
        next_request_id = succ64 a.next_request_id;
        pending_resolves = emplace a.next_request_id l a.pending_resolves;
        effects = a.effects ++ (packet MessageType.resolve_request payload a.next_request_id ∷ []);
      }

      first : (handle_resolve_response core' asked hdr received).1 ≡ record asked {
        pending_resolves = erase hdr.operation_data asked.pending_resolves;
        effects = asked.effects ++ (respond l (told core' a.peer_id received) ∷ []);
      }
      first =
          answered core' asked hdr received l
            (rw e (find-emplace a.next_request_id l a.pending_resolves fresh))

      restored :
          erase hdr.operation_data (emplace a.next_request_id l a.pending_resolves)
          ≡ a.pending_resolves
      restored = rw e (erase-emplace a.next_request_id l a.pending_resolves fresh)
