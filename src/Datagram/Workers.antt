-- ===== src/Datagram/Workers.antt =====
-- caf/net/transport_worker.hpp and caf/net/transport_worker_dispatcher.hpp, with
-- caf/net/packet_writer_decorator.hpp between a worker and the transport. Endpoints, nodes and timeouts
-- are numbers; the default ones are 0.
use incubator.Prelude.{
  ℕ, zero, suc, ◌==◌, Bool, true, false, if◌then◌else◌, Option, none, some, List, [], ◌∷◌, ◌++◌,
  length, get_elem?,
}
use incubator.Bytes.{Bytes}
use incubator.Net.Error.{Error, Code}
use incubator.Datagram.{Datagram, next_header_buffer, next_payload_buffer, write_packet}

-- What an application asks of its writer, in order.
pub data Call : Type 0 where
  header_buffer payload_buffer : Call
  packet : List Bytes → Call

-- What else the layers call on an application.
pub data Event : Type 0 where
  resolve : Bytes → ℕ → Event
  new_proxy : ℕ → Event
  local_actor_down : ℕ → Error → Event
  timeout : Bytes → ℕ → Event

-- The applications, with a state `A`, and what their factory makes.
pub record Application (A : Type 0) : Type 0 where
  pub make : A
  pub init : A → Option Error × A × List Call
  pub handle_data : Bytes → A → Option Error × A × List Call
  pub write_message : Bytes → A → Option Error × A × List Call
  pub handle_event : Event → A → A × List Call
  pub handle_error : Code → A → A

pub record Worker (A : Type 0) : Type 0 where
  pub application : A
  pub id : ℕ

-- The maps hold pointers to workers that they share: indices of `workers`.
pub record Dispatcher (A : Type 0) : Type 0 where
  pub workers : List (Worker A)
  pub workers_by_id : List (ℕ × ℕ)
  pub workers_by_node : List (ℕ × ℕ)
  pub workers_by_timeout_id : List (ℕ × ℕ)
  -- The listeners that were told that a node could not be resolved.
  pub unresolved : List ℕ

pub record Transport (A : Type 0) : Type 0 where
  pub base : Datagram
  pub layer : Dispatcher A

abbrev pub no_workers : {A : Type 0} → Dispatcher A
no_workers = record {
  workers = [];
  workers_by_id = [];
  workers_by_node = [];
  workers_by_timeout_id = [];
  unresolved = [];
}

-- A message for an actor on a node, or for none.
pub record Message : Type 0 where
  pub receiver : Option ℕ
  pub content : Bytes

abbrev pub find_worker : ℕ → List (ℕ × ℕ) → Option ℕ
find_worker key [] = none
find_worker key ((k, w) ∷ entries) = if k == key then some w else find_worker key entries

abbrev pub is_there : Option ℕ → Bool
is_there none = false
is_there (some w) = true

-- unordered_map::emplace, which leaves an entry of the key alone.
abbrev pub emplace : ℕ → ℕ → List (ℕ × ℕ) → List (ℕ × ℕ)
emplace key w entries =
    if is_there (find_worker key entries) then entries else entries ++ ((key, w) ∷ [])

abbrev pub erase : ℕ → List (ℕ × ℕ) → List (ℕ × ℕ)
erase key [] = []
erase key ((k, w) ∷ entries) = if k == key then entries else (k, w) ∷ erase key entries

-- packet_writer_decorator: the packets of a worker go to its endpoint.
abbrev pub perform : ℕ → List Call → Datagram → Datagram
perform id [] d = d
perform id (header_buffer ∷ calls) d = perform id calls (next_header_buffer d)
perform id (payload_buffer ∷ calls) d = perform id calls (next_payload_buffer d)
perform id (packet buffers ∷ calls) d = perform id calls (write_packet id buffers d)

abbrev pub set_application : {A : Type 0} → ℕ → A → List (Worker A) → List (Worker A)
set_application w a [] = []
set_application zero a (x ∷ xs) = record x { application = a } ∷ xs
set_application (suc w) a (x ∷ xs) = x ∷ set_application w a xs

module _ {A : Type 0} (app : Application A) where
  -- After a call on the application of the worker at an index.
  abbrev pub after_call :
      ℕ → ℕ → Transport A → Option Error × A × List Call → Option Error × Transport A
  after_call w id t (err, a, calls) = (
    err,
    record {
      base = perform id calls t.base;
      layer = record t.layer { workers = set_application w a t.layer.workers };
    },
  )

  abbrev pub on_worker :
      ℕ → (A → Option Error × A × List Call) → Transport A → Option Error × Transport A
  on_worker w call t = elim (get_elem? t.layer.workers w) [
    | none ↦ (none, t)
    | some x ↦ after_call w x.id t (call x.application)
  ]

  abbrev pub event_call : Event → A → Option Error × A × List Call
  event_call e a = let r = app.handle_event e a in (none, r.0, r.1)

  -- The new worker, or the error of its initialization; the worker is stored only then.
  abbrev pub initialized :
      ℕ → ℕ → Transport A → Option Error × A × List Call → Option Error × ℕ × Transport A
  initialized node id t (some err, a, calls) =
      (some err, 0, record t { base = perform id calls t.base })
  initialized node id t (none, a, calls) =
      let w = length t.layer.workers in
      (
        none,
        w,
        record {
          base = perform id calls t.base;
          layer = record t.layer {
            workers = t.layer.workers ++ (record { application = a; id = id } ∷ []);
            workers_by_id = emplace id w t.layer.workers_by_id;
            workers_by_node = emplace node w t.layer.workers_by_node;
          };
        },
      )

  unfoldable pub add_new_worker : ℕ → ℕ → Transport A → Option Error × ℕ × Transport A
  add_new_worker node id t = initialized node id t (app.init app.make)

  abbrev pub then_call :
      (A → Option Error × A × List Call)
      → Option Error × ℕ × Transport A
      → Option Error × Transport A
  then_call call (some err, w, t) = (some err, t)
  then_call call (none, w, t) = on_worker w call t

  unfoldable pub handle_data : Bytes → ℕ → Transport A → Option Error × Transport A
  unfolding add_new_worker
  handle_data bytes id t = elim (find_worker id t.layer.workers_by_id) [
    | some w ↦ on_worker w (app.handle_data bytes) t
    | none ↦ then_call (app.handle_data bytes) (add_new_worker 0 id t)
  ]

  -- Errors of a worker that writes a message are logged only.
  unfoldable pub write_message : Message → Transport A → Transport A
  unfolding add_new_worker
  write_message msg t = elim (msg.receiver) [
    | none ↦ t
    | some nid ↦ elim (find_worker nid t.layer.workers_by_node) [
      | some w ↦ (on_worker w (app.write_message msg.content) t).1
      | none ↦ (then_call (app.write_message msg.content) (add_new_worker nid 0 t)).1
    ]
  ]

  -- new_proxy and local_actor_down of the dispatcher.
  unfoldable pub node_event : ℕ → Event → Transport A → Transport A
  node_event nid e t = elim (find_worker nid t.layer.workers_by_node) [
    | some w ↦ (on_worker w (event_call e) t).1
    | none ↦ t
  ]

  -- anon_send of an error to the listener.
  abbrev pub tell_unresolved : ℕ → Transport A → Transport A
  tell_unresolved listener t = record t {
    layer = record t.layer { unresolved = t.layer.unresolved ++ (listener ∷ []) };
  }

  unfoldable pub resolve_node : ℕ → Bytes → ℕ → Transport A → Transport A
  resolve_node nid path listener t = elim (find_worker nid t.layer.workers_by_node) [
    | some w ↦ (on_worker w (event_call (resolve path listener)) t).1
    | none ↦ tell_unresolved listener t
  ]

  abbrev pub note_timeout : ℕ → ℕ → Transport A → Transport A
  note_timeout timeout_id w t = record t {
    layer = record t.layer {
      workers_by_timeout_id = emplace timeout_id w t.layer.workers_by_timeout_id;
    };
  }

  -- `at` throws where the key is missing.
  unfoldable pub set_timeout : ℕ → ℕ → Transport A → Option (Transport A)
  set_timeout timeout_id id t = elim (find_worker id t.layer.workers_by_id) [
    | none ↦ none
    | some w ↦ some (note_timeout timeout_id w t)
  ]

  abbrev pub forget : ℕ → Transport A → Transport A
  forget id t = record t {
    layer = record t.layer { workers_by_timeout_id = erase id t.layer.workers_by_timeout_id };
  }

  unfoldable pub on_timeout : Bytes → ℕ → Transport A → Option (Transport A)
  on_timeout tag id t = elim (find_worker id t.layer.workers_by_timeout_id) [
    | none ↦ none
    | some w ↦ some (forget id (on_worker w (event_call (timeout tag id)) t).1)
  ]

  abbrev pub all_errors : Code → List (ℕ × ℕ) → List (Worker A) → List (Worker A)
  all_errors code [] ws = ws
  all_errors code ((id, w) ∷ entries) ws = elim (get_elem? ws w) [
    | none ↦ all_errors code entries ws
    | some x ↦ all_errors code entries (set_application w (app.handle_error code x.application) ws)
  ]

  abbrev pub handle_error : Code → Transport A → Transport A
  handle_error code t = record t {
    layer = record t.layer { workers = all_errors code t.layer.workers_by_id t.layer.workers };
  }
