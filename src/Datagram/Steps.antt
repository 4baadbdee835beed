-- ===== src/Datagram/Steps.antt =====
-- What can happen to a datagram transport, in any order.
pub mod Stopping
pub mod Keeping
use incubator.Prelude.{ℕ, ◌<◌, Bool, true, ◌⊎◌, ◌≡◌, List, ◌∷◌, ◌++◌, Option, some, none, []}
use incubator.Bytes.{Bytes}
use incubator.Net.Error.{Error, Code}
use incubator.Datagram.{Packet, Datagram, recycle, count_failure}
use incubator.Datagram.Workers.{
  Call, Event, Application, Transport, Message, find_worker, on_worker, add_new_worker, node_event,
  resolve_node, tell_unresolved, set_timeout, note_timeout, on_timeout, forget, handle_error,
}
use incubator.Datagram.Events.{
  ReadResult, WriteResult, handle_write_event, handle_read_event, settle,
}

-- A write event that does not ask to be called again: no packet waits, or a write failed.
abbrev pub MayStop : Bool → Datagram → Type 0
MayStop ok d = (ok ≡ true) ⊎ (d.packet_queue ≡ []) ⊎ (0 < d.failures)

module _ {A : Type 0} (app : Application A) where
  -- What can happen to a transport: the events of its socket, the calls of its manager, and a worker
  -- that is added from the outside.
  pub data Step : Transport A → Transport A → Type 0 where
    read :
        {t : Transport A} (results : List ReadResult) → Step t (handle_read_event app results t).1
    write :
        {t : Transport A} (msgs : List Message) (results : List WriteResult)
        → Step t (settle (handle_write_event app msgs results t))
    worker_added : {t : Transport A} (node id : ℕ) → Step t (add_new_worker app node id t).2
    node_told : {t : Transport A} (nid : ℕ) (e : Event) → Step t (node_event app nid e t)
    resolved :
        {t : Transport A} (nid : ℕ) (path : Bytes) (listener : ℕ)
        → Step t (resolve_node app nid path listener t)
    timeout_set :
        {t t' : Transport A} (timeout_id id : ℕ)
        → set_timeout app timeout_id id t ≡ some t'
        → Step t t'
    timed_out :
        {t t' : Transport A} (tag : Bytes) (id : ℕ) → on_timeout app tag id t ≡ some t' → Step t t'
    failed : {t : Transport A} (code : Code) → Step t (handle_error app code t)

  pub data Steps : Transport A → Transport A → Type 0 where
    done : {t : Transport A} → Steps t t
    and_then : {t t' t'' : Transport A} → Steps t t' → Step t' t'' → Steps t t''

  -- The changes that the events are made of, and that a predicate stands.
  pub record IsKept (P : Transport A → Type 0) : Type 0 where
    pub called :
        (w : ℕ) (call : A → Option Error × A × List Call) (t : Transport A)
        → P t
        → P (on_worker app w call t).1
    pub added : (node id : ℕ) (t : Transport A) → P t → P (add_new_worker app node id t).2
    pub recycled :
        (p : Packet) (ps : List Packet) (t : Transport A)
        → t.base.packet_queue ≡ p ∷ ps
        → P t
        → P (record t { base = recycle p ps t.base })
    pub unresolved : (listener : ℕ) (t : Transport A) → P t → P (tell_unresolved app listener t)
    pub noted : (timeout_id w : ℕ) (t : Transport A) → P t → P (note_timeout app timeout_id w t)
    pub forgotten : (id : ℕ) (t : Transport A) → P t → P (forget app id t)
    pub failed : (code : Code) (t : Transport A) → P t → P (handle_error app code t)
    pub write_failed :
        (code : Code) (t : Transport A)
        → P t
        → P (handle_error app code (record t { base = count_failure t.base }))
    pub settled : (ok : Bool) (t : Transport A) → MayStop ok t.base → P t → P (settle (ok, t))
