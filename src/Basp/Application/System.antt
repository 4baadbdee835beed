-- ===== src/Basp/Application/System.antt =====
-- The member variables of caf/net/basp/application.hpp, and what the application uses of the CAF
-- core library, which is not part of this repository: the serializers, the actor registry, the proxy
-- registry and the hub of idle workers.
use Prim.Native.String.{String}
use incubator.Prelude.{
  ℕ, ◌%◌, ◌^◌, Bool, ◌==◌, if◌then◌else◌, Option, none, some, ◌⊎◌, List, [], ◌∷◌, ◌++◌, length,
}
use incubator.Bytes.{Bytes, NetworkOrder}
use incubator.Net.Error.{Error}
use incubator.Basp.MessageQueue.{MessageQueue, init}
use incubator.Basp.MessageType.{MessageType}
use incubator.Basp.ConnectionState.{ConnectionState, await_handshake_header}
use incubator.Basp.Header.{Header, to_buffer}

-- The types of the actor system: nodes, actors and proxies, those who asked for a path, the
-- forwarding stack and content of a message, the reasons of an exit, the interfaces of an actor.
pub record Kinds : Type 1 where
  pub Node : Type 0
  pub Actor : Type 0
  pub Listener : Type 0
  pub Content : Type 0
  pub Reason : Type 0
  pub Interfaces : Type 0

module _ (k : Kinds) where
  -- A mailbox element.
  pub record Element : Type 0 where
    pub sender : Option k.Actor
    pub mid : ℕ
    pub content : k.Content

  -- What an actor message holds on the wire.
  pub record Remote : Type 0 where
    pub src_node : Option k.Node
    pub src_id : ℕ
    pub dst_id : ℕ
    pub message : k.Content

  -- What a listener is told.
  pub data Response : Type 0 where
    lookup_failed : Response
    resolved : Option k.Actor → k.Interfaces → Response

  -- The calls out of the application that change something: packets, the registries, messages to
  -- listeners and to receivers, jobs of workers.
  pub data Effect : Type 0 where
    write_packet : Bytes → Bytes → Effect
    put : ℕ → k.Actor → Effect
    respond : k.Listener → Response → Effect
    attach : k.Actor → Option k.Node → ℕ → Effect
    erase_proxy : Option k.Node → ℕ → k.Reason → Effect
    launch : ℕ → Header → Bytes → Effect
    enqueue_to : k.Actor → Option Element → Effect

  -- Member variables, and the effects so far.
  pub record App : Type 0 where
    pub state : ConnectionState
    pub hdr : Header
    pub peer_id : Option k.Node
    pub pending_resolves : List (ℕ × k.Listener)
    pub next_request_id : ℕ
    pub queue : MessageQueue k.Actor Element
    pub effects : List Effect

  -- What the actor system answers in one call. A failed serializer or deserializer gives its error.
  pub record Core : Type 0 where
    pub app_ids : List String
    pub read_handshake : Bytes → Error ⊎ (Option k.Node × List String)
    -- The announced size of the path, and what follows it.
    pub read_path : Bytes → Error ⊎ (ℕ × Bytes)
    pub read_resolved : Bytes → Error ⊎ (ℕ × k.Interfaces)
    pub read_reason : Bytes → Error ⊎ k.Reason
    pub read_message : Bytes → Error ⊎ Remote
    pub write_handshake : Error ⊎ Bytes
    pub write_path : Bytes → Error ⊎ Bytes
    pub write_resolved : ℕ → Error ⊎ Bytes
    pub write_reason : k.Reason → Error ⊎ Bytes
    pub write_envelope : Option (k.Node × ℕ) → ℕ → k.Content → Error ⊎ Bytes
    pub write_content : k.Content → Error ⊎ Bytes
    pub get : ℕ → Option k.Actor
    pub get_by_name : Bytes → Option k.Actor
    pub parse_id : Bytes → Option ℕ
    pub parse_name : Bytes → Option Bytes
    pub id_of : k.Actor → ℕ
    pub node_of : k.Actor → k.Node
    pub get_or_put : Option k.Node → ℕ → Option k.Actor
    pub unknown : k.Reason
    pub idle_worker : Bool

-- A function that returns `error`, where `none` stands for no error.
abbrev pub Outcome : Kinds → Type 0
Outcome k = Option Error × App k

module _ {k : Kinds} where
  abbrev pub emit : App k → Effect k → App k
  emit app e = record app { effects = app.effects ++ (e ∷ []) }

  -- The lines that serialize a header and hand it over with a payload. The header buffer may hold
  -- anything before.
  abbrev pub packet : ⦃net : NetworkOrder⦄ → MessageType → Bytes → ℕ → Effect k
  packet type payload operation_data =
      write_packet
        (to_buffer
          (record {
            type = type;
            payload_len = length payload % 2 ^ 32;
            operation_data = operation_data;
          })
          [])
        payload

-- `std::unordered_map`, with one entry for a key.
module _ {A : Type 0} where
  abbrev pub find : ℕ → List (ℕ × A) → Option A
  find key [] = none
  find key ((x, a) ∷ xs) = if x == key then some a else find key xs

  -- An entry that is there stays.
  abbrev pub emplace : ℕ → A → List (ℕ × A) → List (ℕ × A)
  emplace key a [] = (key, a) ∷ []
  emplace key a ((x, b) ∷ xs) = if x == key then (x, b) ∷ xs else (x, b) ∷ emplace key a xs

  abbrev pub erase : ℕ → List (ℕ × A) → List (ℕ × A)
  erase key [] = []
  erase key ((x, a) ∷ xs) = if x == key then erase key xs else (x, a) ∷ erase key xs

-- A fresh application.
abbrev pub initial : (k : Kinds) → App k
initial k = record {
  state = await_handshake_header;
  hdr = record { type = 0; payload_len = 0; operation_data = 0 };
  peer_id = none;
  pending_resolves = [];
  next_request_id = 1;
  queue = init;
  effects = [];
}
