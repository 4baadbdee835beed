-- ===== src/Datagram.antt =====
-- caf/net/transport_base.hpp and caf/net/datagram_transport.hpp: the packets that wait to be sent,
-- and the buffers that are kept for later packets.
pub mod Workers
pub mod Events
pub mod Steps
pub mod Soundness
pub mod Routing
mod DatagramTests
use incubator.Prelude.{
  ℕ, suc, ◌+◌, Bool, true, false, ltb, if◌then◌else◌, Option, none, some, List, [], ◌∷◌, ◌++◌,
  length,
}
use incubator.Bytes.{Bytes}

-- datagram_transport::packet, for an endpoint that is a number.
pub record Packet : Type 0 where
  pub id : ℕ
  pub bytes : List Bytes

-- The member variables beside the next layer. The capacities are those of the vectors that hold the
-- cached buffers; the last buffer stands first. `writing` tells whether the multiplexer is asked to
-- report when the socket can be written, `failures` counts the errors of `write` other than that it
-- would block; `written` and `sent` log the packets that were queued and that the socket took.
pub record Datagram : Type 0 where
  pub header_bufs : List Bytes
  pub payload_bufs : List Bytes
  pub header_capacity : ℕ
  pub payload_capacity : ℕ
  pub max_consecutive_reads : ℕ
  pub packet_queue : List Packet
  pub writing : Bool
  pub failures : ℕ
  pub written : List Packet
  pub sent : List Packet

-- transport_base::init, on the configured numbers: `reserve` gives the capacity of a vector for which
-- as many elements are reserved, which may be more.
abbrev pub initial : (ℕ → ℕ) → ℕ → ℕ → ℕ → Datagram
initial reserve max_consecutive_reads max_header_bufs max_payload_bufs = record {
  header_bufs = [];
  payload_bufs = [];
  header_capacity = reserve max_header_bufs;
  payload_capacity = reserve max_payload_bufs;
  max_consecutive_reads = max_consecutive_reads;
  packet_queue = [];
  writing = false;
  failures = 0;
  written = [];
  sent = [];
}

abbrev pub pop_back : List Bytes → List Bytes
pop_back [] = []
pop_back (buf ∷ bufs) = bufs

-- The buffer is handed out; its bytes are gone.
abbrev pub next_header_buffer : Datagram → Datagram
next_header_buffer d = record d { header_bufs = pop_back d.header_bufs }

abbrev pub next_payload_buffer : Datagram → Datagram
next_payload_buffer d = record d { payload_bufs = pop_back d.payload_bufs }

abbrev has_packets : List Packet → Bool
has_packets [] = false
has_packets (p ∷ ps) = true

unfoldable pub write_packet : ℕ → List Bytes → Datagram → Datagram
write_packet id buffers d =
    let p : Packet = record { id = id; bytes = buffers } in
    record d {
      writing = if has_packets d.packet_queue then d.writing else true;
      packet_queue = d.packet_queue ++ (p ∷ []);
      written = d.written ++ (p ∷ []);
    }

-- The loop of the lambda `recycle` over the payload buffers.
abbrev pub recycle_payload : List Bytes → ℕ → List Bytes → List Bytes
recycle_payload [] capacity cache = cache
recycle_payload (buf ∷ bufs) capacity cache =
    let rest = recycle_payload bufs capacity ([] ∷ cache) in
    if ltb (length cache) capacity then rest else cache

-- A packet has a header buffer, as the source asserts.
abbrev pub recycle_buffers : List Bytes → Datagram → Datagram
recycle_buffers [] d = d
recycle_buffers (buf ∷ bufs) d =
    if ltb (length d.header_bufs) d.header_capacity
    then record d {
      header_bufs = [] ∷ d.header_bufs;
      payload_bufs = recycle_payload bufs d.payload_capacity d.payload_bufs;
    }
    else record d { payload_bufs = recycle_payload (buf ∷ bufs) d.payload_capacity d.payload_bufs }

abbrev pub count_failure : Datagram → Datagram
count_failure d = record d { failures = suc d.failures }

-- The first packet is sent, and its buffers are kept.
unfoldable pub recycle : Packet → List Packet → Datagram → Datagram
recycle p ps d =
    let d' = recycle_buffers p.bytes d in
    record d' { packet_queue = ps; sent = d'.sent ++ (p ∷ []) }
