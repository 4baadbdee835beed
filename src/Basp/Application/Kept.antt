-- ===== src/Basp/Application/Kept.antt =====
-- What the handlers of messages leave alone.
use incubator.Prelude.{ℕ, ◌≡◌, arith, some}
use incubator.Bytes.{Bytes, NetworkOrder}
use incubator.Basp.Header.{Header}
use incubator.Basp.Application.System.{Kinds, App, Core}
use incubator.Basp.Application.Handlers.{
  handle_remote_message, handle_actor_message, handle_resolve_request, handle_resolve_response,
  handle_monitor_message, handle_down_message, handle_message,
}
use incubator.Basp.Application.Protocol.{
  Message, init, resolve, new_proxy, local_actor_down, write_message, resume,
}

pub record Kept {k : Kinds} (a b : App k) : Type 0 where
  pub state_eq : b.state ≡ a.state
  pub hdr_eq : b.hdr ≡ a.hdr
  pub peer_eq : b.peer_id ≡ a.peer_id
  pub request_eq : b.next_request_id ≡ a.next_request_id

module _ ⦃net : NetworkOrder⦄ {k : Kinds} (core : Core k) where
  handle_down_message-Kept :
      (app : App k) (hdr : Header) (received : Bytes)
      → Kept app (handle_down_message core app hdr received).1
  unfolding handle_down_message
  handle_down_message-Kept app hdr received = ground arith

  handle_monitor_message-Kept :
      (app : App k) (hdr : Header) (received : Bytes)
      → Kept app (handle_monitor_message core app hdr received).1
  unfolding handle_monitor_message
  handle_monitor_message-Kept app hdr received = ground arith

  handle_resolve_response-Kept :
      (app : App k) (hdr : Header) (received : Bytes)
      → Kept app (handle_resolve_response core app hdr received).1
  unfolding handle_resolve_response
  handle_resolve_response-Kept app hdr received = ground arith

  handle_resolve_request-Kept :
      (app : App k) (hdr : Header) (received : Bytes)
      → Kept app (handle_resolve_request core app hdr received).1
  unfolding handle_resolve_request
  handle_resolve_request-Kept app hdr received = ground arith

  pub handle_remote_message-Kept :
      (app : App k) (id : ℕ) (hdr : Header) (received : Bytes)
      → Kept app (handle_remote_message core app id hdr received)
  unfolding handle_remote_message
  handle_remote_message-Kept app id hdr received = ground arith

  handle_actor_message-Kept :
      (app : App k) (hdr : Header) (received : Bytes)
      → Kept app (handle_actor_message core app hdr received).1
  unfolding handle_actor_message
  handle_actor_message-Kept app hdr received = ground arith

  pub handle_message-Kept :
      (app : App k) (hdr : Header) (received : Bytes)
      → Kept app (handle_message core app hdr received).1
  unfolding handle_message
  handle_message-Kept app hdr received = ground (
    arith,
    handle_actor_message-Kept app hdr received,
    handle_resolve_request-Kept app hdr received,
    handle_resolve_response-Kept app hdr received,
    handle_monitor_message-Kept app hdr received,
    handle_down_message-Kept app hdr received,
  )

module _ ⦃net : NetworkOrder⦄ {k : Kinds} where
  pub init-Kept : (core : Core k) (a : App k) → Kept a (init core a).1
  unfolding init
  init-Kept core a = ground arith

  pub new_proxy-Kept : (core : Core k) (a : App k) (id : ℕ) → Kept a (new_proxy core a id)
  unfolding new_proxy
  new_proxy-Kept core a id = ground arith

  pub local_actor_down-Kept :
      (core : Core k) (a b : App k) (id : ℕ) (reason : k.Reason)
      → local_actor_down core a id reason ≡ some b
      → Kept a b
  unfolding local_actor_down
  local_actor_down-Kept core a b id reason e = ground arith

  pub write_message-Kept :
      (core : Core k) (a : App k) (m : Message k) → Kept a (write_message core a m).1
  unfolding write_message
  write_message-Kept core a m = ground arith

  pub resume-Kept :
      (core : Core k) (a : App k) (id : ℕ) (hdr : Header) (payload : Bytes)
      → Kept a (resume core a id hdr payload)
  unfolding resume
  resume-Kept core a id hdr payload = handle_remote_message-Kept core a id hdr payload

  pub resolve-Kept :
      (core : Core k) (a : App k) (path : Bytes) (l : k.Listener)
      → Kept a (record (resolve core a path l) { next_request_id = a.next_request_id })
  unfolding resolve
  resolve-Kept core a path l = ground arith
