-- ===== src/SocketMethods/Messages.antt =====
-- src/python_api/ops/sockets/sockets.c: `sendmsg` and `recvmsg`.
use uringio.Base.{ℕ, ℤ, Bool, false, Option, none, some}
use uringio.Enums.{oneshot, Opcode}
use uringio.Timer.{TimeoutParams}
use uringio.Buffers.Heap
use uringio.Buffers.Heap.{give_back}
use uringio.Buffers.Create.{get_or_create_vectored_buffer}
use uringio.Methods.{
  Site, S, pure, ◌>>=◌, ◌>>◌, make_payload, free_payload_at, create_future, with_args, or_null,
  refuse, send_request,
}
use uringio.Methods.Files.{context}
use uringio.SocketMethods.{
  Net, allocate, free_maybe, serialize_address, get_socket_size, check_sockets_result, guarded,
  socket_request,
}
use uringio.SocketMethods.Dispatch.{recvmsg_dispatcher, sendmsg_dispatcher}
use uringio.SocketMethods.Calls.{address_of}

pub record SendmsgArgs : Type 0 where
  pub buffers : ℕ
  pub host : Option ℕ
  pub port : ℤ
  pub domain : ℤ
  pub is_poll_first : Bool

module _ (site : Site) (net : Net) where
  -- `addrlen`, 0 without an address
  abbrev pub sendmsg_addrlen : (domain : ℤ) → Option ℕ → ℕ
  sendmsg_addrlen domain none = 0
  sendmsg_addrlen domain (some addr) = get_socket_size site net domain

  abbrev pub sendmsg_and_free : SendmsgArgs → TimeoutParams → Option ℕ → ℕ → ℤ → S ℤ
  sendmsg_and_free a t addr p idx = do
    result ←
        sendmsg_dispatcher site p net.transfer_mode idx (address_of addr)
          (sendmsg_addrlen a.domain addr) a.is_poll_first t
    free_maybe addr
    pure result

  abbrev pub sendmsg_payload : SendmsgArgs → TimeoutParams → Option ℕ → ℕ → S (Option ℕ)
  sendmsg_payload a t addr p = do
    future ← create_future site
    or_null site (do free_payload_at p false; free_maybe addr) future
        λ f.
          send_request site (socket_request site net f (some p) oneshot Opcode.sendmsg none none)
            (refuse site f (do free_payload_at p false; free_maybe addr))
            (sendmsg_and_free a t addr p) (check_sockets_result site net)

  -- From the address on; it stays when there is no payload.
  abbrev pub sendmsg_to : SendmsgArgs → TimeoutParams → Option ℕ → S (Option ℕ)
  sendmsg_to a t addr = do
    current ← context site
    payload ← make_payload (get_or_create_vectored_buffer site.host current (some a.buffers))
    or_null site (pure tt) payload (sendmsg_payload a t addr)

  abbrev pub sendmsg_host : SendmsgArgs → TimeoutParams → Option ℕ → S (Option ℕ)
  sendmsg_host a t none = sendmsg_to a t none
  sendmsg_host a t (some host) = do
    address ← serialize_address site net (some host) a.port a.domain
    or_null site (pure tt) address λ (addr, sockaddr). sendmsg_to a t (some addr)

  unfoldable pub uringio_socket_sendmsg : Option (SendmsgArgs × Option TimeoutParams) → S (Option ℕ)
  unfolding serialize_address get_socket_size get_or_create_vectored_buffer sendmsg_dispatcher
      send_request check_sockets_result free_payload_at give_back
  uringio_socket_sendmsg args =
      guarded site net
        (with_args site args λ (a, timeout). with_args site timeout λ t. sendmsg_host a t a.host)

  -- `recvmsg` once it has a future; when the registry is full, the header stays.
  abbrev pub recvmsg_future : (is_poll_first : Bool) → TimeoutParams → (p f : ℕ) → S (Option ℕ)
  recvmsg_future is_poll_first t p f = do
    msghdr ← allocate site.host net.sizeof_msghdr
    send_request site
        (socket_request site net f (some p) site.stream_strategy Opcode.recvmsg none msghdr)
        (refuse site f (free_payload_at p false))
        (λ idx.
          recvmsg_dispatcher site p site.stream_strategy idx is_poll_first (address_of msghdr) t)
        (check_sockets_result site net)

  abbrev pub recvmsg_payload : (is_poll_first : Bool) → TimeoutParams → ℕ → S (Option ℕ)
  recvmsg_payload is_poll_first t p = do
    future ← create_future site
    or_null site (free_payload_at p false) future (recvmsg_future is_poll_first t p)

  -- `obj` is what the variable holds, which has no initial value.
  unfoldable pub uringio_socket_recvmsg :
      Option (Option ℕ × Bool × Option TimeoutParams) → S (Option ℕ)
  unfolding get_or_create_vectored_buffer recvmsg_dispatcher send_request check_sockets_result
      free_payload_at give_back Heap.malloc
  uringio_socket_recvmsg args = guarded site net (
      with_args site args λ (obj, is_poll_first, timeout). with_args site timeout λ t. do
        current ← context site
        payload ← make_payload (get_or_create_vectored_buffer site.host current obj)
        or_null site (pure tt) payload (recvmsg_payload is_poll_first t))
