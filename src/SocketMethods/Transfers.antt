-- ===== src/SocketMethods/Transfers.antt =====
-- src/python_api/ops/sockets/sockets.c: `send`, `recv`, `sendto` and `recvfrom`.
use uringio.Base.{ℕ, ℤ, Bool, false, ◌%◌, ◌^◌, Option, none, some}
use uringio.Enums.{oneshot, Opcode}
use uringio.Timer.{TimeoutParams}
use uringio.Buffers.Heap
use uringio.Buffers.Heap.{give_back}
use uringio.Buffers.Create.{create_buffer_payload_from_data, get_or_create_linear_buffer}
use uringio.Ops.Sockets.{uringio_sendto, uringio_recvfrom}
use uringio.Methods.{
  Site, S, pure, ◌>>=◌, ◌>>◌, deref, in_ring, raise, make_payload, stored_payload, free_payload_at,
  create_future, with_args, or_null, refuse, send_request,
}
use uringio.Methods.Files.{context}
use uringio.SocketMethods.{
  Net, allocate, free_block, serialize_address, get_socket_size, check_sockets_result, guarded,
  socket_request,
}
use uringio.SocketMethods.Dispatch.{recv_dispatcher, send_dispatcher}

-- The arguments of `sendto` and `recvfrom`; `from` is the data, and `to` the buffer, if any.
pub record SendtoArgs : Type 0 where
  pub from : ℕ
  pub host : ℕ
  pub port : ℤ
  pub domain : ℤ
  pub is_poll_first : Bool

-- `host`, `port` and `domain` are what the variables hold, which have no initial value.
pub record RecvfromArgs : Type 0 where
  pub bufsize : ℤ
  pub to : Option ℕ
  pub host : Option ℕ
  pub port : ℤ
  pub domain : ℤ
  pub is_poll_first : Bool

module _ (site : Site) (net : Net) where
  abbrev pub send_payload : (is_poll_first : Bool) → TimeoutParams → ℕ → S (Option ℕ)
  send_payload is_poll_first t p = do
    future ← create_future site
    or_null site (free_payload_at p false) future λ f.
        send_request site (socket_request site net f (some p) oneshot Opcode.send none none)
          (refuse site f (free_payload_at p false))
          (λ idx. send_dispatcher site p net.transfer_mode idx is_poll_first t)
          (check_sockets_result site net)

  unfoldable pub uringio_socket_send : Option (ℕ × Bool × Option TimeoutParams) → S (Option ℕ)
  unfolding create_buffer_payload_from_data send_dispatcher send_request check_sockets_result
      free_payload_at give_back
  uringio_socket_send args = guarded site net (
      with_args site args λ (obj, is_poll_first, timeout). with_args site timeout λ t. do
        payload ← make_payload (create_buffer_payload_from_data site.host obj)
        or_null site (pure tt) payload (send_payload is_poll_first t))

  abbrev pub recv_payload : (is_poll_first : Bool) → TimeoutParams → ℕ → S (Option ℕ)
  recv_payload is_poll_first t p = do
    future ← create_future site
    or_null site (free_payload_at p false) future λ f.
        send_request site
          (socket_request site net f (some p) site.stream_strategy Opcode.recv none none)
          (refuse site f (free_payload_at p false))
          (λ idx. recv_dispatcher site p site.stream_strategy idx is_poll_first t)
          (check_sockets_result site net)

  unfoldable pub uringio_socket_recv :
      Option (ℤ × Option ℕ × Bool × Option TimeoutParams) → S (Option ℕ)
  unfolding get_or_create_linear_buffer recv_dispatcher send_request check_sockets_result
      free_payload_at give_back
  uringio_socket_recv args = guarded site net (
      with_args site args λ (bufsize, obj, is_poll_first, timeout). with_args site timeout λ t. do
        current ← context site
        payload ← make_payload (get_or_create_linear_buffer site.host current obj bufsize)
        or_null site (pure tt) payload (recv_payload is_poll_first t))

  -- The request of `sendto` does not name the payload, and the address is freed at once.
  abbrev pub sendto_and_free : SendtoArgs → TimeoutParams → (p addr : ℕ) → ℤ → S ℤ
  sendto_and_free a t p addr idx = do
    b ← stored_payload p
    linear ← deref b.linear
    result ← in_ring (
        uringio_sendto site.liburing idx site.fd linear.buffer (linear.len % 2 ^ 32) addr
          (get_socket_size site net a.domain) a.is_poll_first t)
    free_block addr
    pure result

  abbrev pub sendto_payload : SendtoArgs → TimeoutParams → (addr p : ℕ) → S (Option ℕ)
  sendto_payload a t addr p = do
    future ← create_future site
    or_null site (do free_block addr; free_payload_at p false) future
        λ f.
          send_request site (socket_request site net f none oneshot Opcode.sendmsg none none)
            (refuse site f (do free_block addr; free_payload_at p false))
            (sendto_and_free a t p addr) (check_sockets_result site net)

  unfoldable pub uringio_socket_sendto : Option (SendtoArgs × Option TimeoutParams) → S (Option ℕ)
  unfolding serialize_address get_socket_size create_buffer_payload_from_data uringio_sendto
      send_request check_sockets_result free_payload_at give_back
  uringio_socket_sendto args = guarded site net (
      with_args site args λ (a, timeout). with_args site timeout λ t. do
        address ← serialize_address site net (some a.host) a.port a.domain
        or_null site (pure tt) address λ (addr, sockaddr). do
          payload ← make_payload (create_buffer_payload_from_data site.host a.from)
          or_null site (free_block addr) payload (sendto_payload a t addr))

  -- The three that `recvfrom` undoes.
  abbrev pub undo_recvfrom : (addr p msg : ℕ) → S (Unit {0})
  undo_recvfrom addr p msg = do free_payload_at p false; free_block addr; free_block msg

  abbrev pub recvfrom_into : RecvfromArgs → TimeoutParams → (addr p : ℕ) → ℤ → S ℤ
  recvfrom_into a t addr p idx = do
    b ← stored_payload p
    linear ← deref b.linear
    in_ring (
        uringio_recvfrom site.liburing idx site.fd linear.buffer linear.len addr
          (get_socket_size site net a.domain) a.is_poll_first t)

  abbrev pub recvfrom_msg : RecvfromArgs → TimeoutParams → (addr p : ℕ) → Option ℕ → S (Option ℕ)
  recvfrom_msg a t addr p none = do free_payload_at p false; free_block addr; raise
  recvfrom_msg a t addr p (some msg) = do
    future ← create_future site
    or_null site (undo_recvfrom addr p msg) future λ f.
        send_request site
          (socket_request site net f (some p) oneshot Opcode.recvmsg (some addr) (some msg))
          (refuse site f (undo_recvfrom addr p msg)) (recvfrom_into a t addr p)
          (check_sockets_result site net)

  unfoldable pub uringio_socket_recvfrom :
      Option (RecvfromArgs × Option TimeoutParams) → S (Option ℕ)
  unfolding serialize_address get_socket_size get_or_create_linear_buffer uringio_recvfrom
      send_request check_sockets_result free_payload_at give_back Heap.malloc
  uringio_socket_recvfrom args = guarded site net (
      with_args site args λ (a, timeout). with_args site timeout λ t. do
        address ← serialize_address site net a.host a.port a.domain
        or_null site (pure tt) address λ (addr, sockaddr). do
          current ← context site
          payload ← make_payload (get_or_create_linear_buffer site.host current a.to a.bufsize)
          or_null site (free_block addr) payload
              λ p. do msg ← allocate site.host net.sizeof_msghdr_iovec; recvfrom_msg a t addr p msg)
