-- ===== src/SocketMethods/Dispatch.antt =====
-- src/python_api/ops/sockets/socket_ops_dispatcher.c: the operation that serves a stream strategy,
-- a buffer mode and a transfer mode.
use uringio.Base.{ℕ, ℤ, pos, Bool, ◌%◌, ◌^◌, if◌then◌else◌}
use uringio.Enums.{
  StreamStrategy, oneshot, multishot, TransferMode, normal_transfer, zero_copy, BufferMode,
  normal_buf, fixed, provided, buf_ring, buf_no_val,
}
use uringio.Timer.{TimeoutParams}
use uringio.Payload.{BufferPayload, is_fixed}
use uringio.BufferControllers.Index.{get_buffer_idx}
use uringio.Ops.Sockets.{
  uringio_accept, uringio_accept_multishot, uringio_recv, uringio_recv_multishot,
  uringio_recv_buffer_select, uringio_recvmsg, uringio_recvmsg_multishot,
  uringio_recvmsg_buffer_select, uringio_send, uringio_send_zc, uringio_send_zc_fixed,
  uringio_sendmsg, uringio_sendmsg_zc,
}
use uringio.Methods.{Site, S, ◌>>=◌, ◌>>◌, deref, in_ring, stored_payload}
use uringio.Methods.Dispatch.{take_index, set_buf_idx, is_multishot_stream}

module _ (site : Site) where
  unfoldable pub accept_dispatcher : StreamStrategy → ℤ → (addr len : ℕ) → TimeoutParams → S ℤ
  unfolding uringio_accept uringio_accept_multishot
  accept_dispatcher multishot request_idx addr len t =
      in_ring (uringio_accept_multishot site.liburing request_idx site.fd addr len (pos 0) t)
  accept_dispatcher oneshot request_idx addr len t =
      in_ring (uringio_accept site.liburing request_idx site.fd addr len (pos 0) t)

  module _ (request_idx : ℤ) (is_poll_first : Bool) (t : TimeoutParams) where
    abbrev pub recv_selected : StreamStrategy → BufferPayload → S ℤ
    recv_selected stream b = do
      linear ← deref b.linear
      if is_multishot_stream stream
          then in_ring (
              uringio_recv_multishot site.liburing request_idx site.fd linear.len b.bgid
                is_poll_first t)
          else in_ring (
              uringio_recv_buffer_select site.liburing request_idx site.fd linear.len b.bgid
                is_poll_first t)

    abbrev pub recv_into : BufferPayload → S ℤ
    recv_into b = do
      linear ← deref b.linear
      in_ring
          (uringio_recv site.liburing request_idx site.fd linear.buffer linear.len is_poll_first t)

    abbrev pub recv_by_mode : BufferMode → StreamStrategy → BufferPayload → S ℤ
    recv_by_mode provided stream b = recv_selected stream b
    recv_by_mode buf_ring stream b = recv_selected stream b
    recv_by_mode normal_buf stream b = recv_into b
    recv_by_mode buf_no_val stream b = recv_into b
    recv_by_mode fixed stream b = recv_into b

    abbrev pub recvmsg_selected : StreamStrategy → BufferPayload → (msghdr : ℕ) → S ℤ
    recvmsg_selected stream b msghdr =
        if is_multishot_stream stream
        then in_ring (
            uringio_recvmsg_multishot site.liburing request_idx site.fd b.bgid is_poll_first msghdr
              t)
        else in_ring
            (uringio_recvmsg_buffer_select site.liburing request_idx site.fd is_poll_first b.bgid t)

    abbrev pub recvmsg_into : BufferPayload → S ℤ
    recvmsg_into b = do
      vector ← deref b.vector
      in_ring (
          uringio_recvmsg site.liburing request_idx site.fd vector.iovecs vector.nr_vecs
            is_poll_first t)

    abbrev pub recvmsg_by_mode : BufferMode → StreamStrategy → BufferPayload → (msghdr : ℕ) → S ℤ
    recvmsg_by_mode provided stream b msghdr = recvmsg_selected stream b msghdr
    recvmsg_by_mode buf_ring stream b msghdr = recvmsg_selected stream b msghdr
    recvmsg_by_mode normal_buf stream b msghdr = recvmsg_into b
    recvmsg_by_mode buf_no_val stream b msghdr = recvmsg_into b
    recvmsg_by_mode fixed stream b msghdr = recvmsg_into b

    abbrev pub send_zc_fixed : ℕ → BufferPayload → S ℤ
    send_zc_fixed p b = do
      buf_idx ← take_index b.idx_registry
      set_buf_idx p b buf_idx
      linear ← deref b.linear
      in_ring (
          uringio_send_zc_fixed site.liburing request_idx site.fd linear.buffer linear.len
            is_poll_first buf_idx t)

    abbrev pub send_zc_from : BufferPayload → S ℤ
    send_zc_from b = do
      linear ← deref b.linear
      in_ring (
          uringio_send_zc site.liburing request_idx site.fd linear.buffer linear.len is_poll_first
            t)

    abbrev pub send_from : BufferPayload → S ℤ
    send_from b = do
      linear ← deref b.linear
      in_ring (
          uringio_send site.liburing request_idx site.fd linear.buffer (linear.len % 2 ^ 32)
            is_poll_first t)

    abbrev pub send_by_transfer : TransferMode → ℕ → BufferPayload → S ℤ
    send_by_transfer zero_copy p b = if is_fixed b.mode then send_zc_fixed p b else send_zc_from b
    send_by_transfer normal_transfer p b = send_from b

    abbrev pub sendmsg_zc : ℕ → BufferPayload → (addr addrlen : ℕ) → S ℤ
    sendmsg_zc p b addr addrlen = do
      buf_idx ← take_index b.idx_registry
      set_buf_idx p b buf_idx
      vector ← deref b.vector
      in_ring (
          uringio_sendmsg_zc site.liburing request_idx site.fd vector.iovecs vector.nr_vecs addr
            addrlen is_poll_first buf_idx t)

    abbrev pub sendmsg_from : BufferPayload → (addr addrlen : ℕ) → S ℤ
    sendmsg_from b addr addrlen = do
      vector ← deref b.vector
      in_ring (
          uringio_sendmsg site.liburing request_idx site.fd vector.iovecs vector.nr_vecs addr
            addrlen is_poll_first t)

    abbrev pub sendmsg_by_transfer : TransferMode → ℕ → BufferPayload → (addr addrlen : ℕ) → S ℤ
    sendmsg_by_transfer zero_copy p b addr addrlen = sendmsg_zc p b addr addrlen
    sendmsg_by_transfer normal_transfer p b addr addrlen = sendmsg_from b addr addrlen

  unfoldable pub recv_dispatcher :
      ℕ → StreamStrategy → ℤ → (is_poll_first : Bool) → TimeoutParams → S ℤ
  unfolding uringio_recv uringio_recv_multishot uringio_recv_buffer_select
  recv_dispatcher p stream request_idx is_poll_first t = do
    b ← stored_payload p
    recv_by_mode request_idx is_poll_first t b.mode stream b

  unfoldable pub recvmsg_dispatcher :
      ℕ → StreamStrategy → ℤ → (is_poll_first : Bool) → (msghdr : ℕ) → TimeoutParams → S ℤ
  unfolding uringio_recvmsg uringio_recvmsg_multishot uringio_recvmsg_buffer_select
  recvmsg_dispatcher p stream request_idx is_poll_first msghdr t = do
    b ← stored_payload p
    recvmsg_by_mode request_idx is_poll_first t b.mode stream b msghdr

  unfoldable pub send_dispatcher :
      ℕ → TransferMode → ℤ → (is_poll_first : Bool) → TimeoutParams → S ℤ
  unfolding get_buffer_idx uringio_send uringio_send_zc uringio_send_zc_fixed
  send_dispatcher p transfer request_idx is_poll_first t = do
    b ← stored_payload p
    send_by_transfer request_idx is_poll_first t transfer p b

  unfoldable pub sendmsg_dispatcher :
      ℕ → TransferMode → ℤ → (addr addrlen : ℕ) → (is_poll_first : Bool) → TimeoutParams → S ℤ
  unfolding get_buffer_idx uringio_sendmsg uringio_sendmsg_zc
  sendmsg_dispatcher p transfer request_idx addr addrlen is_poll_first t = do
    b ← stored_payload p
    sendmsg_by_transfer request_idx is_poll_first t transfer p b addr addrlen
