-- ===== src/Ops/Sockets.antt =====
-- src/ops/sockets: the socket operations that are submitted to the ring.
pub mod Requests
pub mod Laws
pub mod Creation
use uringio.Base.{
  ℕ, ℤ, pos, negsuc, eqb_ℤ, to_u16, to_u32, Bool, true, false, ◌||◌, List, [], some, if◌then◌else◌,
  ◌%◌, ◌^◌, ◌∷◌,
}
use uringio.Uring.{
  Iovec, Msghdr, Prep, prep, or_flags, or_ioprio, set_buf_group, set_buf_index, Liburing, M, pure,
  ◌>>◌, call,
}
use uringio.Timer.{TimeoutParams}
use uringio.Ops.{with_optional_timeout, submit_request}

-- `memset(&msg, 0, sizeof(msg))`
abbrev pub zero_msghdr : Msghdr
zero_msghdr = record {
  msg_name = 0;
  msg_namelen = 0;
  msg_iov = [];
  msg_iovlen = 0;
  msg_control = 0;
  msg_controllen = 0;
}

-- A message for `iovecs` that goes to, or comes from, the address at `addr`. `addrlen` is cast to
-- `socklen_t`.
abbrev pub msghdr_of : List Iovec → ℕ → ℕ → ℕ → Msghdr
msghdr_of iovecs nr_vecs addr addrlen = record zero_msghdr {
  msg_name = addr;
  msg_namelen = addrlen % 2 ^ 32;
  msg_iov = iovecs;
  msg_iovlen = nr_vecs;
}

module _ (u : Liburing) where
  abbrev pub poll_first : Bool → ℤ
  poll_first is_poll_first = if is_poll_first then u.ioring_recvsend_poll_first else pos 0

  unfoldable pub prep_socket : ℤ → ℤ → ℤ → TimeoutParams → M ℤ
  unfolding with_optional_timeout submit_request
  prep_socket request_idx domain type timeout_params =
      with_optional_timeout u (some timeout_params) λ sqe.
        if eqb_ℤ domain u.af_inet || eqb_ℤ domain u.af_inet6
        then (do
          call (prep sqe (Prep.socket domain type (pos 0) 0))
          submit_request u sqe request_idx)
        else pure (negsuc 1)

  unfoldable pub uringio_bind : ℤ → ℤ → ℕ → ℕ → TimeoutParams → M ℤ
  unfolding with_optional_timeout submit_request
  uringio_bind request_idx fd addr addrlen timeout_params =
      with_optional_timeout u (some timeout_params)
        λ sqe. do call (prep sqe (Prep.bind fd addr addrlen)); submit_request u sqe request_idx

  unfoldable pub uringio_connect : ℤ → ℤ → ℕ → ℕ → TimeoutParams → M ℤ
  unfolding with_optional_timeout submit_request
  uringio_connect request_idx fd addr addrlen timeout_params =
      with_optional_timeout u (some timeout_params)
        λ sqe. do call (prep sqe (Prep.connect fd addr addrlen)); submit_request u sqe request_idx

  unfoldable pub uringio_listen : ℤ → ℤ → ℤ → TimeoutParams → M ℤ
  unfolding with_optional_timeout submit_request
  uringio_listen request_idx fd backlog timeout_params =
      with_optional_timeout u (some timeout_params)
        λ sqe. do call (prep sqe (Prep.listen fd backlog)); submit_request u sqe request_idx

  unfoldable pub uringio_accept : ℤ → ℤ → ℕ → ℕ → ℤ → TimeoutParams → M ℤ
  unfolding with_optional_timeout submit_request
  uringio_accept request_idx sockfd addr len flags timeout_params =
      with_optional_timeout u (some timeout_params) λ sqe. do
        call (prep sqe (Prep.accept sockfd addr len flags))
        submit_request u sqe request_idx

  unfoldable pub uringio_close_socket : ℤ → ℤ → TimeoutParams → M ℤ
  unfolding with_optional_timeout submit_request
  uringio_close_socket request_idx sockfd timeout_params =
      with_optional_timeout u (some timeout_params)
        λ sqe. do call (prep sqe (Prep.close sockfd)); submit_request u sqe request_idx

  unfoldable pub uringio_send : ℤ → ℤ → ℕ → ℕ → Bool → TimeoutParams → M ℤ
  unfolding with_optional_timeout submit_request
  uringio_send request_idx sockfd buf len is_poll_first timeout_params =
      with_optional_timeout u (some timeout_params) λ sqe. do
        call (prep sqe (Prep.send sockfd buf len (poll_first is_poll_first)))
        submit_request u sqe request_idx

  unfoldable pub uringio_recv : ℤ → ℤ → ℕ → ℕ → Bool → TimeoutParams → M ℤ
  unfolding with_optional_timeout submit_request
  uringio_recv request_idx sockfd buf len is_poll_first timeout_params =
      with_optional_timeout u (some timeout_params) λ sqe. do
        call (prep sqe (Prep.recv sockfd buf len (poll_first is_poll_first)))
        submit_request u sqe request_idx

  unfoldable pub uringio_sendto : ℤ → ℤ → ℕ → ℕ → ℕ → ℕ → Bool → TimeoutParams → M ℤ
  unfolding with_optional_timeout submit_request
  uringio_sendto request_idx sockfd buf len addr addrlen is_poll_first timeout_params =
      with_optional_timeout u (some timeout_params) λ sqe. do
        call (
            prep sqe
              (Prep.sendto sockfd buf len (poll_first is_poll_first) addr (addrlen % 2 ^ 32)))
        submit_request u sqe request_idx

  unfoldable pub uringio_recvfrom : ℤ → ℤ → ℕ → ℕ → ℕ → ℕ → Bool → TimeoutParams → M ℤ
  unfolding with_optional_timeout submit_request
  uringio_recvfrom request_idx sockfd buf len addr addrlen is_poll_first timeout_params =
      with_optional_timeout u (some timeout_params) λ sqe. do
        call (
            prep sqe (
              Prep.recvmsg sockfd
                (msghdr_of (record { iov_base = buf; iov_len = len } ∷ []) 1 addr addrlen)
                (to_u32 (poll_first is_poll_first))))
        submit_request u sqe request_idx

  unfoldable pub uringio_sendmsg : ℤ → ℤ → List Iovec → ℕ → ℕ → ℕ → Bool → TimeoutParams → M ℤ
  unfolding with_optional_timeout submit_request
  uringio_sendmsg request_idx sockfd iovecs nr_vecs addr addrlen is_poll_first timeout_params =
      with_optional_timeout u (some timeout_params) λ sqe. do
        call (
            prep sqe (
              Prep.sendmsg sockfd (msghdr_of iovecs nr_vecs addr addrlen)
                (to_u32 (poll_first is_poll_first))))
        submit_request u sqe request_idx

  unfoldable pub uringio_recvmsg : ℤ → ℤ → List Iovec → ℕ → Bool → TimeoutParams → M ℤ
  unfolding with_optional_timeout submit_request
  uringio_recvmsg request_idx sockfd iovecs nr_vecs is_poll_first timeout_params =
      with_optional_timeout u (some timeout_params) λ sqe. do
        call (
            prep sqe (
              Prep.recvmsg sockfd (msghdr_of iovecs nr_vecs 0 0)
                (to_u32 (poll_first is_poll_first))))
        submit_request u sqe request_idx

  unfoldable pub uringio_recv_buffer_select : ℤ → ℤ → ℕ → ℤ → Bool → TimeoutParams → M ℤ
  unfolding with_optional_timeout submit_request
  uringio_recv_buffer_select request_idx sockfd len bgid is_poll_first timeout_params =
      with_optional_timeout u (some timeout_params) λ sqe. do
        call (prep sqe (Prep.recv sockfd 0 len (poll_first is_poll_first)))
        call (or_flags sqe u.iosqe_buffer_select)
        call (set_buf_group sqe (to_u16 bgid))
        submit_request u sqe request_idx

  unfoldable pub uringio_recvmsg_buffer_select : ℤ → ℤ → Bool → ℤ → TimeoutParams → M ℤ
  unfolding with_optional_timeout submit_request
  uringio_recvmsg_buffer_select request_idx sockfd is_poll_first bgid timeout_params =
      with_optional_timeout u (some timeout_params) λ sqe. do
        call (prep sqe (Prep.recvmsg sockfd zero_msghdr (to_u32 (poll_first is_poll_first))))
        call (or_flags sqe u.iosqe_buffer_select)
        call (set_buf_group sqe (to_u16 bgid))
        submit_request u sqe request_idx

  unfoldable pub uringio_recv_fixed : ℤ → ℤ → ℕ → ℕ → Bool → ℤ → TimeoutParams → M ℤ
  unfolding with_optional_timeout submit_request
  uringio_recv_fixed request_idx sockfd buf len is_poll_first buf_index timeout_params =
      with_optional_timeout u (some timeout_params) λ sqe. do
        call (prep sqe (Prep.recv sockfd buf len (poll_first is_poll_first)))
        call (set_buf_index sqe (to_u16 buf_index))
        call (or_ioprio sqe u.ioring_recvsend_fixed_buf)
        submit_request u sqe request_idx

  unfoldable pub uringio_recvmsg_fixed : ℤ → ℤ → List Iovec → ℕ → Bool → ℤ → TimeoutParams → M ℤ
  unfolding with_optional_timeout submit_request
  uringio_recvmsg_fixed request_idx sockfd iovecs nr_vecs is_poll_first buf_index timeout_params =
      with_optional_timeout u (some timeout_params) λ sqe. do
        call (
            prep sqe (
              Prep.recvmsg sockfd (msghdr_of iovecs nr_vecs 0 0)
                (to_u32 (poll_first is_poll_first))))
        call (set_buf_index sqe (to_u16 buf_index))
        call (or_ioprio sqe u.ioring_recvsend_fixed_buf)
        submit_request u sqe request_idx

  unfoldable pub uringio_accept_multishot : ℤ → ℤ → ℕ → ℕ → ℤ → TimeoutParams → M ℤ
  unfolding with_optional_timeout submit_request
  uringio_accept_multishot request_idx sockfd addr len flags timeout_params =
      with_optional_timeout u (some timeout_params) λ sqe. do
        call (prep sqe (Prep.multishot_accept sockfd addr len flags))
        submit_request u sqe request_idx

  unfoldable pub uringio_recv_multishot : ℤ → ℤ → ℕ → ℤ → Bool → TimeoutParams → M ℤ
  unfolding with_optional_timeout submit_request
  uringio_recv_multishot request_idx sockfd len bgid is_poll_first timeout_params =
      with_optional_timeout u (some timeout_params) λ sqe. do
        call (prep sqe (Prep.recv_multishot sockfd 0 len (poll_first is_poll_first)))
        call (set_buf_group sqe (to_u16 bgid))
        call (or_flags sqe u.iosqe_buffer_select)
        submit_request u sqe request_idx

  unfoldable pub uringio_recvmsg_multishot : ℤ → ℤ → ℤ → Bool → ℕ → TimeoutParams → M ℤ
  unfolding with_optional_timeout submit_request
  uringio_recvmsg_multishot request_idx sockfd bgid is_poll_first msghdr timeout_params =
      with_optional_timeout u (some timeout_params) λ sqe. do
        call (prep sqe (Prep.recvmsg_multishot sockfd msghdr (to_u32 (poll_first is_poll_first))))
        call (set_buf_group sqe (to_u16 bgid))
        call (or_flags sqe u.iosqe_buffer_select)
        submit_request u sqe request_idx

  unfoldable pub uringio_send_zc : ℤ → ℤ → ℕ → ℕ → Bool → TimeoutParams → M ℤ
  unfolding with_optional_timeout submit_request
  uringio_send_zc request_idx sockfd buf len is_poll_first timeout_params =
      with_optional_timeout u (some timeout_params) λ sqe. do
        call (prep sqe (Prep.send_zc sockfd buf len (poll_first is_poll_first) 0))
        submit_request u sqe request_idx

  unfoldable pub uringio_send_zc_fixed : ℤ → ℤ → ℕ → ℕ → Bool → ℤ → TimeoutParams → M ℤ
  unfolding with_optional_timeout submit_request
  uringio_send_zc_fixed request_idx sockfd buf len is_poll_first buf_index timeout_params =
      with_optional_timeout u (some timeout_params) λ sqe. do
        call (
            prep sqe
              (Prep.send_zc_fixed sockfd buf len (poll_first is_poll_first) 0 (to_u32 buf_index)))
        submit_request u sqe request_idx

  unfoldable pub uringio_sendmsg_zc :
      ℤ → ℤ → List Iovec → ℕ → ℕ → ℕ → Bool → ℤ → TimeoutParams → M ℤ
  unfolding with_optional_timeout submit_request
  uringio_sendmsg_zc request_idx sockfd iovecs nr_vecs addr addrlen is_poll_first buf_index
        timeout_params =
      with_optional_timeout u (some timeout_params) λ sqe. do
        call (
            prep sqe (
              Prep.sendmsg_zc sockfd (msghdr_of iovecs nr_vecs addr addrlen)
                (to_u32 (poll_first is_poll_first))))
        call (set_buf_index sqe (to_u16 buf_index))
        call (or_ioprio sqe u.ioring_recvsend_fixed_buf)
        submit_request u sqe request_idx
