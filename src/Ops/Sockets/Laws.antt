-- ===== src/Ops/Sockets/Laws.antt =====
-- Every operation of src/ops/sockets on a socket that exists keeps the contract of the ring.
use uringio.Base.{ℤ, refl, to_u16, List, [], ◌∷◌}
use uringio.Uring.{Call, prep, or_flags, or_ioprio, set_buf_group, set_buf_index, Liburing}
use uringio.Timer.{TimeoutParams}
use uringio.Ops.Contract.{flags, Contract, frame-Contract, plain-Contract}
use uringio.Ops.Sockets.{
  uringio_bind, uringio_connect, uringio_listen, uringio_accept, uringio_close_socket, uringio_send,
  uringio_recv, uringio_sendto, uringio_recvfrom, uringio_sendmsg, uringio_recvmsg,
  uringio_recv_buffer_select, uringio_recvmsg_buffer_select, uringio_recv_fixed,
  uringio_recvmsg_fixed, uringio_accept_multishot, uringio_recv_multishot,
  uringio_recvmsg_multishot, uringio_send_zc, uringio_send_zc_fixed, uringio_sendmsg_zc,
}
use uringio.Ops.Sockets.Requests.{
  bind, connect, listen, accept, close, send, recv, sendto, recvfrom, sendmsg, recvmsg,
  recv_buffer_select, recvmsg_buffer_select, recv_fixed, recvmsg_fixed, accept_multishot,
  recv_multishot, recvmsg_multishot, send_zc, send_zc_fixed, sendmsg_zc, SocketOp, submit_socket,
  prep_of, Fits,
}

module _ (u : Liburing) where
  -- Every operation on a socket that exists, with any timeout and after any calls, keeps the
  -- contract: it answers -1 and submits nothing if there is no sqe for it, or none for a required
  -- timeout; otherwise it links the timeout that is asked for, or, if that is optional and
  -- there is no sqe for it, leaves only the link flag set; it prepares its own sqe once, with the
  -- operation's arguments, socket, buffer group and registered buffer, tags it with the request's
  -- index, submits once, and answers 0 or 1 after the submission's result.
  pub submit_socket-Contract :
      (op : SocketOp) (idx : ℤ) (t : TimeoutParams) (h : List Call)
      → Contract u (Fits u op) t idx h (submit_socket u op idx t h)
  unfolding submit_socket uringio_bind uringio_connect uringio_listen uringio_accept
      uringio_close_socket uringio_send uringio_recv uringio_sendto uringio_recvfrom uringio_sendmsg
      uringio_recvmsg uringio_recv_buffer_select uringio_recvmsg_buffer_select uringio_recv_fixed
      uringio_recvmsg_fixed uringio_accept_multishot uringio_recv_multishot
      uringio_recvmsg_multishot uringio_send_zc uringio_send_zc_fixed uringio_sendmsg_zc
  submit_socket-Contract (bind fd addr addrlen) idx t h =
      plain-Contract u _ t idx h _ (prep_of u (bind fd addr addrlen)) (λ sqe g. refl)
        (λ sqe. (refl, refl, refl, refl, refl, refl))
  submit_socket-Contract (connect fd addr addrlen) idx t h =
      plain-Contract u _ t idx h _ (prep_of u (connect fd addr addrlen)) (λ sqe g. refl)
        (λ sqe. (refl, refl, refl, refl, refl, refl))
  submit_socket-Contract (listen fd backlog) idx t h =
      plain-Contract u _ t idx h _ (prep_of u (listen fd backlog)) (λ sqe g. refl)
        (λ sqe. (refl, refl, refl, refl, refl, refl))
  submit_socket-Contract (accept sockfd addr len flags) idx t h =
      plain-Contract u _ t idx h _ (prep_of u (accept sockfd addr len flags)) (λ sqe g. refl)
        (λ sqe. (refl, refl, refl, refl, refl, refl))
  submit_socket-Contract (close sockfd) idx t h =
      plain-Contract u _ t idx h _ (prep_of u (close sockfd)) (λ sqe g. refl)
        (λ sqe. (refl, refl, refl, refl, refl, refl))
  submit_socket-Contract (send sockfd buf len is_poll_first) idx t h =
      plain-Contract u _ t idx h _ (prep_of u (send sockfd buf len is_poll_first)) (λ sqe g. refl)
        (λ sqe. (refl, refl, refl, refl, refl, refl))
  submit_socket-Contract (recv sockfd buf len is_poll_first) idx t h =
      plain-Contract u _ t idx h _ (prep_of u (recv sockfd buf len is_poll_first)) (λ sqe g. refl)
        (λ sqe. (refl, refl, refl, refl, refl, refl))
  submit_socket-Contract (sendto sockfd buf len addr addrlen is_poll_first) idx t h =
      plain-Contract u _ t idx h _ (prep_of u (sendto sockfd buf len addr addrlen is_poll_first))
        (λ sqe g. refl) (λ sqe. (refl, refl, refl, refl, refl, refl))
  submit_socket-Contract (recvfrom sockfd buf len addr addrlen is_poll_first) idx t h =
      plain-Contract u _ t idx h _ (prep_of u (recvfrom sockfd buf len addr addrlen is_poll_first))
        (λ sqe g. refl) (λ sqe. (refl, refl, refl, refl, refl, refl))
  submit_socket-Contract (sendmsg sockfd iovecs nr_vecs addr addrlen is_poll_first) idx t h =
      plain-Contract u _ t idx h _
        (prep_of u (sendmsg sockfd iovecs nr_vecs addr addrlen is_poll_first)) (λ sqe g. refl)
        (λ sqe. (refl, refl, refl, refl, refl, refl))
  submit_socket-Contract (recvmsg sockfd iovecs nr_vecs is_poll_first) idx t h =
      plain-Contract u _ t idx h _ (prep_of u (recvmsg sockfd iovecs nr_vecs is_poll_first))
        (λ sqe g. refl) (λ sqe. (refl, refl, refl, refl, refl, refl))
  submit_socket-Contract (recv_buffer_select sockfd len bgid is_poll_first) idx t h =
      frame-Contract u _ t idx h _ (prep_of u (recv_buffer_select sockfd len bgid is_poll_first))
        (λ sqe.
          set_buf_group sqe (to_u16 bgid)
          ∷ or_flags sqe u.iosqe_buffer_select
          ∷ prep sqe (prep_of u (recv_buffer_select sockfd len bgid is_poll_first))
          ∷ [])
        (λ sqe g. refl) (λ sqe. (refl, (refl, (refl, tt)))) (λ sqe. refl)
        (λ sqe. (refl, refl, refl, refl, refl, refl))
  submit_socket-Contract (recvmsg_buffer_select sockfd is_poll_first bgid) idx t h =
      frame-Contract u _ t idx h _ (prep_of u (recvmsg_buffer_select sockfd is_poll_first bgid))
        (λ sqe.
          set_buf_group sqe (to_u16 bgid)
          ∷ or_flags sqe u.iosqe_buffer_select
          ∷ prep sqe (prep_of u (recvmsg_buffer_select sockfd is_poll_first bgid))
          ∷ [])
        (λ sqe g. refl) (λ sqe. (refl, (refl, (refl, tt)))) (λ sqe. refl)
        (λ sqe. (refl, refl, refl, refl, refl, refl))
  submit_socket-Contract (recv_fixed sockfd buf len is_poll_first buf_index) idx t h =
      frame-Contract u _ t idx h _ (prep_of u (recv_fixed sockfd buf len is_poll_first buf_index))
        (λ sqe.
          or_ioprio sqe u.ioring_recvsend_fixed_buf
          ∷ set_buf_index sqe (to_u16 buf_index)
          ∷ prep sqe (prep_of u (recv_fixed sockfd buf len is_poll_first buf_index))
          ∷ [])
        (λ sqe g. refl) (λ sqe. (refl, (refl, (refl, tt)))) (λ sqe. refl)
        (λ sqe. (refl, refl, refl, refl, refl, refl))
  submit_socket-Contract (recvmsg_fixed sockfd iovecs nr_vecs is_poll_first buf_index) idx t h =
      frame-Contract u _ t idx h _
        (prep_of u (recvmsg_fixed sockfd iovecs nr_vecs is_poll_first buf_index))
        (λ sqe.
          or_ioprio sqe u.ioring_recvsend_fixed_buf
          ∷ set_buf_index sqe (to_u16 buf_index)
          ∷ prep sqe (prep_of u (recvmsg_fixed sockfd iovecs nr_vecs is_poll_first buf_index))
          ∷ [])
        (λ sqe g. refl) (λ sqe. (refl, (refl, (refl, tt)))) (λ sqe. refl)
        (λ sqe. (refl, refl, refl, refl, refl, refl))
  submit_socket-Contract (accept_multishot sockfd addr len flags) idx t h =
      plain-Contract u _ t idx h _ (prep_of u (accept_multishot sockfd addr len flags))
        (λ sqe g. refl) (λ sqe. (refl, refl, refl, refl, refl, refl))
  submit_socket-Contract (recv_multishot sockfd len bgid is_poll_first) idx t h =
      frame-Contract u _ t idx h _ (prep_of u (recv_multishot sockfd len bgid is_poll_first))
        (λ sqe.
          or_flags sqe u.iosqe_buffer_select
          ∷ set_buf_group sqe (to_u16 bgid)
          ∷ prep sqe (prep_of u (recv_multishot sockfd len bgid is_poll_first))
          ∷ [])
        (λ sqe g. refl) (λ sqe. (refl, (refl, (refl, tt)))) (λ sqe. refl)
        (λ sqe. (refl, refl, refl, refl, refl, refl))
  submit_socket-Contract (recvmsg_multishot sockfd bgid is_poll_first msghdr) idx t h =
      frame-Contract u _ t idx h _ (prep_of u (recvmsg_multishot sockfd bgid is_poll_first msghdr))
        (λ sqe.
          or_flags sqe u.iosqe_buffer_select
          ∷ set_buf_group sqe (to_u16 bgid)
          ∷ prep sqe (prep_of u (recvmsg_multishot sockfd bgid is_poll_first msghdr))
          ∷ [])
        (λ sqe g. refl) (λ sqe. (refl, (refl, (refl, tt)))) (λ sqe. refl)
        (λ sqe. (refl, refl, refl, refl, refl, refl))
  submit_socket-Contract (send_zc sockfd buf len is_poll_first) idx t h =
      plain-Contract u _ t idx h _ (prep_of u (send_zc sockfd buf len is_poll_first))
        (λ sqe g. refl) (λ sqe. (refl, refl, refl, refl, refl, refl))
  submit_socket-Contract (send_zc_fixed sockfd buf len is_poll_first buf_index) idx t h =
      plain-Contract u _ t idx h _
        (prep_of u (send_zc_fixed sockfd buf len is_poll_first buf_index)) (λ sqe g. refl)
        (λ sqe. (refl, refl, refl, refl, refl, refl))
  submit_socket-Contract (sendmsg_zc sockfd iovecs nr_vecs addr addrlen is_poll_first buf_index) idx
        t h =
      frame-Contract u _ t idx h _
        (prep_of u (sendmsg_zc sockfd iovecs nr_vecs addr addrlen is_poll_first buf_index))
        (λ sqe.
          or_ioprio sqe u.ioring_recvsend_fixed_buf
          ∷ set_buf_index sqe (to_u16 buf_index)
          ∷ prep sqe
              (prep_of u (sendmsg_zc sockfd iovecs nr_vecs addr addrlen is_poll_first buf_index))
          ∷ [])
        (λ sqe g. refl) (λ sqe. (refl, (refl, (refl, tt)))) (λ sqe. refl)
        (λ sqe. (refl, refl, refl, refl, refl, refl))
