-- ===== src/Ops/Sockets/Requests.antt =====
-- The calls of the operations on sockets, and the requests that they stand for.
use uringio.Base.{ℕ, ℤ, ◌≡◌, ◌%◌, ◌^◌, to_u16, to_u32, Bool, List, [], ◌∷◌, map, some}
use uringio.Uring.{Iovec, Prep, Call, Liburing, M}
use uringio.Timer.{TimeoutParams}
use uringio.Ops.Contract.{target, groups, flags, indices, ioprios}
use uringio.Ops.Sockets.{
  zero_msghdr, msghdr_of, poll_first, uringio_bind, uringio_connect, uringio_listen, uringio_accept,
  uringio_close_socket, uringio_send, uringio_recv, uringio_sendto, uringio_recvfrom,
  uringio_sendmsg, uringio_recvmsg, uringio_recv_buffer_select, uringio_recvmsg_buffer_select,
  uringio_recv_fixed, uringio_recvmsg_fixed, uringio_accept_multishot, uringio_recv_multishot,
  uringio_recvmsg_multishot, uringio_send_zc, uringio_send_zc_fixed, uringio_sendmsg_zc,
}

-- One call of a function of sockets.h, with its arguments between the index and the timeout.
pub data SocketOp : Type 0 where
  bind : (fd : ℤ) (addr addrlen : ℕ) → SocketOp
  connect : (fd : ℤ) (addr addrlen : ℕ) → SocketOp
  listen : (fd backlog : ℤ) → SocketOp
  accept : (sockfd : ℤ) (addr len : ℕ) (flags : ℤ) → SocketOp
  close : (sockfd : ℤ) → SocketOp
  send : (sockfd : ℤ) (buf len : ℕ) (is_poll_first : Bool) → SocketOp
  recv : (sockfd : ℤ) (buf len : ℕ) (is_poll_first : Bool) → SocketOp
  sendto : (sockfd : ℤ) (buf len addr addrlen : ℕ) (is_poll_first : Bool) → SocketOp
  recvfrom : (sockfd : ℤ) (buf len addr addrlen : ℕ) (is_poll_first : Bool) → SocketOp
  sendmsg :
      (sockfd : ℤ) (iovecs : List Iovec) (nr_vecs addr addrlen : ℕ) (is_poll_first : Bool)
      → SocketOp
  recvmsg : (sockfd : ℤ) (iovecs : List Iovec) (nr_vecs : ℕ) (is_poll_first : Bool) → SocketOp
  recv_buffer_select : (sockfd : ℤ) (len : ℕ) (bgid : ℤ) (is_poll_first : Bool) → SocketOp
  recvmsg_buffer_select : (sockfd : ℤ) (is_poll_first : Bool) (bgid : ℤ) → SocketOp
  recv_fixed : (sockfd : ℤ) (buf len : ℕ) (is_poll_first : Bool) (buf_index : ℤ) → SocketOp
  recvmsg_fixed :
      (sockfd : ℤ) (iovecs : List Iovec) (nr_vecs : ℕ) (is_poll_first : Bool) (buf_index : ℤ)
      → SocketOp
  accept_multishot : (sockfd : ℤ) (addr len : ℕ) (flags : ℤ) → SocketOp
  recv_multishot : (sockfd : ℤ) (len : ℕ) (bgid : ℤ) (is_poll_first : Bool) → SocketOp
  recvmsg_multishot : (sockfd : ℤ) (bgid : ℤ) (is_poll_first : Bool) (msghdr : ℕ) → SocketOp
  send_zc : (sockfd : ℤ) (buf len : ℕ) (is_poll_first : Bool) → SocketOp
  send_zc_fixed : (sockfd : ℤ) (buf len : ℕ) (is_poll_first : Bool) (buf_index : ℤ) → SocketOp
  sendmsg_zc :
      (sockfd : ℤ) (iovecs : List Iovec) (nr_vecs addr addrlen : ℕ) (is_poll_first : Bool)
      (buf_index : ℤ)
      → SocketOp

-- The descriptor that the caller names.
abbrev pub fd_of : SocketOp → ℤ
fd_of (bind fd addr addrlen) = fd
fd_of (connect fd addr addrlen) = fd
fd_of (listen fd backlog) = fd
fd_of (accept sockfd addr len flags) = sockfd
fd_of (close sockfd) = sockfd
fd_of (send sockfd buf len is_poll_first) = sockfd
fd_of (recv sockfd buf len is_poll_first) = sockfd
fd_of (sendto sockfd buf len addr addrlen is_poll_first) = sockfd
fd_of (recvfrom sockfd buf len addr addrlen is_poll_first) = sockfd
fd_of (sendmsg sockfd iovecs nr_vecs addr addrlen is_poll_first) = sockfd
fd_of (recvmsg sockfd iovecs nr_vecs is_poll_first) = sockfd
fd_of (recv_buffer_select sockfd len bgid is_poll_first) = sockfd
fd_of (recvmsg_buffer_select sockfd is_poll_first bgid) = sockfd
fd_of (recv_fixed sockfd buf len is_poll_first buf_index) = sockfd
fd_of (recvmsg_fixed sockfd iovecs nr_vecs is_poll_first buf_index) = sockfd
fd_of (accept_multishot sockfd addr len flags) = sockfd
fd_of (recv_multishot sockfd len bgid is_poll_first) = sockfd
fd_of (recvmsg_multishot sockfd bgid is_poll_first msghdr) = sockfd
fd_of (send_zc sockfd buf len is_poll_first) = sockfd
fd_of (send_zc_fixed sockfd buf len is_poll_first buf_index) = sockfd
fd_of (sendmsg_zc sockfd iovecs nr_vecs addr addrlen is_poll_first buf_index) = sockfd

-- The buffer group that the kernel picks a buffer from.
abbrev pub groups_of : SocketOp → List ℕ
groups_of (recv_buffer_select sockfd len bgid is_poll_first) = to_u16 bgid ∷ []
groups_of (recvmsg_buffer_select sockfd is_poll_first bgid) = to_u16 bgid ∷ []
groups_of (recv_multishot sockfd len bgid is_poll_first) = to_u16 bgid ∷ []
groups_of (recvmsg_multishot sockfd bgid is_poll_first msghdr) = to_u16 bgid ∷ []
groups_of op = []

-- The registered buffer that the request uses, where a field of the sqe names it.
abbrev pub indices_of : SocketOp → List ℕ
indices_of (recv_fixed sockfd buf len is_poll_first buf_index) = to_u16 buf_index ∷ []
indices_of (recvmsg_fixed sockfd iovecs nr_vecs is_poll_first buf_index) = to_u16 buf_index ∷ []
indices_of (sendmsg_zc sockfd iovecs nr_vecs addr addrlen is_poll_first buf_index) =
    to_u16 buf_index ∷ []
indices_of op = []

module _ (u : Liburing) where
  unfoldable pub submit_socket : SocketOp → ℤ → TimeoutParams → M ℤ
  submit_socket (bind fd addr addrlen) idx t = uringio_bind u idx fd addr addrlen t
  submit_socket (connect fd addr addrlen) idx t = uringio_connect u idx fd addr addrlen t
  submit_socket (listen fd backlog) idx t = uringio_listen u idx fd backlog t
  submit_socket (accept sockfd addr len flags) idx t = uringio_accept u idx sockfd addr len flags t
  submit_socket (close sockfd) idx t = uringio_close_socket u idx sockfd t
  submit_socket (send sockfd buf len is_poll_first) idx t =
      uringio_send u idx sockfd buf len is_poll_first t
  submit_socket (recv sockfd buf len is_poll_first) idx t =
      uringio_recv u idx sockfd buf len is_poll_first t
  submit_socket (sendto sockfd buf len addr addrlen is_poll_first) idx t =
      uringio_sendto u idx sockfd buf len addr addrlen is_poll_first t
  submit_socket (recvfrom sockfd buf len addr addrlen is_poll_first) idx t =
      uringio_recvfrom u idx sockfd buf len addr addrlen is_poll_first t
  submit_socket (sendmsg sockfd iovecs nr_vecs addr addrlen is_poll_first) idx t =
      uringio_sendmsg u idx sockfd iovecs nr_vecs addr addrlen is_poll_first t
  submit_socket (recvmsg sockfd iovecs nr_vecs is_poll_first) idx t =
      uringio_recvmsg u idx sockfd iovecs nr_vecs is_poll_first t
  submit_socket (recv_buffer_select sockfd len bgid is_poll_first) idx t =
      uringio_recv_buffer_select u idx sockfd len bgid is_poll_first t
  submit_socket (recvmsg_buffer_select sockfd is_poll_first bgid) idx t =
      uringio_recvmsg_buffer_select u idx sockfd is_poll_first bgid t
  submit_socket (recv_fixed sockfd buf len is_poll_first buf_index) idx t =
      uringio_recv_fixed u idx sockfd buf len is_poll_first buf_index t
  submit_socket (recvmsg_fixed sockfd iovecs nr_vecs is_poll_first buf_index) idx t =
      uringio_recvmsg_fixed u idx sockfd iovecs nr_vecs is_poll_first buf_index t
  submit_socket (accept_multishot sockfd addr len flags) idx t =
      uringio_accept_multishot u idx sockfd addr len flags t
  submit_socket (recv_multishot sockfd len bgid is_poll_first) idx t =
      uringio_recv_multishot u idx sockfd len bgid is_poll_first t
  submit_socket (recvmsg_multishot sockfd bgid is_poll_first msghdr) idx t =
      uringio_recvmsg_multishot u idx sockfd bgid is_poll_first msghdr t
  submit_socket (send_zc sockfd buf len is_poll_first) idx t =
      uringio_send_zc u idx sockfd buf len is_poll_first t
  submit_socket (send_zc_fixed sockfd buf len is_poll_first buf_index) idx t =
      uringio_send_zc_fixed u idx sockfd buf len is_poll_first buf_index t
  submit_socket (sendmsg_zc sockfd iovecs nr_vecs addr addrlen is_poll_first buf_index) idx t =
      uringio_sendmsg_zc u idx sockfd iovecs nr_vecs addr addrlen is_poll_first buf_index t

  -- The request that the operation stands for.
  abbrev pub prep_of : SocketOp → Prep
  prep_of (bind fd addr addrlen) = Prep.bind fd addr addrlen
  prep_of (connect fd addr addrlen) = Prep.connect fd addr addrlen
  prep_of (listen fd backlog) = Prep.listen fd backlog
  prep_of (accept sockfd addr len flags) = Prep.accept sockfd addr len flags
  prep_of (close sockfd) = Prep.close sockfd
  prep_of (send sockfd buf len is_poll_first) =
      Prep.send sockfd buf len (poll_first u is_poll_first)
  prep_of (recv sockfd buf len is_poll_first) =
      Prep.recv sockfd buf len (poll_first u is_poll_first)
  prep_of (sendto sockfd buf len addr addrlen is_poll_first) =
      Prep.sendto sockfd buf len (poll_first u is_poll_first) addr (addrlen % 2 ^ 32)
  prep_of (recvfrom sockfd buf len addr addrlen is_poll_first) =
      Prep.recvmsg sockfd (msghdr_of (record { iov_base = buf; iov_len = len } ∷ []) 1 addr addrlen)
        (to_u32 (poll_first u is_poll_first))
  prep_of (sendmsg sockfd iovecs nr_vecs addr addrlen is_poll_first) =
      Prep.sendmsg sockfd (msghdr_of iovecs nr_vecs addr addrlen)
        (to_u32 (poll_first u is_poll_first))
  prep_of (recvmsg sockfd iovecs nr_vecs is_poll_first) =
      Prep.recvmsg sockfd (msghdr_of iovecs nr_vecs 0 0) (to_u32 (poll_first u is_poll_first))
  prep_of (recv_buffer_select sockfd len bgid is_poll_first) =
      Prep.recv sockfd 0 len (poll_first u is_poll_first)
  prep_of (recvmsg_buffer_select sockfd is_poll_first bgid) =
      Prep.recvmsg sockfd zero_msghdr (to_u32 (poll_first u is_poll_first))
  prep_of (recv_fixed sockfd buf len is_poll_first buf_index) =
      Prep.recv sockfd buf len (poll_first u is_poll_first)
  prep_of (recvmsg_fixed sockfd iovecs nr_vecs is_poll_first buf_index) =
      Prep.recvmsg sockfd (msghdr_of iovecs nr_vecs 0 0) (to_u32 (poll_first u is_poll_first))
  prep_of (accept_multishot sockfd addr len flags) = Prep.multishot_accept sockfd addr len flags
  prep_of (recv_multishot sockfd len bgid is_poll_first) =
      Prep.recv_multishot sockfd 0 len (poll_first u is_poll_first)
  prep_of (recvmsg_multishot sockfd bgid is_poll_first msghdr) =
      Prep.recvmsg_multishot sockfd msghdr (to_u32 (poll_first u is_poll_first))
  prep_of (send_zc sockfd buf len is_poll_first) =
      Prep.send_zc sockfd buf len (poll_first u is_poll_first) 0
  prep_of (send_zc_fixed sockfd buf len is_poll_first buf_index) =
      Prep.send_zc_fixed sockfd buf len (poll_first u is_poll_first) 0 (to_u32 buf_index)
  prep_of (sendmsg_zc sockfd iovecs nr_vecs addr addrlen is_poll_first buf_index) =
      Prep.sendmsg_zc sockfd (msghdr_of iovecs nr_vecs addr addrlen)
        (to_u32 (poll_first u is_poll_first))

  -- The prepared request has the operation's arguments, and acts on its descriptor; the sqe names
  -- the operation's buffer group and asks for a buffer of it, and names its registered buffer and
  -- asks for it, exactly if the operation has one.
  abbrev pub Fits : SocketOp → Prep → List Call → Type 0
  Fits op p writes =
      (p ≡ prep_of op)
      × (target p ≡ some (fd_of op))
      × (groups writes ≡ groups_of op)
      × (indices writes ≡ indices_of op)
      × (ioprios writes ≡ map (λ i. u.ioring_recvsend_fixed_buf) (indices_of op))
      × (flags writes ≡ map (λ g. u.iosqe_buffer_select) (groups_of op))
