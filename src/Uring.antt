-- ===== src/Uring.antt =====
-- liburing, the system calls behind it and the kernel, as src/ring, src/timer, src/ops and
-- src/buffer_controllers use them. This code is not part of the repository, so it is a parameter:
-- what a call of it answers is any function of the calls made before. A function of the program
-- extends the list of calls, newest first.
use uringio.Base.{ℕ, ℤ, Option, List, ◌∷◌}

-- `struct __kernel_timespec`
pub record Timespec : Type 0 where
  pub tv_sec : ℤ
  pub tv_nsec : ℤ

-- `struct iovec`
pub record Iovec : Type 0 where
  pub iov_base : ℕ
  pub iov_len : ℕ

-- `struct msghdr`; addresses are numbers and NULL is 0.
pub record Msghdr : Type 0 where
  pub msg_name : ℕ
  pub msg_namelen : ℕ
  pub msg_iov : List Iovec
  pub msg_iovlen : ℕ
  pub msg_control : ℕ
  pub msg_controllen : ℕ

-- `struct open_how`
pub record OpenHow : Type 0 where
  pub flags : ℕ
  pub mode : ℕ
  pub resolve : ℕ

-- The `io_uring_prep_…` functions that the program calls, with their arguments after the sqe.
pub data Prep : Type 0 where
  openat2 : (dfd : ℤ) (path : ℕ) (how : OpenHow) → Prep
  read : (fd : ℤ) (buf : ℕ) (size : ℕ) (offset : ℕ) → Prep
  readv2 : (fd : ℤ) (iovecs : List Iovec) (nr_vecs : ℕ) (offset : ℕ) (flags : ℤ) → Prep
  write : (fd : ℤ) (buf : ℕ) (size : ℕ) (offset : ℕ) → Prep
  writev2 : (fd : ℤ) (iovecs : List Iovec) (nr_vecs : ℕ) (offset : ℕ) (flags : ℤ) → Prep
  close : (fd : ℤ) → Prep
  fsync : (fd : ℤ) (fsync_flags : ℕ) → Prep
  splice : (fd_in off_in fd_out off_out : ℤ) (nbytes flag : ℕ) → Prep
  read_fixed : (fd : ℤ) (buf : ℕ) (size : ℕ) (offset : ℕ) (buf_index : ℤ) → Prep
  write_fixed : (fd : ℤ) (buf : ℕ) (size : ℕ) (offset : ℕ) (buf_index : ℤ) → Prep
  read_multishot : (fd : ℤ) (nbytes : ℕ) (offset : ℕ) (bgid : ℤ) → Prep
  socket : (domain type protocol : ℤ) (flags : ℕ) → Prep
  bind : (fd : ℤ) (addr : ℕ) (addrlen : ℕ) → Prep
  connect : (fd : ℤ) (addr : ℕ) (addrlen : ℕ) → Prep
  listen : (fd backlog : ℤ) → Prep
  accept : (fd : ℤ) (addr len : ℕ) (flags : ℤ) → Prep
  multishot_accept : (fd : ℤ) (addr len : ℕ) (flags : ℤ) → Prep
  send : (sockfd : ℤ) (buf len : ℕ) (flags : ℤ) → Prep
  recv : (sockfd : ℤ) (buf len : ℕ) (flags : ℤ) → Prep
  sendto : (sockfd : ℤ) (buf len : ℕ) (flags : ℤ) (addr addrlen : ℕ) → Prep
  recvmsg : (sockfd : ℤ) (msg : Msghdr) (flags : ℕ) → Prep
  sendmsg : (sockfd : ℤ) (msg : Msghdr) (flags : ℕ) → Prep
  recv_multishot : (sockfd : ℤ) (buf len : ℕ) (flags : ℤ) → Prep
  recvmsg_multishot : (sockfd : ℤ) (msg : ℕ) (flags : ℕ) → Prep
  send_zc : (sockfd : ℤ) (buf len : ℕ) (flags : ℤ) (zc_flags : ℕ) → Prep
  send_zc_fixed : (sockfd : ℤ) (buf len : ℕ) (flags : ℤ) (zc_flags buf_index : ℕ) → Prep
  sendmsg_zc : (sockfd : ℤ) (msg : Msghdr) (flags : ℕ) → Prep
  timeout : (ts : Timespec) (count flags : ℕ) → Prep
  link_timeout : (ts : Timespec) (flags : ℕ) → Prep
  provide_buffers : (addr : ℕ) (len nr bgid bid : ℤ) → Prep
  remove_buffers : (nr bgid : ℤ) → Prep
  cancel : (user_data : ℕ) (flags : ℕ) → Prep

-- One call of liburing, or one assignment to a field of an sqe.
pub data Call : Type 0 where
  get_sqe : Call
  prep : (sqe : ℕ) → Prep → Call
  or_flags : (sqe : ℕ) → ℕ → Call
  or_ioprio : (sqe : ℕ) → ℕ → Call
  set_buf_group : (sqe : ℕ) → ℕ → Call
  set_buf_index : (sqe : ℕ) → ℕ → Call
  set_data : (sqe : ℕ) (user_data : ℕ) → Call
  submit : Call
  queue_init : (entries flags : ℕ) → Call
  queue_exit : Call
  register_buffers : List Iovec → ℕ → Call
  unregister_buffers : Call
  setup_buf_ring : (nentries : ℕ) (bgid : ℤ) → Call
  buf_ring_init : (ring : ℕ) → Call
  buf_ring_add : (ring : ℕ) (addr len bid : ℕ) (mask offset : ℤ) → Call
  buf_ring_advance : (ring : ℕ) (count : ℤ) → Call
  free_buf_ring : (ring : ℕ) (nentries : ℕ) (bgid : ℤ) → Call

-- The answers, and the constants of the kernel's headers.
pub record Liburing : Type 0 where
  pub io_uring_get_sqe : List Call → Option ℕ
  pub io_uring_submit : List Call → ℤ
  pub io_uring_queue_init : List Call → ℤ
  pub io_uring_register_buffers : List Call → ℤ
  pub io_uring_unregister_buffers : List Call → ℤ
  pub io_uring_setup_buf_ring : List Call → Option ℕ
  pub io_uring_buf_ring_mask : ℕ → ℤ
  pub iosqe_io_link : ℕ
  pub iosqe_buffer_select : ℕ
  pub ioring_recvsend_poll_first : ℤ
  pub ioring_recvsend_fixed_buf : ℕ
  pub ioring_fsync_datasync : ℕ
  pub ioring_timeout_multishot : ℕ
  pub ioring_async_cancel_any : ℕ
  pub rwf_nowait : ℤ
  pub o_rdwr_o_creat : ℤ
  pub af_inet : ℤ
  pub af_inet6 : ℤ

-- A computation that makes calls.
abbrev pub M : Type 0 → Type 0
M A = List Call → A × List Call

abbrev pub pure : {A : Type 0} → A → M A
pure a h = (a, h)

infixl 5 ◌>>=◌ ◌>>◌
abbrev pub ◌>>=◌ : {A B : Type 0} → M A → (A → M B) → M B
◌>>=◌ m f h = let (a, h') = m h in f a h'

abbrev pub ◌>>◌ : {A B : Type 0} → M A → M B → M B
m >> k = m >>= λ _. k

-- A call with no answer, and calls with one.
abbrev pub call : Call → M (Unit {0})
call c h = (tt, c ∷ h)

abbrev pub ask : {A : Type 0} → Call → (List Call → A) → M A
ask c answer h = (answer h, c ∷ h)
