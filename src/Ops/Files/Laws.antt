-- ===== src/Ops/Files/Laws.antt =====
-- Every file operation keeps the contract of the ring.
use uringio.Base.{
  ℕ, ℤ, pos, ◌≡◌, refl, to_u16, to_u32, to_u64, Bool, List, [], ◌∷◌, map, some, if◌then◌else◌,
}
use uringio.Uring.{Iovec, Prep, Call, prep, or_flags, set_buf_group, Liburing, M}
use uringio.Timer.{TimeoutParams}
use uringio.Ops.Contract.{plain-Contract, target, groups, flags, Contract, frame-Contract}
use uringio.Ops.Files.{
  open_flags, open_file, uringio_read, uringio_readv, uringio_write, uringio_writev,
  uringio_close_file, uringio_fsync, uringio_fdatasync, uringio_splice, uringio_read_fixed,
  uringio_write_fixed, uringio_read_buffer_select, uringio_readv_buffer_select,
  uringio_read_multishot,
}

-- One call of a function of files.h, with its arguments between the index and the timeout.
pub data FileOp : Type 0 where
  openat2 : (dfd : ℤ) (path : ℕ) (flags resolve : ℤ) (mode : ℕ) → FileOp
  read : (fd : ℤ) (buf size : ℕ) (offset : ℤ) → FileOp
  readv : (fd : ℤ) (iovecs : List Iovec) (nr_vecs : ℕ) (offset : ℤ) (nowait : Bool) → FileOp
  write : (fd : ℤ) (buf size : ℕ) (offset : ℤ) → FileOp
  writev : (fd : ℤ) (iovecs : List Iovec) (nr_vecs : ℕ) (offset flags : ℤ) → FileOp
  close : (fd : ℤ) → FileOp
  fsync : (fd : ℤ) → FileOp
  fdatasync : (fd : ℤ) → FileOp
  splice : (fd_in off_in fd_out off_out nbytes flag : ℤ) → FileOp
  read_fixed : (fd : ℤ) (buf size : ℕ) (offset buf_index : ℤ) → FileOp
  write_fixed : (fd : ℤ) (buf size : ℕ) (offset buf_index : ℤ) → FileOp
  read_buffer_select : (fd : ℤ) (size : ℕ) (offset bgid : ℤ) → FileOp
  readv_buffer_select : (fd : ℤ) (size : ℕ) (offset bgid : ℤ) (nowait : Bool) → FileOp
  read_multishot : (fd offset bgid : ℤ) → FileOp

-- The descriptor that the caller names (of `splice`, the one to read from).
abbrev pub fd_of : FileOp → ℤ
fd_of (openat2 dfd path flags resolve mode) = dfd
fd_of (read fd buf size offset) = fd
fd_of (readv fd iovecs nr_vecs offset nowait) = fd
fd_of (write fd buf size offset) = fd
fd_of (writev fd iovecs nr_vecs offset flags) = fd
fd_of (close fd) = fd
fd_of (fsync fd) = fd
fd_of (fdatasync fd) = fd
fd_of (splice fd_in off_in fd_out off_out nbytes flag) = fd_in
fd_of (read_fixed fd buf size offset buf_index) = fd
fd_of (write_fixed fd buf size offset buf_index) = fd
fd_of (read_buffer_select fd size offset bgid) = fd
fd_of (readv_buffer_select fd size offset bgid nowait) = fd
fd_of (read_multishot fd offset bgid) = fd

-- The buffer group that the kernel picks a buffer from.
abbrev pub groups_of : FileOp → List ℕ
groups_of (read_buffer_select fd size offset bgid) = to_u16 bgid ∷ []
groups_of (readv_buffer_select fd size offset bgid nowait) = to_u16 bgid ∷ []
groups_of op = []

module _ (u : Liburing) where
  unfoldable pub submit_file : FileOp → ℤ → TimeoutParams → M ℤ
  submit_file (openat2 dfd path flags resolve mode) idx t =
      open_file u idx dfd path flags resolve mode t
  submit_file (read fd buf size offset) idx t = uringio_read u idx fd buf size offset t
  submit_file (readv fd iovecs nr_vecs offset nowait) idx t =
      uringio_readv u idx fd iovecs nr_vecs offset nowait t
  submit_file (write fd buf size offset) idx t = uringio_write u idx fd buf size offset t
  submit_file (writev fd iovecs nr_vecs offset flags) idx t =
      uringio_writev u idx fd iovecs nr_vecs offset flags t
  submit_file (close fd) idx t = uringio_close_file u idx fd t
  submit_file (fsync fd) idx t = uringio_fsync u idx fd t
  submit_file (fdatasync fd) idx t = uringio_fdatasync u idx fd t
  submit_file (splice fd_in off_in fd_out off_out nbytes flag) idx t =
      uringio_splice u idx fd_in off_in fd_out off_out nbytes flag t
  submit_file (read_fixed fd buf size offset buf_index) idx t =
      uringio_read_fixed u idx fd buf size offset buf_index t
  submit_file (write_fixed fd buf size offset buf_index) idx t =
      uringio_write_fixed u idx fd buf size offset buf_index t
  submit_file (read_buffer_select fd size offset bgid) idx t =
      uringio_read_buffer_select u idx fd size offset bgid t
  submit_file (readv_buffer_select fd size offset bgid nowait) idx t =
      uringio_readv_buffer_select u idx fd size offset bgid nowait t
  submit_file (read_multishot fd offset bgid) idx t = uringio_read_multishot u idx fd offset bgid t

  -- The request that the operation stands for.
  abbrev pub prep_of : FileOp → Prep
  prep_of (openat2 dfd path flags resolve mode) =
      Prep.openat2 dfd path
        (record { flags = to_u64 (open_flags u flags); mode = mode; resolve = to_u64 resolve })
  prep_of (read fd buf size offset) = Prep.read fd buf size (to_u64 offset)
  prep_of (readv fd iovecs nr_vecs offset nowait) =
      Prep.readv2 fd iovecs nr_vecs (to_u64 offset) (if nowait then u.rwf_nowait else pos 0)
  prep_of (write fd buf size offset) = Prep.write fd buf size (to_u64 offset)
  prep_of (writev fd iovecs nr_vecs offset flags) =
      Prep.writev2 fd iovecs nr_vecs (to_u64 offset) flags
  prep_of (close fd) = Prep.close fd
  prep_of (fsync fd) = Prep.fsync fd 0
  prep_of (fdatasync fd) = Prep.fsync fd u.ioring_fsync_datasync
  prep_of (splice fd_in off_in fd_out off_out nbytes flag) =
      Prep.splice fd_in off_in fd_out off_out (to_u32 nbytes) (to_u32 flag)
  prep_of (read_fixed fd buf size offset buf_index) =
      Prep.read_fixed fd buf size (to_u64 offset) buf_index
  prep_of (write_fixed fd buf size offset buf_index) =
      Prep.write_fixed fd buf size (to_u64 offset) buf_index
  prep_of (read_buffer_select fd size offset bgid) = Prep.read fd 0 size (to_u64 offset)
  prep_of (readv_buffer_select fd size offset bgid nowait) =
      Prep.readv2 fd (record { iov_base = 0; iov_len = size } ∷ []) 1 (to_u64 offset)
        (if nowait then u.rwf_nowait else pos 0)
  prep_of (read_multishot fd offset bgid) = Prep.read_multishot fd 0 (to_u64 offset) bgid

  -- The prepared request has the operation's arguments, and acts on its descriptor; the sqe names
  -- the operation's buffer group and asks for a buffer of it, exactly if the operation has one.
  abbrev pub Fits : FileOp → Prep → List Call → Type 0
  Fits op p writes =
      (p ≡ prep_of op)
      × (target p ≡ some (fd_of op))
      × (groups writes ≡ groups_of op)
      × (flags writes ≡ map (λ g. u.iosqe_buffer_select) (groups_of op))

  -- Every file operation, with any timeout and after any calls, keeps the contract: it answers -1
  -- and submits nothing if there is no sqe for it, or none for a required timeout; otherwise it
  -- links the timeout that is asked for, or, if that is optional and there is no sqe for it, leaves
  -- only the link flag set; it prepares its own sqe once, with the operation's arguments and buffer
  -- group, tags it with the request's index, submits once, and answers 0 or 1 after the
  -- submission's result.
  pub submit_file-Contract :
      (op : FileOp) (idx : ℤ) (t : TimeoutParams) (h : List Call)
      → Contract u (Fits op) t idx h (submit_file op idx t h)
  unfolding submit_file open_file uringio_read uringio_readv uringio_write uringio_writev
      uringio_close_file uringio_fsync uringio_fdatasync uringio_splice uringio_read_fixed
      uringio_write_fixed uringio_read_buffer_select uringio_readv_buffer_select
      uringio_read_multishot
  submit_file-Contract (openat2 dfd path flags resolve mode) idx t h =
      plain-Contract u _ t idx h _ (prep_of (openat2 dfd path flags resolve mode)) (λ sqe g. refl)
        (λ sqe. (refl, refl, refl, refl))
  submit_file-Contract (read fd buf size offset) idx t h =
      plain-Contract u _ t idx h _ (prep_of (read fd buf size offset)) (λ sqe g. refl)
        (λ sqe. (refl, refl, refl, refl))
  submit_file-Contract (readv fd iovecs nr_vecs offset nowait) idx t h =
      plain-Contract u _ t idx h _ (prep_of (readv fd iovecs nr_vecs offset nowait)) (λ sqe g. refl)
        (λ sqe. (refl, refl, refl, refl))
  submit_file-Contract (write fd buf size offset) idx t h =
      plain-Contract u _ t idx h _ (prep_of (write fd buf size offset)) (λ sqe g. refl)
        (λ sqe. (refl, refl, refl, refl))
  submit_file-Contract (writev fd iovecs nr_vecs offset flags) idx t h =
      plain-Contract u _ t idx h _ (prep_of (writev fd iovecs nr_vecs offset flags)) (λ sqe g. refl)
        (λ sqe. (refl, refl, refl, refl))
  submit_file-Contract (close fd) idx t h =
      plain-Contract u _ t idx h _ (prep_of (close fd)) (λ sqe g. refl)
        (λ sqe. (refl, refl, refl, refl))
  submit_file-Contract (fsync fd) idx t h =
      plain-Contract u _ t idx h _ (prep_of (fsync fd)) (λ sqe g. refl)
        (λ sqe. (refl, refl, refl, refl))
  submit_file-Contract (fdatasync fd) idx t h =
      plain-Contract u _ t idx h _ (prep_of (fdatasync fd)) (λ sqe g. refl)
        (λ sqe. (refl, refl, refl, refl))
  submit_file-Contract (splice fd_in off_in fd_out off_out nbytes flag) idx t h =
      plain-Contract u _ t idx h _ (prep_of (splice fd_in off_in fd_out off_out nbytes flag))
        (λ sqe g. refl) (λ sqe. (refl, refl, refl, refl))
  submit_file-Contract (read_fixed fd buf size offset buf_index) idx t h =
      plain-Contract u _ t idx h _ (prep_of (read_fixed fd buf size offset buf_index))
        (λ sqe g. refl) (λ sqe. (refl, refl, refl, refl))
  submit_file-Contract (write_fixed fd buf size offset buf_index) idx t h =
      plain-Contract u _ t idx h _ (prep_of (write_fixed fd buf size offset buf_index))
        (λ sqe g. refl) (λ sqe. (refl, refl, refl, refl))
  submit_file-Contract (read_buffer_select fd size offset bgid) idx t h =
      frame-Contract u _ t idx h _ (prep_of (read_buffer_select fd size offset bgid))
        (λ sqe.
          set_buf_group sqe (to_u16 bgid)
          ∷ or_flags sqe u.iosqe_buffer_select
          ∷ prep sqe (prep_of (read_buffer_select fd size offset bgid))
          ∷ [])
        (λ sqe g. refl) (λ sqe. (refl, (refl, (refl, tt)))) (λ sqe. refl)
        (λ sqe. (refl, refl, refl, refl))
  submit_file-Contract (readv_buffer_select fd size offset bgid nowait) idx t h =
      frame-Contract u _ t idx h _ (prep_of (readv_buffer_select fd size offset bgid nowait))
        (λ sqe.
          set_buf_group sqe (to_u16 bgid)
          ∷ or_flags sqe u.iosqe_buffer_select
          ∷ prep sqe (prep_of (readv_buffer_select fd size offset bgid nowait))
          ∷ [])
        (λ sqe g. refl) (λ sqe. (refl, (refl, (refl, tt)))) (λ sqe. refl)
        (λ sqe. (refl, refl, refl, refl))
  submit_file-Contract (read_multishot fd offset bgid) idx t h =
      plain-Contract u _ t idx h _ (prep_of (read_multishot fd offset bgid)) (λ sqe g. refl)
        (λ sqe. (refl, refl, refl, refl))
