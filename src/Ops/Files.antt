-- ===== src/Ops/Files.antt =====
-- src/ops/files: the file operations that are submitted to the ring.
pub mod Laws
use uringio.Base.{
  ℕ, ℤ, pos, negsuc, eqb_ℤ, to_u16, to_u32, to_u64, Bool, List, [], ◌∷◌, some, if◌then◌else◌,
}
use uringio.Uring.{Iovec, Prep, prep, or_flags, set_buf_group, Liburing, M, ◌>>◌, call}
use uringio.Timer.{TimeoutParams}
use uringio.Ops.{with_optional_timeout, submit_request}

module _ (u : Liburing) where
  -- `if (flags == -1) flags = O_RDWR | O_CREAT;`
  abbrev pub open_flags : ℤ → ℤ
  open_flags flags = if eqb_ℤ flags (negsuc 0) then u.o_rdwr_o_creat else flags

  unfoldable pub open_file : ℤ → ℤ → ℕ → ℤ → ℤ → ℕ → TimeoutParams → M ℤ
  unfolding with_optional_timeout submit_request
  open_file request_idx dfd path flags resolve mode timeout_params =
      with_optional_timeout u (some timeout_params) λ sqe. do
        call (
            prep sqe (
              Prep.openat2 dfd path (record {
                flags = to_u64 (open_flags flags);
                mode = mode;
                resolve = to_u64 resolve;
              })))
        submit_request u sqe request_idx

  unfoldable pub uringio_read : ℤ → ℤ → ℕ → ℕ → ℤ → TimeoutParams → M ℤ
  unfolding with_optional_timeout submit_request
  uringio_read request_idx fd buf size offset timeout_params =
      with_optional_timeout u (some timeout_params) λ sqe. do
        call (prep sqe (Prep.read fd buf size (to_u64 offset)))
        submit_request u sqe request_idx

  unfoldable pub uringio_readv : ℤ → ℤ → List Iovec → ℕ → ℤ → Bool → TimeoutParams → M ℤ
  unfolding with_optional_timeout submit_request
  uringio_readv request_idx fd iovecs nr_vecs offset nowait timeout_params =
      with_optional_timeout u (some timeout_params) λ sqe. do
        call (
            prep sqe (
              Prep.readv2 fd iovecs nr_vecs (to_u64 offset)
                (if nowait then u.rwf_nowait else pos 0)))
        submit_request u sqe request_idx

  unfoldable pub uringio_write : ℤ → ℤ → ℕ → ℕ → ℤ → TimeoutParams → M ℤ
  unfolding with_optional_timeout submit_request
  uringio_write request_idx fd buf size offset timeout_params =
      with_optional_timeout u (some timeout_params) λ sqe. do
        call (prep sqe (Prep.write fd buf size (to_u64 offset)))
        submit_request u sqe request_idx

  unfoldable pub uringio_writev : ℤ → ℤ → List Iovec → ℕ → ℤ → ℤ → TimeoutParams → M ℤ
  unfolding with_optional_timeout submit_request
  uringio_writev request_idx fd iovecs nr_vecs offset flags timeout_params =
      with_optional_timeout u (some timeout_params) λ sqe. do
        call (prep sqe (Prep.writev2 fd iovecs nr_vecs (to_u64 offset) flags))
        submit_request u sqe request_idx

  unfoldable pub uringio_close_file : ℤ → ℤ → TimeoutParams → M ℤ
  unfolding with_optional_timeout submit_request
  uringio_close_file request_idx fd timeout_params =
      with_optional_timeout u (some timeout_params)
        λ sqe. do call (prep sqe (Prep.close fd)); submit_request u sqe request_idx

  unfoldable pub uringio_fsync : ℤ → ℤ → TimeoutParams → M ℤ
  unfolding with_optional_timeout submit_request
  uringio_fsync request_idx fd timeout_params =
      with_optional_timeout u (some timeout_params)
        λ sqe. do call (prep sqe (Prep.fsync fd 0)); submit_request u sqe request_idx

  unfoldable pub uringio_fdatasync : ℤ → ℤ → TimeoutParams → M ℤ
  unfolding with_optional_timeout submit_request
  uringio_fdatasync request_idx fd timeout_params =
      with_optional_timeout u (some timeout_params) λ sqe. do
        call (prep sqe (Prep.fsync fd u.ioring_fsync_datasync))
        submit_request u sqe request_idx

  unfoldable pub uringio_splice : ℤ → ℤ → ℤ → ℤ → ℤ → ℤ → ℤ → TimeoutParams → M ℤ
  unfolding with_optional_timeout submit_request
  uringio_splice request_idx fd_in off_in fd_out off_out nbytes flag timeout_params =
      with_optional_timeout u (some timeout_params) λ sqe. do
        call (prep sqe (Prep.splice fd_in off_in fd_out off_out (to_u32 nbytes) (to_u32 flag)))
        submit_request u sqe request_idx

  unfoldable pub uringio_read_fixed : ℤ → ℤ → ℕ → ℕ → ℤ → ℤ → TimeoutParams → M ℤ
  unfolding with_optional_timeout submit_request
  uringio_read_fixed request_idx fd buf size offset buf_index timeout_params =
      with_optional_timeout u (some timeout_params) λ sqe. do
        call (prep sqe (Prep.read_fixed fd buf size (to_u64 offset) buf_index))
        submit_request u sqe request_idx

  unfoldable pub uringio_write_fixed : ℤ → ℤ → ℕ → ℕ → ℤ → ℤ → TimeoutParams → M ℤ
  unfolding with_optional_timeout submit_request
  uringio_write_fixed request_idx fd buf size offset buf_index timeout_params =
      with_optional_timeout u (some timeout_params) λ sqe. do
        call (prep sqe (Prep.write_fixed fd buf size (to_u64 offset) buf_index))
        submit_request u sqe request_idx

  unfoldable pub uringio_read_buffer_select : ℤ → ℤ → ℕ → ℤ → ℤ → TimeoutParams → M ℤ
  unfolding with_optional_timeout submit_request
  uringio_read_buffer_select request_idx fd size offset bgid timeout_params =
      with_optional_timeout u (some timeout_params) λ sqe. do
        call (prep sqe (Prep.read fd 0 size (to_u64 offset)))
        call (or_flags sqe u.iosqe_buffer_select)
        call (set_buf_group sqe (to_u16 bgid))
        submit_request u sqe request_idx

  unfoldable pub uringio_readv_buffer_select : ℤ → ℤ → ℕ → ℤ → ℤ → Bool → TimeoutParams → M ℤ
  unfolding with_optional_timeout submit_request
  uringio_readv_buffer_select request_idx fd size offset bgid nowait timeout_params =
      with_optional_timeout u (some timeout_params) λ sqe. do
        call (
            prep sqe (
              Prep.readv2 fd (record { iov_base = 0; iov_len = size } ∷ []) 1 (to_u64 offset)
                (if nowait then u.rwf_nowait else pos 0)))
        call (or_flags sqe u.iosqe_buffer_select)
        call (set_buf_group sqe (to_u16 bgid))
        submit_request u sqe request_idx

  unfoldable pub uringio_read_multishot : ℤ → ℤ → ℤ → ℤ → TimeoutParams → M ℤ
  unfolding with_optional_timeout submit_request
  uringio_read_multishot request_idx fd offset bgid timeout_params =
      with_optional_timeout u (some timeout_params) λ sqe. do
        call (prep sqe (Prep.read_multishot fd 0 (to_u64 offset) bgid))
        submit_request u sqe request_idx
