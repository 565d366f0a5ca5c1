-- ===== src/Ring.antt =====
-- src/ring: the life of the ring, the helper that takes an sqe, and the read of the wakeup
-- descriptor.
use uringio.Base.{
  ℕ, ℤ, pos, negsuc, is_neg, ◌-◌, ◌^◌, Bool, true, false, Option, none, some, if◌then◌else◌,
}
use uringio.Uring.{
  Prep, get_sqe, prep, set_data, submit, queue_init, queue_exit, Liburing, M, pure, ◌>>=◌, ◌>>◌,
  call, ask,
}

-- `WAKEUP_FD_TAG`, UINT64_MAX
abbrev pub wakeup_fd_tag : ℕ
wakeup_fd_tag = 2 ^ 64 - 1

module _ (u : Liburing) where
  unfoldable pub ring_init : M ℤ
  ring_init = do
    result ← ask (queue_init 256 0) u.io_uring_queue_init
    if is_neg result then pure (negsuc 0) else pure (pos 0)

  unfoldable pub create_sqe : M (Option ℕ)
  create_sqe = ask get_sqe u.io_uring_get_sqe

  -- What `ring_destroy` does with the sqe that it got.
  cancel_and_exit : Option ℕ → M (Unit {0})
  cancel_and_exit none = pure tt
  cancel_and_exit (some sqe) = do
    call (prep sqe (Prep.cancel 0 u.ioring_async_cancel_any))
    result ← ask submit u.io_uring_submit
    if is_neg result then pure tt else call queue_exit

  -- `is_null` says that the pointer to the ring is NULL.
  unfoldable pub ring_destroy : Bool → M (Unit {0})
  unfolding cancel_and_exit
  ring_destroy true = pure tt
  ring_destroy false = do sqe ← ask get_sqe u.io_uring_get_sqe; cancel_and_exit sqe

  read_wakeup : ℤ → ℕ → Option ℕ → M ℤ
  read_wakeup wakeup_fd wakeup_buf none = pure (negsuc 0)
  read_wakeup wakeup_fd wakeup_buf (some sqe) = do
    call (prep sqe (Prep.read wakeup_fd wakeup_buf 8 0))
    call (set_data sqe wakeup_fd_tag)
    result ← ask submit u.io_uring_submit
    pure (pos 0)

  unfoldable pub ring_prep_wakeup_read : ℤ → ℕ → M ℤ
  unfolding read_wakeup
  ring_prep_wakeup_read wakeup_fd wakeup_buf = do
    sqe ← ask get_sqe u.io_uring_get_sqe
    read_wakeup wakeup_fd wakeup_buf sqe
