-- ===== src/Timer.antt =====
-- src/timer: the request of a timer, and the timeout that is linked to another request.
use uringio.Base.{
  ℕ, ℤ, pos, negsuc, is_neg, eqb_ℤ, to_u32, to_u64, Bool, not, ◌&&◌, Option, none, some,
  if◌then◌else◌,
}
use uringio.Uring.{
  Prep, get_sqe, prep, or_flags, set_data, submit, Liburing, M, pure, ◌>>=◌, ◌>>◌, call, ask,
}
use uringio.Ring.{create_sqe}

pub record TimerParams : Type 0 where
  pub sec : ℤ
  pub nsec : ℤ
  pub count : ℤ
  pub is_multishot : Bool

pub record TimeoutParams : Type 0 where
  pub sec : ℤ
  pub nsec : ℤ
  pub is_required : Bool

-- `timeout` has nothing to do for these parameters.
abbrev pub is_unset : TimeoutParams → Bool
is_unset p = eqb_ℤ p.sec (pos 0) && eqb_ℤ p.nsec (pos 0) && not p.is_required

module _ (u : Liburing) where
  -- `timer` with the sqe that `create_sqe` gave.
  unfoldable pub submit_timer : ℤ → TimerParams → Option ℕ → M ℤ
  submit_timer request_idx p none = pure (negsuc 0)
  submit_timer request_idx p (some sqe) = do
    call (
        prep sqe (
          Prep.timeout (record { tv_sec = p.sec; tv_nsec = p.nsec }) (to_u32 p.count)
            (if p.is_multishot then u.ioring_timeout_multishot else 0)))
    call (set_data sqe (to_u64 request_idx))
    result ← ask submit u.io_uring_submit
    if is_neg result then pure (pos 0) else pure (pos 1)

  -- `none` is the NULL pointer.
  unfoldable pub timer : ℤ → Option TimerParams → M ℤ
  unfolding submit_timer create_sqe
  timer request_idx none = pure (negsuc 0)
  timer request_idx (some p) = do sqe ← create_sqe u; submit_timer request_idx p sqe

  unfoldable pub link_timeout : TimeoutParams → Option ℕ → M ℤ
  link_timeout p none = if p.is_required then pure (negsuc 0) else pure (pos 0)
  link_timeout p (some timeout_sqe) = do
    call (prep timeout_sqe (Prep.link_timeout (record { tv_sec = p.sec; tv_nsec = p.nsec }) 0))
    pure (pos 0)

  unfoldable pub arm_timeout : ℕ → TimeoutParams → M ℤ
  unfolding link_timeout
  arm_timeout sqe p = do
    call (or_flags sqe u.iosqe_io_link)
    timeout_sqe ← ask get_sqe u.io_uring_get_sqe
    link_timeout p timeout_sqe

  -- `none` is the NULL pointer.
  unfoldable pub timeout : ℕ → Option TimeoutParams → M ℤ
  unfolding arm_timeout
  timeout sqe none = pure (pos 0)
  timeout sqe (some p) = if is_unset p then pure (pos 0) else arm_timeout sqe p
