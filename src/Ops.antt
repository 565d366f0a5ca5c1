-- ===== src/Ops.antt =====
-- The frame of every operation of src/ops: the macro SQE_WITH_OPTIONAL_TIMEOUT of src/macroses.h,
-- and the lines by which each of them ends.
pub mod Contract
mod Tests
pub mod Files
pub mod Sockets
use uringio.Base.{ℕ, ℤ, pos, negsuc, is_neg, to_u64, Option, none, some, if◌then◌else◌}
use uringio.Uring.{set_data, submit, Liburing, M, pure, ◌>>=◌, ◌>>◌, call, ask}
use uringio.Ring.{create_sqe}
use uringio.Timer.{TimeoutParams, timeout}

module _ (u : Liburing) where
  -- The macro with the sqe that `create_sqe` gave, and the rest of the function that uses it.
  unfoldable pub armed : Option TimeoutParams → (ℕ → M ℤ) → Option ℕ → M ℤ
  armed t rest none = pure (negsuc 0)
  armed t rest (some sqe) = do
    armed ← timeout u sqe t
    if is_neg armed then pure (negsuc 0) else rest sqe

  unfoldable pub with_optional_timeout : Option TimeoutParams → (ℕ → M ℤ) → M ℤ
  unfolding armed create_sqe
  with_optional_timeout t rest = do sqe ← create_sqe u; armed t rest sqe

  -- The tail of each operation: tag the sqe with the request's index, and submit.
  unfoldable pub submit_request : ℕ → ℤ → M ℤ
  submit_request sqe request_idx = do
    call (set_data sqe (to_u64 request_idx))
    result ← ask submit u.io_uring_submit
    if is_neg result then pure (pos 0) else pure (pos 1)
