-- ===== src/Reader/FileCases.antt =====
-- The cases of the switch of `on_uring_ready` for reads, writes, and files.
use uringio.Base.{ℕ, ℤ, pos, eqb_ℤ, true, false, Option, none, some, if◌then◌else◌}
use uringio.Registry.{RequestSlot, incref}
use uringio.Reader.State.{
  Cqe, new_long, effect, Env, R, pure, ◌>>=◌, ◌>>◌, deref, emit, create, modify, update, payload_at,
  release_if_fixed,
}
use uringio.Reader.Results.{Next, complete, free_slot_payload, complete_long, bytes_from, gathered}

module _ (env : Env) (index : ℤ) (slot : RequestSlot) (cqe : Cqe) where
  unfoldable pub on_read : R Next
  unfolding bytes_from free_slot_payload release_if_fixed
  on_read = do
    payload ← payload_at slot.buffer_payload
    linear ← deref payload.linear
    result ←
        (if eqb_ℤ (pos linear.buffer) (pos 0) then pure none else bytes_from env cqe linear.buffer)
    release_if_fixed payload
    free_slot_payload index slot false
    pure (complete result)

  unfoldable pub on_readv : R Next
  unfolding gathered free_slot_payload
  on_readv = do
    payload ← payload_at slot.buffer_payload
    vec ← deref payload.vector
    result ← gathered env cqe vec
    free_slot_payload index slot false
    pure (complete result)

  unfoldable pub on_write : R Next
  unfolding free_slot_payload release_if_fixed
  on_write = do
    result ← create env (new_long cqe.res)
    payload ← payload_at slot.buffer_payload
    release_if_fixed payload
    free_slot_payload index slot true
    pure (complete result)

  -- `if (slot->buffer_payload) { free_buffer_payload(…, false); slot->buffer_payload = NULL; }`
  free_present : Option ℕ → R (Unit {0})
  unfolding free_slot_payload
  free_present none = pure tt
  free_present (some p) = free_slot_payload index slot false

  unfoldable pub on_writev : R Next
  unfolding free_present
  on_writev = do
    result ← create env (new_long cqe.res)
    free_present slot.buffer_payload
    pure (complete result)

  -- `if (slot->file)`: the descriptor goes into the file, which is the result.
  on_open_file : Option ℕ → R Next
  on_open_file none = pure (complete none)
  on_open_file (some f) = do
    modify λ s. record s { files = update s.files f (record (s.files f) { fd = cqe.res }) }
    pure (complete (some f))

  unfoldable pub on_openat2 : R Next
  unfolding on_open_file
  on_openat2 = on_open_file slot.file

  close_file : Option ℕ → R Next
  unfolding complete_long
  close_file none = pure (complete none)
  close_file (some f) = do
    modify λ s. record s { files = update s.files f (record (s.files f) { closed = true }) }
    complete_long env cqe

  close_socket : Option ℕ → R Next
  unfolding close_file complete_long
  close_socket none = close_file slot.file
  close_socket (some k) = do
    modify λ s. record s { sockets = update s.sockets k (record (s.sockets k) { closed = true }) }
    complete_long env cqe

  unfoldable pub on_close : R Next
  unfolding close_socket
  on_close = close_socket slot.socket

  unfoldable pub on_timeout : R Next
  on_timeout = do emit (effect (incref env.py_none)); pure (complete (some env.py_none))
