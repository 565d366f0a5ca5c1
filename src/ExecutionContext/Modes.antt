-- ===== src/ExecutionContext/Modes.antt =====
-- src/python_api/execution_context/execution_context.c: the switches over the buffer mode, by which
-- `enter` gives the payload's buffers to the ring, and `exit` takes them back.
use uringio.Base.{
  ℕ, to_int, to_u32, is_neg, Bool, true, false, Option, none, some, ◌==◌, if◌then◌else◌,
}
use uringio.Enums.{BufferMode, normal_buf, fixed, provided, buf_ring, buf_no_val, payload_linear}
use uringio.Payload.{BufferPayload}
use uringio.BufferControllers.Index.{
  FixedBufferIdxRegistry, buffer_idx_registry_create, buffer_idx_registry_destroy,
}
use uringio.BufferControllers.Modes.{
  init_fixed_mode, close_fixed_mode, init_provided_mode, close_provided_mode, init_buf_ring_mode,
  close_buf_ring_mode,
}
use uringio.Methods.{S, pure, ◌>>=◌, ◌>>◌, deref, answered, in_ring, update, stored_payload}
use uringio.ExecutionContext.{Python, X, in_caller}

abbrev set_payload : ℕ → BufferPayload → S (Unit {0})
set_payload p b s = some (tt, record s { payloads = update s.payloads p (some b) })

abbrev set_pool : ℕ → FixedBufferIdxRegistry → S (Unit {0})
set_pool r pool s = some (tt, record s { pools = update s.pools r pool })

module _ {Var : Type 0} (py : Python Var) (p : ℕ) where
  -- The registry of indices, with the payload's array of iovecs forgotten.
  abbrev pub lend_indices : BufferPayload → Option FixedBufferIdxRegistry → S Bool
  lend_indices b none = pure false
  lend_indices b (some pool) = do
    set_pool py.registry_address pool
    set_payload p (record b {
      idx_registry = py.registry_address;
      vector = none;
      payload_type = payload_linear;
    })
    pure true

  abbrev pub activate_fixed : BufferPayload → S Bool
  activate_fixed b = do
    vector ← deref b.vector
    result ← in_ring (init_fixed_mode py.liburing vector.iovecs vector.nr_vecs)
    if is_neg result
        then pure false
        else lend_indices b
            (buffer_idx_registry_create py.registry_memory.0 py.registry_memory.1 (to_u32 b.amount))

  abbrev pub activate_provided : BufferPayload → S Bool
  activate_provided b = do
    linear ← deref b.linear
    result ←
        in_ring (init_provided_mode py.liburing linear.buffer (to_int linear.len) b.amount b.bgid)
    pure (if is_neg result then false else true)

  -- A ring that could not be made is stored as NULL.
  abbrev pub activate_buf_ring : BufferPayload → S Bool
  activate_buf_ring b = do
    linear ← deref b.linear
    ring ← (λ s.
        answered
          (init_buf_ring_mode py.liburing linear.buffer (to_int linear.len) b.amount b.bgid s.calls)
          s)
    set_payload p (record b { buf_ring = ring })
    pure true

  -- `false` is a failure.
  abbrev pub activate_mode : BufferMode → BufferPayload → S Bool
  activate_mode fixed b = activate_fixed b
  activate_mode provided b = activate_provided b
  activate_mode buf_ring b = activate_buf_ring b
  activate_mode normal_buf b = pure true
  activate_mode buf_no_val b = pure true

  unfoldable pub activate : X Var Bool
  unfolding init_fixed_mode init_provided_mode init_buf_ring_mode buffer_idx_registry_create
  activate = in_caller (do b ← stored_payload p; activate_mode b.mode b)

  abbrev pub destroy_pool : ℕ → S (Unit {0})
  destroy_pool r s =
      if r == 0
      then none
      else some
          (tt, record s { pools = update s.pools r (buffer_idx_registry_destroy (s.pools r)) })

  -- What the functions that close a mode answer is not looked at.
  abbrev pub deactivate_mode : BufferMode → BufferPayload → S (Unit {0})
  deactivate_mode fixed b = do in_ring (close_fixed_mode py.liburing); destroy_pool b.idx_registry
  deactivate_mode provided b = do in_ring (close_provided_mode py.liburing b.amount b.bgid); pure tt
  deactivate_mode buf_ring b = do
    in_ring (close_buf_ring_mode py.liburing b.buf_ring b.amount b.bgid)
    set_payload p (record b { buf_ring = none })
  deactivate_mode normal_buf b = pure tt
  deactivate_mode buf_no_val b = pure tt

  unfoldable pub deactivate : X Var (Unit {0})
  unfolding close_fixed_mode close_provided_mode close_buf_ring_mode buffer_idx_registry_destroy
  deactivate = in_caller (do b ← stored_payload p; deactivate_mode b.mode b)
