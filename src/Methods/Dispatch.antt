-- ===== src/Methods/Dispatch.antt =====
-- src/python_api/ops/files/file_ops_dispatcher.c: the operation that serves a buffer mode.
use uringio.Base.{ℕ, ℤ, to_u32, Bool, true, false, none, some, ◌==◌, ◌%◌, ◌^◌, if◌then◌else◌}
use uringio.Enums.{
  StreamStrategy, multishot, BufferMode, normal_buf, fixed, provided, buf_ring, buf_no_val,
}
use uringio.Timer.{TimeoutParams}
use uringio.Payload.{BufferPayload}
use uringio.BufferControllers.Index.{FixedBufferIdxRegistry, get_buffer_idx}
use uringio.Ops.Files.{
  uringio_read, uringio_read_fixed, uringio_read_multishot, uringio_read_buffer_select,
  uringio_readv, uringio_readv_buffer_select, uringio_write, uringio_write_fixed,
}
use uringio.Methods.{Site, S, ◌>>=◌, ◌>>◌, deref, in_ring, update, stored_payload}

abbrev taken : ℕ → ℤ × FixedBufferIdxRegistry → S ℤ
taken r (index, pool) s = some (index, record s { pools = update s.pools r pool })

-- `get_buffer_idx(payload->idx_registry)`, which reads through the pointer
abbrev pub take_index : ℕ → S ℤ
take_index r s = if r == 0 then none else taken r (get_buffer_idx (s.pools r)) s

-- `payload->buf_idx = buf_idx`
abbrev pub set_buf_idx : ℕ → BufferPayload → ℤ → S (Unit {0})
set_buf_idx p b index s =
    some (tt, record s { payloads = update s.payloads p (some (record b { buf_idx = index })) })

abbrev pub is_multishot_stream : StreamStrategy → Bool
is_multishot_stream multishot = true
is_multishot_stream _ = false

module _ (site : Site) where
  abbrev read_into : BufferPayload → ℤ → ℤ → ℤ → TimeoutParams → S ℤ
  read_into b request_idx size offset t = do
    linear ← deref b.linear
    in_ring (uringio_read site.liburing request_idx site.fd linear.buffer (to_u32 size) offset t)

  abbrev read_selected : StreamStrategy → BufferPayload → ℤ → ℤ → ℤ → TimeoutParams → S ℤ
  read_selected stream b request_idx size offset t =
      if is_multishot_stream stream
      then in_ring (uringio_read_multishot site.liburing request_idx site.fd offset b.bgid t)
      else in_ring (
          uringio_read_buffer_select site.liburing request_idx site.fd (to_u32 size) offset b.bgid
            t)

  abbrev read_by_mode :
      BufferMode → StreamStrategy → ℕ → BufferPayload → ℤ → ℤ → ℤ → TimeoutParams → S ℤ
  read_by_mode fixed stream p b request_idx size offset t = do
    buf_idx ← take_index b.idx_registry
    set_buf_idx p b buf_idx
    linear ← deref b.linear
    in_ring (
        uringio_read_fixed site.liburing request_idx site.fd linear.buffer (to_u32 size) offset
          buf_idx t)
  read_by_mode provided stream p b request_idx size offset t =
      read_selected stream b request_idx size offset t
  read_by_mode buf_ring stream p b request_idx size offset t =
      read_selected stream b request_idx size offset t
  read_by_mode normal_buf stream p b request_idx size offset t =
      read_into b request_idx size offset t
  read_by_mode buf_no_val stream p b request_idx size offset t =
      read_into b request_idx size offset t

  unfoldable pub read_dispatcher : ℕ → StreamStrategy → ℤ → ℤ → ℤ → TimeoutParams → S ℤ
  unfolding get_buffer_idx uringio_read uringio_read_fixed uringio_read_multishot
      uringio_read_buffer_select
  read_dispatcher p stream request_idx size offset t = do
    b ← stored_payload p
    read_by_mode b.mode stream p b request_idx size offset t

  abbrev readv_selected : BufferPayload → ℤ → ℤ → Bool → TimeoutParams → S ℤ
  readv_selected b request_idx offset nowait t = do
    linear ← deref b.linear
    in_ring (
        uringio_readv_buffer_select site.liburing request_idx site.fd (linear.len % 2 ^ 32) offset
          b.bgid nowait t)

  abbrev readv_into : BufferPayload → ℤ → ℤ → Bool → TimeoutParams → S ℤ
  readv_into b request_idx offset nowait t = do
    vector ← deref b.vector
    in_ring (
        uringio_readv site.liburing request_idx site.fd vector.iovecs vector.nr_vecs offset nowait
          t)

  abbrev readv_by_mode : BufferMode → BufferPayload → ℤ → ℤ → Bool → TimeoutParams → S ℤ
  readv_by_mode provided b request_idx offset nowait t =
      readv_selected b request_idx offset nowait t
  readv_by_mode buf_ring b request_idx offset nowait t =
      readv_selected b request_idx offset nowait t
  readv_by_mode fixed b request_idx offset nowait t = readv_into b request_idx offset nowait t
  readv_by_mode normal_buf b request_idx offset nowait t = readv_into b request_idx offset nowait t
  readv_by_mode buf_no_val b request_idx offset nowait t = readv_into b request_idx offset nowait t

  unfoldable pub readv_dispatcher : ℕ → ℤ → ℤ → Bool → TimeoutParams → S ℤ
  unfolding uringio_readv uringio_readv_buffer_select
  readv_dispatcher p request_idx offset nowait t = do
    b ← stored_payload p
    readv_by_mode b.mode b request_idx offset nowait t

  abbrev write_from : BufferPayload → ℤ → ℤ → TimeoutParams → S ℤ
  write_from b request_idx offset t = do
    linear ← deref b.linear
    in_ring (
        uringio_write site.liburing request_idx site.fd linear.buffer (linear.len % 2 ^ 32) offset
          t)

  abbrev write_by_mode : BufferMode → ℕ → BufferPayload → ℤ → ℤ → TimeoutParams → S ℤ
  write_by_mode fixed p b request_idx offset t = do
    buf_idx ← take_index b.idx_registry
    set_buf_idx p b buf_idx
    linear ← deref b.linear
    in_ring (
        uringio_write_fixed site.liburing request_idx site.fd linear.buffer (linear.len % 2 ^ 32)
          offset buf_idx t)
  write_by_mode provided p b request_idx offset t = write_from b request_idx offset t
  write_by_mode buf_ring p b request_idx offset t = write_from b request_idx offset t
  write_by_mode normal_buf p b request_idx offset t = write_from b request_idx offset t
  write_by_mode buf_no_val p b request_idx offset t = write_from b request_idx offset t

  unfoldable pub write_dispatcher : ℕ → ℤ → ℤ → TimeoutParams → S ℤ
  unfolding get_buffer_idx uringio_write uringio_write_fixed
  write_dispatcher p request_idx offset t = do
    b ← stored_payload p
    write_by_mode b.mode p b request_idx offset t
