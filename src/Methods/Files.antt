-- ===== src/Methods/Files.antt =====
-- src/python_api/ops/files/files.c: the methods of an open file. The arguments are parsed: `none`
-- is a failure of the parsing. An answer is the future, `none` for NULL.
use uringio.Base.{
  ℕ, ℤ, Bool, true, false, not, ◌%◌, ◌^◌, ◌||◌, Option, none, some, ◌==◌, if◌then◌else◌,
}
use uringio.Enums.{oneshot, BufferMode, provided, buf_ring, Opcode}
use uringio.Timer.{TimeoutParams}
use uringio.Uring.{Iovec}
use uringio.Payload.{BufferPayload}
use uringio.Buffers.Heap
use uringio.Buffers.Heap.{loan, give_back}
use uringio.Buffers.Create.{
  Answer, PyBuffer, create_buffer_payload_from_data, create_buffer_payload_from_pybuffer,
  get_or_create_linear_buffer, get_or_create_vectored_buffer,
}
use uringio.Ops.Files.{
  uringio_readv, uringio_writev, uringio_close_file, uringio_fsync, uringio_fdatasync,
  uringio_splice,
}
use uringio.Methods.{
  Site, S, pure, ◌>>=◌, ◌>>◌, deref, in_heap, in_ring, raise, make_payload, stored_payload,
  free_payload_at, create_future, guarded, with_args, or_null, drop_reference, register_and_submit,
}
use uringio.Methods.Dispatch.{read_dispatcher, readv_dispatcher, write_dispatcher}

-- The arguments of `splice`.
pub record SpliceArgs : Type 0 where
  pub src : ℤ
  pub dst : ℤ
  pub count : ℤ
  pub offset_src : ℤ
  pub offset_dst : ℤ
  pub flag : ℤ

-- The arguments of `readv_raw` and `writev_raw`; the object's bytes are read as iovecs.
pub record RawArgs : Type 0 where
  pub obj : ℕ
  pub sizeof_iovec : ℕ
  pub iovec_at : ℕ → Iovec
  pub is_contiguous : Bool
  pub offset : ℤ

module _ (site : Site) where
  -- The context's payload with its address.
  abbrev pub with_address : ℕ → BufferPayload → Answer
  with_address p b = some (p, b)

  abbrev pub context : S Answer
  context s = elim site.context_payload [
    | none ↦ some (none, s)
    | some p ↦ (stored_payload p >>= λ b. pure (with_address p b)) s
  ]

  -- The methods that submit no buffer: the future, then the request.
  abbrev pub without_buffer : Opcode → (ℤ → S ℤ) → S (Option ℕ)
  without_buffer opcode submit = do
    future ← create_future site
    or_null site (pure tt) future λ f. register_and_submit site f none oneshot opcode submit

  unfoldable pub uringio_file_close : Option (Option TimeoutParams) → S (Option ℕ)
  unfolding uringio_close_file register_and_submit
  uringio_file_close args = guarded site (
      with_args site args λ timeout. with_args site timeout λ t.
        without_buffer Opcode.close
          (λ idx. in_ring (uringio_close_file site.liburing idx site.fd t)))

  unfoldable pub uringio_file_fsync : Option (Option TimeoutParams) → S (Option ℕ)
  unfolding uringio_fsync register_and_submit
  uringio_file_fsync args = guarded site (
      with_args site args λ timeout. with_args site timeout λ t.
        without_buffer Opcode.fsync (λ idx. in_ring (uringio_fsync site.liburing idx site.fd t)))

  unfoldable pub uringio_file_fdatasync : Option (Option TimeoutParams) → S (Option ℕ)
  unfolding uringio_fdatasync register_and_submit
  uringio_file_fdatasync args = guarded site (
      with_args site args λ timeout. with_args site timeout λ t.
        without_buffer Opcode.fsync
          (λ idx. in_ring (uringio_fdatasync site.liburing idx site.fd t)))

  unfoldable pub uringio_file_splice : Option (SpliceArgs × Option TimeoutParams) → S (Option ℕ)
  unfolding uringio_splice register_and_submit
  uringio_file_splice args = guarded site (
      with_args site args λ (a, timeout). with_args site timeout λ t.
        without_buffer Opcode.splice (λ idx. in_ring (
          uringio_splice site.liburing idx a.src a.offset_src a.dst a.offset_dst a.count a.flag t)))

  unfoldable pub uringio_file_read : Option (ℤ × ℤ × Option TimeoutParams) → S (Option ℕ)
  unfolding get_or_create_linear_buffer read_dispatcher register_and_submit give_back
  uringio_file_read args = guarded site (
      with_args site args λ (offset, size, timeout). with_args site timeout λ t. do
        future ← create_future site
        or_null site (pure tt) future λ f. do
          current ← context
          payload ← make_payload (get_or_create_linear_buffer site.host current none size)
          or_null site (drop_reference site f) payload λ p.
              register_and_submit site f (some p) site.stream_strategy Opcode.read
                (λ idx. read_dispatcher site p site.stream_strategy idx size offset t))

  unfoldable pub uringio_file_write : Option (ℕ × ℤ × Option TimeoutParams) → S (Option ℕ)
  unfolding create_buffer_payload_from_data write_dispatcher register_and_submit give_back
  uringio_file_write args = guarded site (
      with_args site args λ (obj, offset, timeout). with_args site timeout λ t. do
        future ← create_future site
        or_null site (pure tt) future λ f. do
          payload ← make_payload (create_buffer_payload_from_data site.host obj)
          or_null site (drop_reference site f) payload λ p.
              register_and_submit site f (some p) oneshot Opcode.write
                (λ idx. write_dispatcher site p idx offset t))

  -- The methods that have a payload before their future.
  abbrev pub with_payload : ℕ → Opcode → (ℤ → S ℤ) → S (Option ℕ)
  with_payload p opcode submit = do
    future ← create_future site
    or_null site (free_payload_at p false) future
        λ f. register_and_submit site f (some p) oneshot opcode submit

  abbrev pub writev_payload : ℕ → ℤ → ℤ → TimeoutParams → ℤ → S ℤ
  writev_payload p offset flags t idx = do
    b ← stored_payload p
    vector ← deref b.vector
    in_ring (uringio_writev site.liburing idx site.fd vector.iovecs vector.nr_vecs offset flags t)

  unfoldable pub uringio_file_writev : Option (ℕ × ℤ × ℤ × Option TimeoutParams) → S (Option ℕ)
  unfolding get_or_create_vectored_buffer uringio_writev register_and_submit free_payload_at
  uringio_file_writev args = guarded site (
      with_args site args λ (obj, flags, offset, timeout). with_args site timeout λ t. do
        current ← context
        payload ← make_payload (get_or_create_vectored_buffer site.host current (some obj))
        or_null site (pure tt) payload
            λ p. with_payload p Opcode.writev (writev_payload p offset flags t))

  abbrev pub selects : BufferMode → Bool
  selects provided = true
  selects buf_ring = true
  selects _ = false

  -- `_get_buffer()`, unless its mode is another than PROVIDED and BUF_RING
  abbrev pub readv_buffer : Answer → Option ℕ → S (Option ℕ)
  readv_buffer none obj = make_payload (get_or_create_vectored_buffer site.host none obj)
  readv_buffer (some (p, b)) obj =
      if selects b.mode
      then pure (some p)
      else make_payload (get_or_create_vectored_buffer site.host (some (p, b)) obj)

  unfoldable pub uringio_file_readv :
      Option (Option ℕ × ℤ × Bool × Option TimeoutParams) → S (Option ℕ)
  unfolding get_or_create_vectored_buffer readv_dispatcher register_and_submit free_payload_at
  uringio_file_readv args = guarded site (
      with_args site args λ (obj, offset, nowait, timeout). with_args site timeout λ t. do
        current ← context
        payload ← readv_buffer current obj
        or_null site (pure tt) payload
            λ p. with_payload p Opcode.readv (λ idx. readv_dispatcher site p idx offset nowait t))

  abbrev pub raw_buffer : RawArgs → Heap.Span → PyBuffer
  raw_buffer a span = record {
    object = a.obj;
    len = span.len;
    sizeof_iovec = a.sizeof_iovec;
    iovec_at = a.iovec_at;
  }

  -- `PyBuffer_Release(&iovecs_buf); PyErr_SetString(…); return NULL;`
  abbrev pub release_and_raise : ℕ → S (Option ℕ)
  release_and_raise obj = do in_heap (give_back (loan obj)); raise

  abbrev pub readv_raw_payload : ℕ → ℤ → Bool → TimeoutParams → ℤ → S ℤ
  readv_raw_payload p offset nowait t idx = do
    b ← stored_payload p
    vector ← deref b.vector
    in_ring (uringio_readv site.liburing idx site.fd vector.iovecs vector.nr_vecs offset nowait t)

  abbrev pub readv_raw_lent : RawArgs → Bool → TimeoutParams → Option Heap.Span → S (Option ℕ)
  readv_raw_lent a nowait t none = pure none
  readv_raw_lent a nowait t (some span) =
      if not (span.len % 2 ^ 32 % a.sizeof_iovec == 0) || not a.is_contiguous
      then release_and_raise a.obj
      else (do
        payload ← make_payload (create_buffer_payload_from_pybuffer site.host (raw_buffer a span))
        or_null site (pure tt) payload
            λ p. with_payload p Opcode.readv (readv_raw_payload p a.offset nowait t))

  unfoldable pub uringio_file_readv_raw :
      Option (RawArgs × Bool × Option TimeoutParams) → S (Option ℕ)
  unfolding Heap.get_buffer create_buffer_payload_from_pybuffer uringio_readv register_and_submit
      free_payload_at give_back
  uringio_file_readv_raw args = guarded site (
      with_args site args λ (a, nowait, timeout).
        with_args site timeout
          λ t. do view ← in_heap (Heap.get_buffer site.host a.obj); readv_raw_lent a nowait t view)

  abbrev pub writev_raw_lent : RawArgs → ℤ → TimeoutParams → Option Heap.Span → S (Option ℕ)
  writev_raw_lent a flags t none = pure none
  writev_raw_lent a flags t (some span) =
      if not (span.len % a.sizeof_iovec == 0) || not a.is_contiguous
      then release_and_raise a.obj
      else (do
        payload ← make_payload (create_buffer_payload_from_pybuffer site.host (raw_buffer a span))
        or_null site (in_heap (give_back (loan a.obj))) payload
            λ p. with_payload p Opcode.writev (writev_payload p a.offset flags t))

  unfoldable pub uringio_file_writev_raw :
      Option (RawArgs × ℤ × Option TimeoutParams) → S (Option ℕ)
  unfolding Heap.get_buffer create_buffer_payload_from_pybuffer uringio_writev register_and_submit
      free_payload_at give_back
  uringio_file_writev_raw args = guarded site (
      with_args site args λ (a, flags, timeout).
        with_args site timeout
          λ t. do view ← in_heap (Heap.get_buffer site.host a.obj); writev_raw_lent a flags t view)
