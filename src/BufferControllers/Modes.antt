-- ===== src/BufferControllers/Modes.antt =====
-- src/buffer_controllers/buffer_modes.c: how buffers are given to the ring and taken back, in the
-- fixed, the provided and the buffer ring mode.
use uringio.Base.{
  ℕ, zero, suc, ◌+◌, ◌*◌, ◌%◌, ◌^◌, ℤ, pos, negsuc, is_neg, negate, pos_part, to_u16, to_u32,
  to_u64, Option, none, some, List, [], ◌∷◌, ◌++◌, ◌≡◌, if◌then◌else◌, arith,
}
use uringio.Uring.{
  Iovec, Prep, Call, prep, submit, register_buffers, unregister_buffers, setup_buf_ring,
  buf_ring_init, buf_ring_add, buf_ring_advance, free_buf_ring, Liburing, M, pure, ◌>>=◌, ◌>>◌,
  call, ask,
}
use uringio.Ops.{with_optional_timeout}

-- `(char *)addr + i * len`, where the product is in range for an `int`
abbrev pub entry_at : ℕ → ℕ → ℤ → ℕ
entry_at addr i (pos len) = (addr + i * len) % 2 ^ 64
entry_at addr i (negsuc len) = (addr + to_u64 (negate (pos (i * suc len)))) % 2 ^ 64

module _ (u : Liburing) where
  unfoldable pub init_fixed_mode : List Iovec → ℕ → M ℤ
  init_fixed_mode iovecs nr_iovecs = do
    result ← ask (register_buffers iovecs nr_iovecs) u.io_uring_register_buffers
    if is_neg result then pure (negsuc 0) else pure (pos 1)

  unfoldable pub close_fixed_mode : M ℤ
  close_fixed_mode = do
    result ← ask unregister_buffers u.io_uring_unregister_buffers
    if is_neg result then pure (negsuc 0) else pure (pos 1)

  -- What both functions of the provided mode do with their sqe.
  submit_prepared : Prep → ℕ → M ℤ
  submit_prepared p sqe = do
    call (prep sqe p)
    result ← ask submit u.io_uring_submit
    if is_neg result then pure (negsuc 0) else pure (pos 1)

  unfoldable pub init_provided_mode : ℕ → ℤ → ℤ → ℤ → M ℤ
  unfolding with_optional_timeout submit_prepared
  init_provided_mode addr len nr bgid =
      with_optional_timeout u none (submit_prepared (Prep.provide_buffers addr len nr bgid (pos 0)))

  unfoldable pub close_provided_mode : ℤ → ℤ → M ℤ
  unfolding with_optional_timeout submit_prepared
  close_provided_mode nr bgid =
      with_optional_timeout u none (submit_prepared (Prep.remove_buffers nr bgid))

  -- `for (int i = …; i < nentries; i++)`, from `i` on, for `n` rounds
  unfoldable pub add_entries : ℕ → ℕ → ℤ → ℤ → ℕ → ℕ → M (Unit {0})
  add_entries ring addr len mask i zero = pure tt
  add_entries ring addr len mask i (suc n) = do
    call (buf_ring_add ring (entry_at addr i len) (to_u32 len) (to_u16 (pos i)) mask (pos i))
    add_entries ring addr len mask (suc i) n

  -- `init_buf_ring_mode` with the ring that `io_uring_setup_buf_ring` gave.
  unfoldable pub fill_buf_ring : ℕ → ℤ → ℤ → Option ℕ → M (Option ℕ)
  unfolding add_entries
  fill_buf_ring addr len nentries none = pure none
  fill_buf_ring addr len nentries (some ring) = do
    call (buf_ring_init ring)
    add_entries ring addr len (u.io_uring_buf_ring_mask (to_u32 nentries)) 0 (pos_part nentries)
    call (buf_ring_advance ring nentries)
    pure (some ring)

  unfoldable pub init_buf_ring_mode : ℕ → ℤ → ℤ → ℤ → M (Option ℕ)
  unfolding fill_buf_ring
  init_buf_ring_mode addr len nentries bgid = do
    ring ← ask (setup_buf_ring (to_u32 nentries) bgid) u.io_uring_setup_buf_ring
    fill_buf_ring addr len nentries ring

  -- `none` is the NULL pointer.
  unfoldable pub close_buf_ring_mode : Option ℕ → ℤ → ℤ → M ℤ
  close_buf_ring_mode none nentries bgid = pure (negsuc 0)
  close_buf_ring_mode (some ring) nentries bgid = do
    call (free_buf_ring ring (to_u32 nentries) bgid)
    pure (pos 1)

  -- The entries of `n` buffers of `len` bytes from `addr` on, the last one first.
  abbrev entries : ℕ → ℕ → ℤ → ℤ → ℕ → List Call
  entries ring addr len mask zero = []
  entries ring addr len mask (suc n) =
      buf_ring_add ring (entry_at addr n len) (to_u32 len) (to_u16 (pos n)) mask (pos n)
      ∷ entries ring addr len mask n

  add_entries-entries :
      (ring addr : ℕ) (len mask : ℤ) (i n : ℕ) (h : List Call)
      → add_entries ring addr len mask i n (entries ring addr len mask i ++ h)
        ≡ (tt, entries ring addr len mask (n + i) ++ h)
  unfolding add_entries
  add_entries-entries ring addr len mask i zero h = ground arith
  add_entries-entries ring addr len mask i (suc n) h =
      ground (arith, add_entries-entries ring addr len mask (suc i) n h)

  -- With a ring for `nentries` ≥ 0 buffers, `init_buf_ring_mode` initialises it, adds each of the
  -- buffers 0, …, nentries - 1 once, in this order, each with its own bytes of the region and its
  -- number as its id, and then makes all of them visible at once.
  init_buf_ring_mode-adds :
      (addr : ℕ) (len : ℤ) (nentries : ℕ) (bgid : ℤ) (h : List Call) (ring : ℕ)
      → u.io_uring_setup_buf_ring h ≡ some ring
      → init_buf_ring_mode addr len (pos nentries) bgid h ≡ (
        some ring,
        buf_ring_advance ring (pos nentries)
              ∷ entries ring addr len (u.io_uring_buf_ring_mask (to_u32 (pos nentries))) nentries
            ++ (buf_ring_init ring ∷ setup_buf_ring (to_u32 (pos nentries)) bgid ∷ h),
      )
  unfolding init_buf_ring_mode
  init_buf_ring_mode-adds addr len nentries bgid h ring e = ground (
    arith,
    add_entries-entries ring addr len (u.io_uring_buf_ring_mask (to_u32 (pos nentries))) 0 nentries
        (buf_ring_init ring ∷ setup_buf_ring (to_u32 (pos nentries)) bgid ∷ h),
  )
