-- ===== src/Payload.antt =====
-- `BufferPayload` of src/python_api/buffers, and the rule by which it is freed.
use uringio.Base.{ℕ, ℤ, Bool, true, false, Option, List, not, ◌&&◌}
use uringio.Enums.{BufferMode, normal_buf, fixed, PayloadOrigin, PayloadType}
use uringio.Uring.{Iovec}

-- An array of `Py_buffer`s at `address`: the objects whose memory it has on loan.
pub record Views : Type 0 where
  pub address : ℕ
  pub objects : List ℕ

-- An array of `LinearBuffer`s at `address`: the fields of the first, and the buffer and the length
-- of each of the others, whose `views` the program leaves NULL.
pub record LinearBuffer : Type 0 where
  pub buffer : ℕ
  pub len : ℕ
  pub others : List (ℕ × ℕ)
  pub views : Option Views
  pub address : ℕ

-- A `VectoredBuffer` at `address`, whose array of iovecs is at `array`.
pub record VectoredBuffer : Type 0 where
  pub iovecs : List Iovec
  pub nr_vecs : ℕ
  pub views : Option Views
  pub address : ℕ
  pub array : ℕ

-- `none` is NULL. `idx_registry` is the address of a registry of fixed buffers.
pub record BufferPayload : Type 0 where
  pub payload_type : PayloadType
  pub payload_origin : PayloadOrigin
  pub mode : BufferMode
  pub amount : ℤ
  pub linear : Option LinearBuffer
  pub vector : Option VectoredBuffer
  pub idx_registry : ℕ
  pub buf_idx : ℤ
  pub bgid : ℤ
  pub buf_ring : Option ℕ

abbrev pub is_normal : BufferMode → Bool
is_normal normal_buf = true
is_normal _ = false

abbrev pub is_fixed : BufferMode → Bool
is_fixed fixed = true
is_fixed _ = false

-- `free_buffer_payload` returns early `if (!(payload->mode == NORMAL_BUF) && !force)`.
abbrev pub is_freed : BufferPayload → (force : Bool) → Bool
is_freed p force = not (not (is_normal p.mode) && not force)
