-- ===== src/Buffers/Create.antt =====
-- The payloads that the methods of files and sockets make, of src/python_api/buffers/buffers.c. An
-- answer is the payload and its address, `none` for NULL.
use uringio.Base.{
  ℕ, zero, suc, ◌+◌, ◌/◌, ◌%◌, ◌^◌, ◌*◌, ℤ, pos, to_int, Bool, true, false, Option, none, some,
  if◌then◌else◌, List, [], ◌∷◌,
}
use uringio.Enums.{
  normal_buf, payload_user, payload_runtime, PayloadOrigin, PayloadType, payload_linear,
  payload_iovec, payload_linear_and_iovec, payload_type_no_val,
}
use uringio.Uring.{Iovec}
use uringio.Payload.{Views, LinearBuffer, VectoredBuffer, BufferPayload}
use uringio.Buffers.Heap.{
  block, payload_block, vectored_block, linear_array, iovec_array, view_array, Span, Host, H, pure,
  ◌>>=◌, ◌>>◌, set_error, malloc, give_back, get_buffer,
}
use uringio.Buffers.Linear.{create_linear_buffers, serialize_linear_buffers}
use uringio.Buffers.Vectored.{create_vectored_buffers, serialize_vectored_buffers}
pub mod Contract
pub mod GetOrCreate
pub mod Freed

abbrev pub Answer : Type 0
Answer = Option (ℕ × BufferPayload)

-- `memset(buffer_payload, 0, sizeof(BufferPayload))`
abbrev pub zeroed : BufferPayload
zeroed = record {
  payload_type = payload_linear;
  payload_origin = payload_user;
  mode = normal_buf;
  amount = pos 0;
  linear = none;
  vector = none;
  idx_registry = 0;
  buf_idx = pos 0;
  bgid = pos 0;
  buf_ring = none;
}

abbrev pub null_no_memory : H Answer
null_no_memory = do set_error; pure none

abbrev pub borrowed_data : (p a v obj : ℕ) → Option Span → H Answer
borrowed_data p a v obj none = do
  give_back (block v)
  give_back (block a)
  give_back (block p)
  pure none
borrowed_data p a v obj (some span) =
    let views : Views = record { address = v; objects = obj ∷ [] } in
    let l : LinearBuffer = record {
      buffer = span.buf;
      len = span.len;
      others = [];
      views = some views;
      address = a;
    } in
    let b : BufferPayload = record zeroed {
      payload_type = payload_linear;
      amount = pos 1;
      linear = some l;
      payload_origin = payload_user;
    } in
    pure (some (p, b))

abbrev pub data_views : Host → (p a obj : ℕ) → Option ℕ → H Answer
data_views h p a obj none = do give_back (block a); give_back (block p); null_no_memory
data_views h p a obj (some v) = do view ← get_buffer h obj; borrowed_data p a v obj view

abbrev pub data_array : Host → (p obj : ℕ) → Option ℕ → H Answer
data_array h p obj none = do give_back (block p); null_no_memory
data_array h p obj (some a) = do views ← malloc h (view_array (pos 1)); data_views h p a obj views

abbrev pub data_payload : Host → (obj : ℕ) → Option ℕ → H Answer
data_payload h obj none = null_no_memory
data_payload h obj (some p) = do buffer ← malloc h (linear_array (pos 1)); data_array h p obj buffer

unfoldable pub create_buffer_payload_from_data : Host → (obj : ℕ) → H Answer
unfolding malloc get_buffer give_back
create_buffer_payload_from_data h obj = do
  payload ← malloc h payload_block
  data_payload h obj payload

-- A `Py_buffer` on loan from `object`, whose bytes are `struct iovec`s: `iovec_at i` is that at
-- index `i`, and each takes `sizeof_iovec` bytes.
pub record PyBuffer : Type 0 where
  pub object : ℕ
  pub len : ℕ
  pub sizeof_iovec : ℕ
  pub iovec_at : ℕ → Iovec

abbrev pub nr_vecs : PyBuffer → ℕ
nr_vecs buf = buf.len / buf.sizeof_iovec % 2 ^ 32

-- `memcpy` of `n` iovecs from index `i` on
abbrev pub iovecs_from : (ℕ → Iovec) → ℕ → ℕ → List Iovec
iovecs_from at i zero = []
iovecs_from at i (suc n) = at i ∷ iovecs_from at (suc i) n

abbrev pub raw_views : PyBuffer → (p v a : ℕ) → Option ℕ → H Answer
raw_views buf p v a none = do
  give_back (block a)
  give_back (block v)
  give_back (block p)
  null_no_memory
raw_views buf p v a (some w) =
    let views : Views = record { address = w; objects = buf.object ∷ [] } in
    let vec : VectoredBuffer = record {
      iovecs = iovecs_from buf.iovec_at 0 (nr_vecs buf);
      nr_vecs = nr_vecs buf;
      views = some views;
      address = v;
      array = a;
    } in
    let b : BufferPayload = record zeroed {
      payload_type = payload_iovec;
      amount = pos 1;
      linear = none;
      vector = some vec;
      mode = normal_buf;
      payload_origin = payload_user;
    } in
    pure (some (p, b))

abbrev pub raw_array : Host → PyBuffer → (p v : ℕ) → Option ℕ → H Answer
raw_array h buf p v none = do give_back (block v); give_back (block p); null_no_memory
raw_array h buf p v (some a) = do views ← malloc h (view_array (pos 1)); raw_views buf p v a views

abbrev pub raw_vectored : Host → PyBuffer → (p : ℕ) → Option ℕ → H Answer
raw_vectored h buf p none = do give_back (block p); null_no_memory
raw_vectored h buf p (some v) = do
  array ← malloc h (iovec_array (pos (nr_vecs buf)))
  raw_array h buf p v array

abbrev pub raw_payload : Host → PyBuffer → Option ℕ → H Answer
raw_payload h buf none = null_no_memory
raw_payload h buf (some p) = do vec ← malloc h vectored_block; raw_vectored h buf p vec

unfoldable pub create_buffer_payload_from_pybuffer : Host → PyBuffer → H Answer
unfolding malloc give_back
create_buffer_payload_from_pybuffer h buf = do
  payload ← malloc h payload_block
  raw_payload h buf payload

-- `_get_buffer()`, the payload of the current execution context, is `current`. A payload of another
-- type does not serve.
abbrev pub usable_linear : PayloadType → Option LinearBuffer → Bool
usable_linear payload_linear (some l) = true
usable_linear _ _ = false

abbrev pub usable_vectored : PayloadType → Option VectoredBuffer → Bool
usable_vectored payload_iovec (some v) = true
usable_vectored _ _ = false

abbrev pub has_linear : BufferPayload → Bool
has_linear b = usable_linear b.payload_type b.linear

abbrev pub has_vectored : BufferPayload → Bool
has_vectored b = usable_vectored b.payload_type b.vector

-- The fields that the two functions below set at their ends.
abbrev pub described : BufferPayload → (amount : ℤ) → PayloadOrigin → PayloadType → BufferPayload
described b amount origin type = record b {
  amount = amount;
  mode = normal_buf;
  payload_origin = origin;
  payload_type = type;
}

-- `get_or_create_linear_buffer` does not look at what its call answered.
abbrev pub made_linear : PayloadOrigin → ℕ → Option LinearBuffer × BufferPayload → H Answer
made_linear origin p (_, b) = pure (some (p, described b (pos 1) origin payload_linear))

abbrev pub new_linear : Host → (obj : Option ℕ) → (bufsize : ℤ) → Option ℕ → H Answer
new_linear h obj bufsize none = pure none
new_linear h none bufsize (some p) = do
  r ← create_linear_buffers h (pos 1) bufsize h.uninitialised
  made_linear payload_runtime p r
new_linear h (some obj) bufsize (some p) = do
  r ← serialize_linear_buffers h obj (pos 1) h.uninitialised
  made_linear payload_user p r

abbrev pub fresh_linear : Host → (obj : Option ℕ) → (bufsize : ℤ) → H Answer
fresh_linear h obj bufsize = do payload ← malloc h payload_block; new_linear h obj bufsize payload

unfoldable pub get_or_create_linear_buffer :
    Host → (current : Answer) → (obj : Option ℕ) → (bufsize : ℤ) → H Answer
unfolding malloc create_linear_buffers serialize_linear_buffers
get_or_create_linear_buffer h current (some obj) bufsize = fresh_linear h (some obj) bufsize
get_or_create_linear_buffer h none none bufsize = fresh_linear h none bufsize
get_or_create_linear_buffer h (some (p, b)) none bufsize =
    if has_linear b then pure (some (p, b)) else fresh_linear h none bufsize

abbrev pub made_vectored : PayloadOrigin → ℕ → Option VectoredBuffer × BufferPayload → H Answer
made_vectored origin p (none, b) = do give_back (block p); pure none
made_vectored origin p (some v, b) =
    pure (some (p, described b (to_int v.nr_vecs) origin payload_iovec))

abbrev pub new_vectored : Host → (obj : Option ℕ) → Option ℕ → H Answer
new_vectored h obj none = pure none
new_vectored h (some obj) (some p) = do
  r ← serialize_vectored_buffers h obj zeroed
  made_vectored payload_user p r
new_vectored h none (some p) = do
  r ← create_vectored_buffers h (pos 1) (pos 1024) zeroed
  made_vectored payload_runtime p r

abbrev pub fresh_vectored : Host → (obj : Option ℕ) → H Answer
fresh_vectored h obj = do payload ← malloc h payload_block; new_vectored h obj payload

unfoldable pub get_or_create_vectored_buffer :
    Host → (current : Answer) → (obj : Option ℕ) → H Answer
unfolding malloc give_back create_vectored_buffers serialize_vectored_buffers
get_or_create_vectored_buffer h current (some obj) = fresh_vectored h (some obj)
get_or_create_vectored_buffer h none none = fresh_vectored h none
get_or_create_vectored_buffer h (some (p, b)) none =
    if has_vectored b then pure (some (p, b)) else fresh_vectored h none
