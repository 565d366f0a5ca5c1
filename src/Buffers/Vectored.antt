-- ===== src/Buffers/Vectored.antt =====
-- `create_vectored_buffers` and `serialize_vectored_buffers` of src/python_api/buffers/buffers.c,
-- with the answers of `create_linear_buffers` and `serialize_linear_buffers`.
use uringio.Base.{
  ℕ, suc, ℤ, pos_part, to_int, to_u32, Option, none, some, List, [], ◌∷◌, ◌++◌, length, take,
}
use uringio.Uring.{Iovec}
use uringio.Payload.{Views, VectoredBuffer, BufferPayload}
use uringio.Buffers.Heap.{
  block, loan, reference, vectored_block, iovec_array, view_array, Span, Host, H, pure, ◌>>=◌, ◌>>◌,
  set_error, malloc, give_back, free, release_all, sequence_fast, get_buffer, Array, malloc_array,
  write_entry,
}
use uringio.Buffers.Linear.{or_undo, fill_buffers, no_memory, objects, spans}
pub mod Contract
pub mod Serialize

abbrev Made : Type 0
Made = Option VectoredBuffer × BufferPayload

abbrev pub iovecs_of : List (ℕ × ℕ) → List Iovec
iovecs_of [] = []
iovecs_of ((p, n) ∷ ps) = record { iov_base = p; iov_len = n } ∷ iovecs_of ps

abbrev pub vectored_made :
    (len : ℤ) → (v a : ℕ) → Option Views → BufferPayload → List (ℕ × ℕ) → H Made
vectored_made len v a views payload ps =
    let vec : VectoredBuffer = record {
      iovecs = iovecs_of ps;
      nr_vecs = to_u32 len;
      views = views;
      address = v;
      array = a;
    } in
    pure (some vec, record payload { vector = some vec; linear = none })

abbrev pub filled_vectored : ℤ → BufferPayload → (v a : ℕ) → Option (List (ℕ × ℕ)) → H Made
filled_vectored len payload v a none = do
  give_back (block a)
  give_back (block v)
  no_memory payload
filled_vectored len payload v a (some ps) = vectored_made len v a none payload ps

abbrev pub allocated_array : Host → (len bufsize : ℤ) → BufferPayload → ℕ → Option Array → H Made
allocated_array h len bufsize payload v none = do give_back (block v); no_memory payload
allocated_array h len bufsize payload v (some a) = do
  ps ← fill_buffers h a bufsize (pos_part len) 0 []
  filled_vectored len payload v a.address ps

abbrev pub allocated_vectored : Host → (len bufsize : ℤ) → BufferPayload → Option ℕ → H Made
allocated_vectored h len bufsize payload none = no_memory payload
allocated_vectored h len bufsize payload (some v) = do
  array ← malloc_array h (iovec_array len)
  allocated_array h len bufsize payload v array

unfoldable pub create_vectored_buffers : Host → (len bufsize : ℤ) → BufferPayload → H Made
unfolding malloc malloc_array fill_buffers give_back
create_vectored_buffers h len bufsize payload = do
  vec ← malloc h vectored_block
  allocated_vectored h len bufsize payload vec

-- The loop that borrows the memory of each item, from item `i` on.
unfoldable pub lend_each :
    Host
    → (views iovecs : Array) → List ℕ
    → (i : ℕ) → List (ℕ × Span)
    → H (Option (List (ℕ × Span)))
unfolding get_buffer release_all write_entry
lend_each h views iovecs [] i done = pure (some done)
lend_each h views iovecs (x ∷ xs) i done =
    write_entry views i
    >> (get_buffer h x
        >>= or_undo (release_all (objects done)) (λ v.
          write_entry iovecs i >> lend_each h views iovecs xs (suc i) (done ++ ((x, v) ∷ []))))

abbrev pub lent_vectored :
    (fast : ℕ) → ℤ → BufferPayload → (views v a : ℕ) → Option (List (ℕ × Span)) → H Made
lent_vectored fast len payload views v a none = do
  give_back (block views)
  give_back (block a)
  give_back (block v)
  give_back (reference fast)
  pure (none, payload)
lent_vectored fast len payload views v a (some items) = do
  give_back (reference fast)
  vectored_made len v a (some (record { address = views; objects = objects items })) payload
      (spans items)

abbrev pub viewed_array :
    Host
    → (fast : ℕ) → List ℕ
    → ℤ
    → BufferPayload
    → (views : Array) → (v : ℕ) → Option Array
    → H Made
viewed_array h fast items len payload views v none = do
  give_back (block views.address)
  give_back (block v)
  give_back (reference fast)
  no_memory payload
viewed_array h fast items len payload views v (some a) = do
  lent ← lend_each h views a (take (pos_part len) items) 0 []
  lent_vectored fast len payload views.address v a.address lent

abbrev pub viewed_vectored :
    Host → (fast : ℕ) → List ℕ → ℤ → BufferPayload → Option Array → Option ℕ → H Made
viewed_vectored h fast items len payload none vec = do
  free none
  free vec
  give_back (reference fast)
  no_memory payload
viewed_vectored h fast items len payload (some views) none = do
  free (some views.address)
  free none
  give_back (reference fast)
  no_memory payload
viewed_vectored h fast items len payload (some views) (some v) = do
  array ← malloc_array h (iovec_array len)
  viewed_array h fast items len payload views v array

abbrev pub listed : Host → BufferPayload → Option (ℕ × List ℕ) → H Made
listed h payload none = pure (none, payload)
listed h payload (some (fast, items)) = do
  views ← malloc_array h (view_array (to_int (length items)))
  vec ← malloc h vectored_block
  viewed_vectored h fast items (to_int (length items)) payload views vec

unfoldable pub serialize_vectored_buffers : Host → (obj : ℕ) → BufferPayload → H Made
unfolding sequence_fast malloc malloc_array lend_each give_back free
serialize_vectored_buffers h obj payload = do fast ← sequence_fast h obj; listed h payload fast
