-- ===== src/Buffers/Linear.antt =====
-- `create_linear_buffers` and `serialize_linear_buffers` of src/python_api/buffers/buffers.c. An
-- answer is the array, `none` for NULL, and the payload as the call leaves it. The entries that a
-- loop has written are a list; `write_entry` is its write into the block.
use uringio.Base.{ℕ, zero, suc, ℤ, pos_part, to_u64, Option, none, some, List, [], ◌∷◌, ◌++◌}
use uringio.Payload.{Views, LinearBuffer, BufferPayload}
use uringio.Buffers.Heap.{
  block, loan, reference, linear_array, view_array, bytes, Span, Host, H, pure, ◌>>=◌, ◌>>◌,
  out_of_bounds, set_error, malloc, give_back, free, free_all, release_all, sequence_get_item,
  get_buffer, Array, address_at, malloc_array, write_entry,
}
pub mod Laws
pub mod Contract

abbrev Made : Type 0
Made = Option LinearBuffer × BufferPayload

-- The rest of a loop, when a step of it has an answer. With NULL the loop undoes the steps so far.
abbrev pub or_undo : {A B : Type 0} → H (Unit {0}) → (A → H (Option B)) → Option A → H (Option B)
or_undo undo rest none = do undo; pure none
or_undo undo rest (some a) = rest a

-- The loop that allocates `n` more buffers of `bufsize` bytes, from entry `i` of the array on.
-- Without memory it frees those that it has, and the caller frees the array.
unfoldable pub fill_buffers :
    Host
    → (buffers : Array) → (bufsize : ℤ) → ℕ
    → (i : ℕ) → (done : List (ℕ × ℕ)) → H (Option (List (ℕ × ℕ)))
unfolding malloc free_all write_entry
fill_buffers h buffers bufsize zero i done = pure (some done)
fill_buffers h buffers bufsize (suc n) i done = do
  buffer ← malloc h (bytes bufsize)
  or_undo (free_all done)
      (λ p.
        write_entry buffers i
        >> fill_buffers h buffers bufsize n (suc i) (done ++ ((p, to_u64 bufsize) ∷ [])))
      buffer

-- `PyErr_NoMemory(); return NULL;`
abbrev pub no_memory : {A : Type 0} → BufferPayload → H (Option A × BufferPayload)
no_memory payload = do set_error; pure (none, payload)

-- The writes into the payload and into `buffers->views`, which is outside an array of length 0.
abbrev pub linear_made : ℕ → Option Views → BufferPayload → List (ℕ × ℕ) → H Made
linear_made a views payload [] = out_of_bounds
linear_made a views payload ((p, n) ∷ others) =
    let l : LinearBuffer = record {
      buffer = p;
      len = n;
      others = others;
      views = views;
      address = a;
    } in
    pure (some l, record payload { linear = some l; vector = none })

abbrev pub filled_linear : BufferPayload → ℕ → Option (List (ℕ × ℕ)) → H Made
filled_linear payload a none = do give_back (block a); no_memory payload
filled_linear payload a (some entries) = linear_made a none payload entries

abbrev pub allocated_linear : Host → (len bufsize : ℤ) → BufferPayload → Option Array → H Made
allocated_linear h len bufsize payload none = no_memory payload
allocated_linear h len bufsize payload (some a) = do
  entries ← fill_buffers h a bufsize (pos_part len) 0 []
  filled_linear payload a.address entries

unfoldable pub create_linear_buffers : Host → (len bufsize : ℤ) → BufferPayload → H Made
unfolding malloc_array fill_buffers give_back
create_linear_buffers h len bufsize payload = do
  buffers ← malloc_array h (linear_array len)
  allocated_linear h len bufsize payload buffers

-- The views of the items so far: the object, and its memory.
abbrev pub objects : List (ℕ × Span) → List ℕ
objects [] = []
objects ((x, v) ∷ xs) = x ∷ objects xs

abbrev pub spans : List (ℕ × Span) → List (ℕ × ℕ)
spans [] = []
spans ((x, v) ∷ xs) = (v.buf, v.len) ∷ spans xs

-- The loop that borrows the memory of items `i` to `i + n`.
unfoldable pub lend_items :
    Host
    → ℕ
    → (views buffers : Array) → ℕ
    → (i : ℕ) → List (ℕ × Span)
    → H (Option (List (ℕ × Span)))
unfolding sequence_get_item get_buffer give_back release_all write_entry
lend_items h obj views buffers zero i done = pure (some done)
lend_items h obj views buffers (suc n) i done = do
  item ← sequence_get_item h obj i
  or_undo (release_all (objects done))
      (λ x.
        write_entry views i
        >> (get_buffer h x
            >>= or_undo (give_back (reference x) >> release_all (objects done)) (λ v.
              write_entry buffers i
              >> (give_back (reference x)
                  >> lend_items h obj views buffers n (suc i) (done ++ ((x, v) ∷ []))))))
      item

abbrev pub lent_linear : BufferPayload → (v a : ℕ) → Option (List (ℕ × Span)) → H Made
lent_linear payload v a none = do give_back (block v); give_back (block a); pure (none, payload)
lent_linear payload v a (some items) =
    linear_made a (some (record { address = v; objects = objects items })) payload (spans items)

abbrev pub viewed_linear : Host → ℕ → ℤ → BufferPayload → Option Array → Option Array → H Made
viewed_linear h obj len payload none buffers = do
  free none
  free (address_at buffers)
  no_memory payload
viewed_linear h obj len payload (some v) none = do
  free (some v.address)
  free none
  no_memory payload
viewed_linear h obj len payload (some v) (some a) = do
  items ← lend_items h obj v a (pos_part len) 0 []
  lent_linear payload v.address a.address items

unfoldable pub serialize_linear_buffers : Host → (obj : ℕ) → (len : ℤ) → BufferPayload → H Made
unfolding malloc_array lend_items give_back free
serialize_linear_buffers h obj len payload = do
  views ← malloc_array h (view_array len)
  buffers ← malloc_array h (linear_array len)
  viewed_linear h obj len payload views buffers
