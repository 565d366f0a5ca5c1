-- ===== src/Buffers/Heap.antt =====
-- Memory, references and loans of memory, as src/python_api/buffers uses them. The allocator and
-- CPython are parameters: what a call answers is any function of the steps before it.
use uringio.Base.{ℕ, ℤ, pos_part, ltb, Bool, true, false, Option, none, some, List, [], ◌∷◌}
use uringio.Payload.{BufferPayload}

-- What the program gets, and has to give back: a block of memory, by its address; the memory of an
-- object, on loan by `PyObject_GetBuffer`; a reference to an object.
pub data Resource : Type 0 where
  block loan reference : (at : ℕ) → Resource

-- What a block is for; an array has the length that the program passes.
pub data Block : Type 0 where
  payload_block vectored_block : Block
  linear_array iovec_array view_array : (len : ℤ) → Block
  bytes : (size : ℤ) → Block

pub data Step : Type 0 where
  got back : Resource → Step
  refused : Step

-- The steps are newest first. `error` is true when a Python exception is set.
pub record Heap : Type 0 where
  pub steps : List Step
  pub error : Bool

-- The contents of an object's memory: where it is, and how long.
pub record Span : Type 0 where
  pub buf : ℕ
  pub len : ℕ

-- `none` is NULL, or -1 of `PyObject_GetBuffer`. `PySequence_Fast` answers a list or a tuple, with
-- its items. `uninitialised` is what a new block for a payload holds.
pub record Host : Type 0 where
  pub malloc : Block → List Step → Option ℕ
  pub get_item : (obj i : ℕ) → List Step → Option ℕ
  pub fast : (obj : ℕ) → List Step → Option (ℕ × List ℕ)
  pub get_buffer : (obj : ℕ) → List Step → Option Span
  pub uninitialised : BufferPayload

-- A run ends with `none` when it writes or reads outside an array.
abbrev pub H : Type 0 → Type 0
H A = Heap → Option (A × Heap)

abbrev pub pure : {A : Type 0} → A → H A
pure a s = some (a, s)

abbrev pub run_next : {A B : Type 0} → Option (A × Heap) → (A → H B) → Option (B × Heap)
run_next none f = none
run_next (some (a, s)) f = f a s

infixl 5 ◌>>=◌ ◌>>◌
abbrev pub ◌>>=◌ : {A B : Type 0} → H A → (A → H B) → H B
◌>>=◌ m f s = run_next (m s) f

abbrev pub ◌>>◌ : {A B : Type 0} → H A → H B → H B
m >> k = m >>= λ _. k

abbrev pub out_of_bounds : {A : Type 0} → H A
out_of_bounds s = none

abbrev pub log : Step → Heap → Heap
log e s = record s { steps = e ∷ s.steps }

abbrev pub set_error : H (Unit {0})
set_error s = some (tt, record s { error = true })

abbrev pub got_block : Option ℕ → H (Option ℕ)
got_block none s = some (none, log refused s)
got_block (some p) s = some (some p, log (got (block p)) s)

-- `malloc` and `PyMem_Malloc`, which set no exception
unfoldable pub malloc : Host → Block → H (Option ℕ)
malloc h b s = got_block (h.malloc b s.steps) s

-- An array, with the number of entries that its block has room for.
pub record Array : Type 0 where
  pub address : ℕ
  pub room : ℕ

abbrev pub entries : Block → ℕ
entries payload_block = 1
entries vectored_block = 1
entries (linear_array len) = pos_part len
entries (iovec_array len) = pos_part len
entries (view_array len) = pos_part len
entries (bytes size) = pos_part size

abbrev pub array_at : Block → Option ℕ → Option Array
array_at b none = none
array_at b (some p) = some (record { address = p; room = entries b })

abbrev pub address_at : Option Array → Option ℕ
address_at none = none
address_at (some a) = some a.address

unfoldable pub malloc_array : Host → Block → H (Option Array)
unfolding malloc
malloc_array h b = do p ← malloc h b; pure (array_at b p)

abbrev pub in_room : Bool → H (Unit {0})
in_room true = pure tt
in_room false = out_of_bounds

-- A write into entry `i` of an array.
unfoldable pub write_entry : Array → (i : ℕ) → H (Unit {0})
write_entry a i s = in_room (ltb i a.room) s

-- `Py_DECREF`, `PyBuffer_Release`, and `free` or `PyMem_Free` of a pointer that is not NULL
unfoldable pub give_back : Resource → H (Unit {0})
give_back r s = some (tt, log (back r) s)

-- `free` and `PyMem_Free`, which ignore NULL
unfoldable pub free : Option ℕ → H (Unit {0})
unfolding give_back
free none = pure tt
free (some p) = give_back (block p)

unfoldable pub free_all : List (ℕ × ℕ) → H (Unit {0})
unfolding give_back
free_all [] = pure tt
free_all ((p, size) ∷ ps) = do give_back (block p); free_all ps

-- `PyBuffer_Release` of each view of an array
unfoldable pub release_all : List ℕ → H (Unit {0})
unfolding give_back
release_all [] = pure tt
release_all (x ∷ xs) = do give_back (loan x); release_all xs

abbrev pub got_item : Option ℕ → H (Option ℕ)
got_item none s = some (none, record { steps = refused ∷ s.steps; error = true })
got_item (some x) s = some (some x, log (got (reference x)) s)

unfoldable pub sequence_get_item : Host → ℕ → ℕ → H (Option ℕ)
sequence_get_item h obj i s = got_item (h.get_item obj i s.steps) s

abbrev pub got_fast : Option (ℕ × List ℕ) → H (Option (ℕ × List ℕ))
got_fast none s = some (none, record { steps = refused ∷ s.steps; error = true })
got_fast (some (x, items)) s = some (some (x, items), log (got (reference x)) s)

unfoldable pub sequence_fast : Host → ℕ → H (Option (ℕ × List ℕ))
sequence_fast h obj s = got_fast (h.fast obj s.steps) s

abbrev pub got_span : ℕ → Option Span → H (Option Span)
got_span x none s = some (none, record { steps = refused ∷ s.steps; error = true })
got_span x (some v) s = some (some v, log (got (loan x)) s)

unfoldable pub get_buffer : Host → ℕ → H (Option Span)
get_buffer h x s = got_span x (h.get_buffer x s.steps) s
