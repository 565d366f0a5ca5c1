-- ===== src/Buffers/Free.antt =====
-- `free_buffer_payload` of src/python_api/buffers/buffers.c in detail, and what a payload holds.
use uringio.Base.{
  ℕ, zero, suc, ℤ, pos_part, ◌≡◌, refl, Bool, true, false, Option, none, some, List, [], ◌∷◌, ◌++◌,
  length, take, if◌then◌else◌, arith,
}
use uringio.Enums.{PayloadOrigin, payload_user, payload_runtime}
use uringio.Uring.{Iovec}
use uringio.Payload.{Views, LinearBuffer, VectoredBuffer, BufferPayload, is_freed}
use uringio.Buffers.Heap.{
  Resource, block, H, pure, ◌>>=◌, ◌>>◌, out_of_bounds, give_back, free_all, release_all,
}
use uringio.Buffers.Rules.{blocks, loans}
pub mod Laws

abbrev pub is_runtime : PayloadOrigin → Bool
is_runtime payload_runtime = true
is_runtime _ = false

abbrev pub entries : LinearBuffer → List (ℕ × ℕ)
entries l = (l.buffer, l.len) ∷ l.others

abbrev pub bases : List Iovec → List (ℕ × ℕ)
bases [] = []
bases (v ∷ vs) = (v.iov_base, v.iov_len) ∷ bases vs

-- A loop over the first `n` entries of an array, which has to have as many.
abbrev pub over_first {ℓ} : {A : Type ℓ} → ℕ → List A → Option (List A)
over_first zero xs = some []
over_first (suc n) [] = none
over_first (suc n) (x ∷ xs) = elim (over_first n xs) [ none ↦ none | some ys ↦ some (x ∷ ys) ]

abbrev pub each : {A : Type 0} → (List A → H (Unit {0})) → Option (List A) → H (Unit {0})
each f none = out_of_bounds
each f (some xs) = f xs

abbrev pub free_buffers : PayloadOrigin → ℕ → List (ℕ × ℕ) → H (Unit {0})
free_buffers origin n ps = if is_runtime origin then each free_all (over_first n ps) else pure tt

abbrev pub free_views : (amount : ℤ) → Option Views → H (Unit {0})
free_views amount none = pure tt
free_views amount (some v) = do
  each release_all (over_first (pos_part amount) v.objects)
  give_back (block v.address)

abbrev pub free_linear : PayloadOrigin → (amount : ℤ) → Option LinearBuffer → H (Unit {0})
free_linear origin amount none = pure tt
free_linear origin amount (some l) = do
  free_buffers origin (pos_part amount) (entries l)
  free_views amount l.views
  give_back (block l.address)

abbrev pub free_vectored : PayloadOrigin → (amount : ℤ) → Option VectoredBuffer → H (Unit {0})
free_vectored origin amount none = pure tt
free_vectored origin amount (some v) = do
  free_buffers origin v.nr_vecs (bases v.iovecs)
  free_views amount v.views
  give_back (block v.array)
  give_back (block v.address)

abbrev pub freed : ℕ → BufferPayload → H (Unit {0})
freed p b = do
  free_linear b.payload_origin b.amount b.linear
  free_vectored b.payload_origin b.amount b.vector
  give_back (block p)

-- `p` is the address of the payload, and not NULL.
unfoldable pub free_buffer_payload : ℕ → BufferPayload → (force : Bool) → H (Unit {0})
unfolding free_all release_all give_back
free_buffer_payload p b force = if is_freed b force then freed p b else pure tt

-- What the fields of a payload name, as often as they name it: a buffer of both arrays, which
-- `make_buffers` makes, twice.
abbrev owned_buffers : PayloadOrigin → List (ℕ × ℕ) → List Resource
owned_buffers origin ps = if is_runtime origin then blocks ps else []

abbrev owned_views : Option Views → List Resource
owned_views none = []
owned_views (some v) = loans v.objects ++ (block v.address ∷ [])

abbrev pub owned_linear : PayloadOrigin → Option LinearBuffer → List Resource
owned_linear origin none = []
owned_linear origin (some l) =
    owned_buffers origin (entries l) ++ (owned_views l.views ++ (block l.address ∷ []))

abbrev pub owned_vectored : PayloadOrigin → Option VectoredBuffer → List Resource
owned_vectored origin none = []
owned_vectored origin (some v) =
    owned_buffers origin (bases v.iovecs)
    ++ (owned_views v.views ++ (block v.array ∷ (block v.address ∷ [])))

abbrev pub owned : ℕ → BufferPayload → List Resource
owned p b =
    owned_linear b.payload_origin b.linear
    ++ (owned_vectored b.payload_origin b.vector ++ (block p ∷ []))

-- The counts of a payload are the lengths of its arrays.
abbrev pub WholeViews : (amount : ℤ) → Option Views → Type 0
WholeViews amount none = Unit
WholeViews amount (some v) = length v.objects ≡ pos_part amount

abbrev pub WholeLinear : (amount : ℤ) → Option LinearBuffer → Type 0
WholeLinear amount none = Unit
WholeLinear amount (some l) = (length (entries l) ≡ pos_part amount) × WholeViews amount l.views

abbrev pub WholeVectored : (amount : ℤ) → Option VectoredBuffer → Type 0
WholeVectored amount none = Unit
WholeVectored amount (some v) = (length v.iovecs ≡ v.nr_vecs) × WholeViews amount v.views

abbrev pub Whole : BufferPayload → Type 0
Whole b = WholeLinear b.amount b.linear × WholeVectored b.amount b.vector
