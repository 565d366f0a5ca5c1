-- ===== src/Buffers/Free/Laws.antt =====
-- `free_buffer_payload` gives back what a payload holds.
use uringio.Base.{
  ℕ, zero, suc, ℤ, pos_part, ◌≡◌, refl, ap, ◌∙◌, Bool, true, Option, none, some, List, [], ◌∷◌,
  length, arith,
}
use uringio.Enums.{PayloadOrigin, payload_user, payload_runtime, origin_no_val}
use uringio.Uring.{Iovec}
use uringio.Payload.{Views, LinearBuffer, VectoredBuffer, BufferPayload, is_freed}
use uringio.Buffers.Heap.{block, release_all}
use uringio.Buffers.Rules.{
  loans, Gives, nothing-Gives, then-Gives, give_back-Gives, free_all-Gives, release_all-Gives,
}
use uringio.Buffers.Free.{
  entries, bases, over_first, each, free_buffers, free_views, free_linear, free_vectored, freed,
  free_buffer_payload, owned, owned_buffers, owned_views, owned_linear, owned_vectored, WholeViews,
  WholeLinear, WholeVectored, Whole,
}

over_first-length : {A : Type 0} (n : ℕ) (xs : List A) → length xs ≡ n → over_first n xs ≡ some xs
over_first-length zero [] h = refl
over_first-length zero (x ∷ xs) h = absurd (omega arith)
over_first-length (suc n) [] h = absurd (omega arith)
over_first-length (suc n) (x ∷ xs) h = rw (over_first-length n xs (omega arith)) refl

length-bases : (vs : List Iovec) → length (bases vs) ≡ length vs
length-bases [] = refl
length-bases (v ∷ vs) = ap suc (length-bases vs)

buffers-Gives :
    (origin : PayloadOrigin) (n : ℕ) (ps : List (ℕ × ℕ))
    → length ps ≡ n
    → Gives (owned_buffers origin ps) (free_buffers origin n ps)
buffers-Gives payload_runtime n ps h = rw (over_first-length n ps h) (free_all-Gives ps)
buffers-Gives payload_user n ps h = nothing-Gives
buffers-Gives origin_no_val n ps h = nothing-Gives

views-Gives :
    (amount : ℤ) (v : Option Views)
    → WholeViews amount v
    → Gives (owned_views v) (free_views amount v)
views-Gives amount none h = nothing-Gives
views-Gives amount (some v) h = then-Gives released (give_back-Gives (block v.address))
  where
    released : Gives (loans v.objects) (each release_all (over_first (pos_part amount) v.objects))
    released = rw (over_first-length (pos_part amount) v.objects h) (release_all-Gives v.objects)

linear-Gives :
    (origin : PayloadOrigin) (amount : ℤ) (l : Option LinearBuffer)
    → WholeLinear amount l
    → Gives (owned_linear origin l) (free_linear origin amount l)
linear-Gives origin amount none h = nothing-Gives
linear-Gives origin amount (some l) h =
    then-Gives (buffers-Gives origin (pos_part amount) (entries l) h.0)
      (then-Gives (views-Gives amount l.views h.1) (give_back-Gives (block l.address)))

vectored-Gives :
    (origin : PayloadOrigin) (amount : ℤ) (v : Option VectoredBuffer)
    → WholeVectored amount v
    → Gives (owned_vectored origin v) (free_vectored origin amount v)
vectored-Gives origin amount none h = nothing-Gives
vectored-Gives origin amount (some v) h =
    then-Gives (buffers-Gives origin v.nr_vecs (bases v.iovecs) (length-bases v.iovecs ∙ h.0)) (
      then-Gives (views-Gives amount v.views h.1)
        (then-Gives (give_back-Gives (block v.array)) (give_back-Gives (block v.address))))

pub freed-Gives : (p : ℕ) (b : BufferPayload) → Whole b → Gives (owned p b) (freed p b)
freed-Gives p b h =
    then-Gives (linear-Gives b.payload_origin b.amount b.linear h.0) (
      then-Gives (vectored-Gives b.payload_origin b.amount b.vector h.1)
        (give_back-Gives (block p)))

-- `free_buffer_payload` of a payload whose mode is NORMAL_BUF, or with `force`, gives back just
-- what the payload's fields name, as often as they name it, a buffer that both arrays name twice;
-- and no array is read past its end, when the payload's counts are the lengths of its arrays.
pub free_buffer_payload-Gives :
    (p : ℕ) (b : BufferPayload) (force : Bool)
    → is_freed b force ≡ true
    → Whole b
    → Gives (owned p b) (free_buffer_payload p b force)
unfolding free_buffer_payload
free_buffer_payload-Gives p b force f h = rw f (freed-Gives p b h)
