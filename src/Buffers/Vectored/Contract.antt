-- ===== src/Buffers/Vectored/Contract.antt =====
-- The contract of `create_vectored_buffers`.
use mathlib.Core.List.{append_assoc}
use uringio.Base.{
  ℕ, suc, ℤ, pos_part, to_u32, ◌≡◌, refl, sym, ap, ◌∙◌, Bool, true, Option, none, some, List, [],
  ◌∷◌, ◌++◌, length, arith,
}
use uringio.Enums.{PayloadOrigin, payload_runtime}
use uringio.Payload.{VectoredBuffer, BufferPayload}
use uringio.Buffers.Heap.{
  Resource, block, vectored_block, iovec_array, Heap, Host, ◌>>◌, malloc, give_back, Array,
  malloc_array,
}
use uringio.Buffers.Rules.{
  blocks, Has, After, bind-After, Allocated, malloc-After, set_error-Left, give_back-Gives,
  then-Gives,
}
use uringio.Buffers.Arrays.{AllocatedArray, malloc_array-After}
use uringio.Buffers.Free.{bases, owned_vectored, WholeVectored}
use uringio.Buffers.Linear.{fill_buffers}
use uringio.Buffers.Linear.Laws.{Filled, fill_buffers-Filled}
use uringio.Buffers.Linear.Contract.{no_memory-Failed}
use uringio.Buffers.Vectored.{
  iovecs_of, filled_vectored, allocated_array, allocated_vectored, create_vectored_buffers,
}

bases-iovecs_of : (ps : List (ℕ × ℕ)) → bases (iovecs_of ps) ≡ ps
bases-iovecs_of [] = refl
bases-iovecs_of ((p, n) ∷ ps) = ap (λ qs. (p, n) ∷ qs) (bases-iovecs_of ps)

pub length-iovecs_of : (ps : List (ℕ × ℕ)) → length (iovecs_of ps) ≡ length ps
length-iovecs_of [] = refl
length-iovecs_of (p ∷ ps) = ap suc (length-iovecs_of ps)

-- A call that answers NULL leaves the payload alone and an exception set, and holds no more than
-- before; otherwise the payload names the vectors, of which there are `len`.
abbrev pub MadeVectored :
    PayloadOrigin
    → ℤ
    → BufferPayload
    → List Resource
    → Bool
    → Option VectoredBuffer × BufferPayload
    → Heap
    → Type 0
MadeVectored origin len payload rs e (none, b) t = (b ≡ payload) × Has rs true t
MadeVectored origin len payload rs e (some v, b) t =
    ((v.nr_vecs ≡ to_u32 len) × (b ≡ record payload { vector = some v; linear = none }))
    × (WholeVectored len (some v) × Has (owned_vectored origin (some v) ++ rs) e t)

module _ (h : Host) (len : ℤ) (payload : BufferPayload) (rs : List Resource) (e : Bool) where
  abbrev Created : Option VectoredBuffer × BufferPayload → Heap → Type 0
  Created = MadeVectored payload_runtime len payload rs e

  filled_vectored-Made :
      (v a : ℕ) (s : Heap) (r : Option (List (ℕ × ℕ)))
      → to_u32 len ≡ pos_part len
      → Filled (block a ∷ (block v ∷ rs)) e (pos_part len) r s
      → After (filled_vectored len payload v a r s) Created
  unfolding give_back
  filled_vectored-Made v a s none l o =
      no_memory-Failed payload (block a ∷ (block v ∷ []))
        (give_back (block a) >> give_back (block v)) s rs e Created
        (then-Gives (give_back-Gives (block a)) (give_back-Gives (block v))) o (λ t o. (refl, o))
  filled_vectored-Made v a s (some ps) l (c, o) =
      ((refl, refl), ((length-iovecs_of ps ∙ (c ∙ sym l), tt), rw (bases-iovecs_of ps) held))
    where
      held : Has ((blocks ps ++ (block a ∷ (block v ∷ []))) ++ rs) e s
      held = rw (append_assoc (blocks ps) (block a ∷ (block v ∷ [])) rs) o

  -- `create_vectored_buffers` for `len` buffers, `len` not negative. When it answers NULL, an
  -- exception is set, the payload is as before and everything that it allocated is freed. Otherwise
  -- the payload names `len` vectors, and they, their array and the `VectoredBuffer` are all that
  -- the call holds.
  pub create_vectored_buffers-Made :
      (size : ℤ) (s : Heap)
      → to_u32 len ≡ pos_part len
      → Has rs e s
      → After (create_vectored_buffers h len size payload s) Created
  unfolding create_vectored_buffers
  create_vectored_buffers-Made size s l o =
      bind-After (Allocated rs e) Created (malloc h vectored_block) _ s
        (malloc-After h vectored_block s o) next
    where
      array :
          (v : ℕ) (r : Option Array) (t : Heap)
          → AllocatedArray (block v ∷ rs) e (pos_part len) r t
          → After (allocated_array h len size payload v r t) Created
      array v none t o =
          no_memory-Failed payload (block v ∷ []) (give_back (block v)) t rs e Created
            (give_back-Gives (block v)) o (λ t o. (refl, o))
      array v (some a) t (room, o) =
          bind-After (Filled (block a.address ∷ (block v ∷ rs)) e (pos_part len)) Created
            (fill_buffers h a size (pos_part len) 0 []) (filled_vectored len payload v a.address) t
            (fill_buffers-Filled h a size (pos_part len) 0 (pos_part len) [] t
              (block a.address ∷ (block v ∷ rs)) e room (omega arith) (omega arith) o)
            (λ r u o. filled_vectored-Made v a.address u r l o)

      next :
          (r : Option ℕ) (t : Heap)
          → Allocated rs e r t
          → After (allocated_vectored h len size payload r t) Created
      next none t o = (refl, set_error-Left t o)
      next (some v) t o =
          bind-After (AllocatedArray (block v ∷ rs) e (pos_part len)) Created
            (malloc_array h (iovec_array len)) _ t (malloc_array-After h (iovec_array len) t o)
            (array v)
