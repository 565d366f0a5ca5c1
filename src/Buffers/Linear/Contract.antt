-- ===== src/Buffers/Linear/Contract.antt =====
-- The contracts of `create_linear_buffers` and `serialize_linear_buffers`.
use mathlib.Core.List.{append_assoc}
use uringio.Base.{
  ℕ, suc, ◌<◌, ℤ, pos_part, ◌≡◌, refl, ap, Bool, true, Option, none, some, List, [], ◌∷◌, ◌++◌,
  length, arith,
}
use uringio.Enums.{PayloadOrigin, payload_runtime}
use uringio.Payload.{LinearBuffer, BufferPayload}
use uringio.Buffers.Heap.{
  Resource, block, linear_array, Span, Heap, Host, H, ◌>>◌, give_back, Array, malloc_array,
}
use uringio.Buffers.Rules.{
  blocks, Has, After, Left, bind-After, set_error-Left, Gives, give_back-Gives,
}
use uringio.Buffers.Arrays.{AllocatedArray, malloc_array-After}
use uringio.Buffers.Free.{owned_linear, WholeLinear}
use uringio.Buffers.Linear.{
  fill_buffers, no_memory, filled_linear, allocated_linear, create_linear_buffers, objects, spans,
}
use uringio.Buffers.Linear.Laws.{Filled, fill_buffers-Filled}

-- A call that answers NULL leaves the payload alone and an exception set, and holds no more than
-- before; otherwise the payload names the array, which has `len` entries.
abbrev pub MadeLinear :
    PayloadOrigin
    → ℤ
    → BufferPayload
    → List Resource
    → Bool
    → Option LinearBuffer × BufferPayload
    → Heap
    → Type 0
MadeLinear origin len payload rs e (none, b) t = (b ≡ payload) × Has rs true t
MadeLinear origin len payload rs e (some l, b) t =
    (b ≡ record payload { linear = some l; vector = none })
    × (WholeLinear len (some l) × Has (owned_linear origin (some l) ++ rs) e t)

-- The end of a call that fails without memory.
pub no_memory-Failed :
    {A : Type 0} (payload : BufferPayload) (qs : List Resource) (m : H (Unit {0})) (s : Heap)
    (rs : List Resource) (e : Bool) (Q : Option A × BufferPayload → Heap → Type 0)
    → Gives qs m
    → Has (qs ++ rs) e s
    → ((t : Heap) → Has rs true t → Q (none, payload) t)
    → After ((m >> no_memory payload) s) Q
no_memory-Failed payload qs m s rs e Q g o k =
    bind-After (Left rs e) Q m (λ _. no_memory payload) s (g.run s rs e o)
      (λ _ t o. k _ (set_error-Left t o))

pub length-spans : (xs : List (ℕ × Span)) → length (spans xs) ≡ length xs
length-spans [] = refl
length-spans (x ∷ xs) = ap suc (length-spans xs)

pub length-objects : (xs : List (ℕ × Span)) → length (objects xs) ≡ length xs
length-objects [] = refl
length-objects (x ∷ xs) = ap suc (length-objects xs)

module _ (h : Host) (len : ℤ) (payload : BufferPayload) (rs : List Resource) (e : Bool) where
  filled_linear-Made :
      (a : ℕ) (s : Heap) (r : Option (List (ℕ × ℕ)))
      → 0 < pos_part len
      → Filled (block a ∷ rs) e (pos_part len) r s
      → After (filled_linear payload a r s) (MadeLinear payload_runtime len payload rs e)
  filled_linear-Made a s none l o =
      no_memory-Failed payload (block a ∷ []) (give_back (block a)) s rs e
        (MadeLinear payload_runtime len payload rs e) (give_back-Gives (block a)) o
        (λ t o. (refl, o))
  filled_linear-Made a s (some []) l (c, o) = absurd (omega arith)
  filled_linear-Made a s (some ((p, n) ∷ ps)) l (c, o) =
      (refl, ((c, tt), rw (append_assoc (blocks ((p, n) ∷ ps)) (block a ∷ []) rs) o))

  -- `create_linear_buffers` for at least one buffer writes only inside the array that it allocated.
  -- When it answers NULL, an exception is set, the payload is as before and everything that it
  -- allocated is freed. Otherwise the payload names the array of `len` buffers, and they and the
  -- array are all that the call holds.
  pub create_linear_buffers-Made :
      (size : ℤ) (s : Heap)
      → 0 < pos_part len
      → Has rs e s
      → After
          (create_linear_buffers h len size payload s)
          (MadeLinear payload_runtime len payload rs e)
  unfolding create_linear_buffers
  create_linear_buffers-Made size s l o =
      bind-After (AllocatedArray rs e (pos_part len)) (MadeLinear payload_runtime len payload rs e)
        (malloc_array h (linear_array len)) _ s (malloc_array-After h (linear_array len) s o) next
    where
      next :
          (r : Option Array) (t : Heap)
          → AllocatedArray rs e (pos_part len) r t
          → After
              (allocated_linear h len size payload r t)
              (MadeLinear payload_runtime len payload rs e)
      next none t o = (refl, set_error-Left t o)
      next (some a) t (room, o) =
          bind-After (Filled (block a.address ∷ rs) e (pos_part len))
            (MadeLinear payload_runtime len payload rs e)
            (fill_buffers h a size (pos_part len) 0 []) (filled_linear payload a.address) t
            (fill_buffers-Filled h a size (pos_part len) 0 (pos_part len) [] t
              (block a.address ∷ rs) e room (omega arith) (omega arith) o)
            (λ r u o. filled_linear-Made a.address u r l o)
