-- ===== src/BufferControllers/Index/Laws.antt =====
-- The free list of registered buffers is a bounded stack.
use uringio.Base.{
  ℕ, zero, suc, ◌≤◌, ◌<◌, ◌^◌, ◌≡◌, refl, ℤ, pos, negsuc, neg_part, List, [], ◌∷◌, length,
  length-set, count, stack, stack-set, length-stack, length-indices, arith, if◌then◌else◌, ltb,
}
use uringio.BufferControllers.Index.{
  FixedBufferIdxRegistry, fresh, get_buffer_idx, release_buffer_idx,
}

pub record IsValid (reg : FixedBufferIdxRegistry) : Type 0 where
  pub small : reg.size < 2 ^ 31
  pub array : length reg.available_indices ≡ reg.size
  pub low : neg_part reg.top ≤ 1
  pub room : count reg.top ≤ reg.size

-- The indices that can be handed out, the next one first.
abbrev pub free : FixedBufferIdxRegistry → List ℤ
free reg = stack reg.available_indices (count reg.top)

pub fresh-IsValid : (size : ℕ) → 0 < size → size < 2 ^ 31 → IsValid (fresh size)
unfolding fresh
fresh-IsValid size h k = ground (arith, length-indices 0 size)

pub get-IsValid : (reg : FixedBufferIdxRegistry) → IsValid reg → IsValid (get_buffer_idx reg).1
unfolding get_buffer_idx
get-IsValid reg v = ground arith

pub release-IsValid :
    (reg : FixedBufferIdxRegistry) (index : ℤ)
    → IsValid reg
    → IsValid (release_buffer_idx reg index).1
unfolding release_buffer_idx
release-IsValid reg index v = ground (arith, length-set reg.available_indices (count reg.top) index)

-- The abstract view: a stack of at most `size` indices.
abbrev pub pop : List ℤ → ℤ × List ℤ
pop [] = (negsuc 0, [])
pop (i ∷ is) = (i, is)

abbrev pub push : ℕ → List ℤ → ℤ → ℤ × List ℤ
push size is i = if ltb (length is) size then (pos 0, i ∷ is) else (negsuc 0, is)

get_refines-top :
    (xs : List ℤ) (top : ℤ) (size : ℕ)
    → let (i, reg) = get_buffer_idx (record { available_indices = xs; top = top; size = size }) in
      (i, free reg) ≡ pop (stack xs (count top))
unfolding get_buffer_idx
get_refines-top xs (negsuc n) size = refl
get_refines-top xs (pos zero) size = refl
get_refines-top xs (pos (suc n)) size = ground arith

-- `get_buffer_idx`, on any registry, takes the top of the stack of free indices, and answers -1 on
-- the empty stack, which it leaves alone.
pub get_refines :
    (reg : FixedBufferIdxRegistry)
    → let (i, reg') = get_buffer_idx reg in (i, free reg') ≡ pop (free reg)
get_refines reg = get_refines-top reg.available_indices reg.top reg.size

-- In a valid registry `release_buffer_idx` pushes any index on the stack of free indices, and
-- answers -1 on a stack of `size` indices, which it leaves alone.
pub release_refines :
    (reg : FixedBufferIdxRegistry) (index : ℤ)
    → IsValid reg
    → let (r, reg') = release_buffer_idx reg index in
      (r, free reg') ≡ push reg.size (free reg) index
unfolding release_buffer_idx
release_refines reg index v = ground (
  arith,
  stack-set reg.available_indices (count reg.top) index,
  length-stack reg.available_indices (count reg.top),
)

pub size-get : (reg : FixedBufferIdxRegistry) → (get_buffer_idx reg).1.size ≡ reg.size
unfolding get_buffer_idx
size-get reg = ground arith

pub size-release :
    (reg : FixedBufferIdxRegistry) (index : ℤ) → (release_buffer_idx reg index).1.size ≡ reg.size
unfolding release_buffer_idx
size-release reg index = ground arith

length-free_le : (reg : FixedBufferIdxRegistry) → IsValid reg → length (free reg) ≤ reg.size
length-free_le reg v = omega (arith, length-stack reg.available_indices (count reg.top))

-- In a valid registry with a free index, taking an index and releasing it at once restores the
-- stack of free indices.
release-get :
    (reg : FixedBufferIdxRegistry) (i : ℤ) (is : List ℤ)
    → IsValid reg
    → free reg ≡ i ∷ is
    → let (j, lent) = get_buffer_idx reg in free (release_buffer_idx lent j).1 ≡ free reg
release-get reg i is v e = ground (
  arith,
  get_refines reg,
  size-get reg,
  length-free_le reg v,
  release_refines (get_buffer_idx reg).1 (get_buffer_idx reg).0 (get-IsValid reg v),
)

-- In a valid registry of a size above 0 that has no free index, releasing what `get_buffer_idx`
-- answered leaves -1 as the one free index.
release-get_empty :
    (reg : FixedBufferIdxRegistry)
    → IsValid reg
    → 0 < reg.size
    → free reg ≡ []
    → let (j, lent) = get_buffer_idx reg in free (release_buffer_idx lent j).1 ≡ negsuc 0 ∷ []
release-get_empty reg v h e = ground (
  arith,
  get_refines reg,
  size-get reg,
  length-free_le reg v,
  release_refines (get_buffer_idx reg).1 (get_buffer_idx reg).0 (get-IsValid reg v),
)
