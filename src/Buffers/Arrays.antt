-- ===== src/Buffers/Arrays.antt =====
-- Allocating arrays, and writing into them.
use uringio.Base.{ℕ, ◌<◌, ltb, ◌≡◌, refl, Bool, true, Option, none, some, List, ◌∷◌, ◌++◌, arith}
use uringio.Buffers.Heap.{
  Resource, block, Block, Heap, Host, H, malloc, ◌>>◌, pure, Array, entries, array_at, address_at,
  malloc_array, write_entry,
}
use uringio.Buffers.Rules.{blocks_at, Has, After, bind-After, Allocated, malloc-After}

-- Of an array that there is, the room is known.
abbrev pub AllocatedArray : List Resource → Bool → ℕ → Option Array → Heap → Type 0
AllocatedArray rs e n none t = Has rs e t
AllocatedArray rs e n (some a) t = (a.room ≡ n) × Has (block a.address ∷ rs) e t

pub malloc_array-After :
    (h : Host) (b : Block) (s : Heap) {rs : List Resource} {e : Bool}
    → Has rs e s
    → After (malloc_array h b s) (AllocatedArray rs e (entries b))
unfolding malloc_array
malloc_array-After h b s {rs = rs} {e = e} o =
    bind-After (Allocated rs e) (AllocatedArray rs e (entries b)) (malloc h b)
      (λ p. pure (array_at b p)) s (malloc-After h b s o) known
  where
    known :
        (p : Option ℕ) (t : Heap)
        → Allocated rs e p t
        → After (pure (array_at b p) t) (AllocatedArray rs e (entries b))
    known none t o = o
    known (some p) t o = (refl, o)

abbrev pub Roomy : ℕ → Option Array → Type 0
Roomy n none = Unit
Roomy n (some a) = a.room ≡ n

pub array-Roomy :
    (rs : List Resource) (e : Bool) (n : ℕ) (a : Option Array) (t : Heap)
    → AllocatedArray rs e n a t
    → Roomy n a
array-Roomy rs e n none t o = tt
array-Roomy rs e n (some a) t (l, o) = l

pub array-Has :
    (rs : List Resource) (e : Bool) (n : ℕ) (a : Option Array) (t : Heap)
    → AllocatedArray rs e n a t
    → Has (blocks_at (address_at a) ++ rs) e t
array-Has rs e n none t o = o
array-Has rs e n (some a) t (l, o) = o

-- A write inside the array does not end the run.
pub write_entry-After :
    {A : Type 0} (Q : A → Heap → Type 0) (a : Array) (i : ℕ) (m : H A) (s : Heap)
    → i < a.room
    → After (m s) Q
    → After ((write_entry a i >> m) s) Q
unfolding write_entry
write_entry-After Q a i m s l h = (let e : ltb i a.room ≡ true = ground arith in rw e h)
