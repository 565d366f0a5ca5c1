-- ===== src/Buffers/Create/Contract.antt =====
-- What the payloads that the methods make hold, and that they can be freed.
use uringio.Base.{ℕ, pos, ◌≡◌, refl, Bool, true, Option, none, some, List, [], ◌∷◌, ◌++◌, arith}
use uringio.Enums.{normal_buf}
use uringio.Payload.{LinearBuffer, BufferPayload}
use uringio.Buffers.Heap.{
  Resource, block, loan, payload_block, linear_array, view_array, Step, Span, Heap, Host, H, pure,
  ◌>>◌, malloc, give_back, get_buffer,
}
use uringio.Buffers.Rules.{
  Has, Has-same, After, Left, bind-After, Allocated, malloc-After, set_error-Left, Gives,
  give_back-Gives, then-Gives, Lent, get_buffer-answer,
}
use uringio.Buffers.Free.{owned, Whole}
use uringio.Buffers.Create.{
  Answer, has_linear, has_vectored, null_no_memory, borrowed_data, data_views, data_array,
  data_payload, create_buffer_payload_from_data, PyBuffer,
}

-- A payload of mode NORMAL_BUF that has the array that `has` looks for, and whose counts are the
-- lengths of its arrays.
pub record IsReady (has : BufferPayload → Bool) (b : BufferPayload) : Type 0 where
  pub whole : Whole b
  pub normal : b.mode ≡ normal_buf
  pub there : has b ≡ true

-- NULL comes with an exception and leaves `qs` with the caller; a payload holds all that the call
-- got, with `qs`.
abbrev pub MadePayload :
    (has : BufferPayload → Bool) → (qs rs : List Resource) → Bool → Answer → Heap → Type 0
MadePayload has qs rs e none t = Has (qs ++ rs) true t
MadePayload has qs rs e (some (p, b)) t = IsReady has b × Has (owned p b ++ rs) e t

-- The linear buffer is the memory that the host answered for the object.
abbrev pub Reads : Host → (obj : ℕ) → BufferPayload → Type 0
Reads h obj b =
    (steps : List Step) × (span : Span) × (l : LinearBuffer) × (h.get_buffer obj steps ≡ some span)
    × (b.linear ≡ some l)
    × (l.buffer ≡ span.buf)
    × (l.len ≡ span.len)

-- As above, and the payload is as `K` says.
abbrev pub MadeWith :
    (BufferPayload → Type 0)
    → (has : BufferPayload → Bool) → (qs rs : List Resource) → Bool
    → Answer
    → Heap
    → Type 0
MadeWith K has qs rs e none t = Has (qs ++ rs) true t
MadeWith K has qs rs e (some (p, b)) t = IsReady has b × Has (owned p b ++ rs) e t × K b

null_no_memory-Failed :
    (K : BufferPayload → Type 0) (has : BufferPayload → Bool) (held qs : List Resource)
    (m : H (Unit {0})) (s : Heap) (rs : List Resource) (e : Bool)
    → Gives held m
    → Has (held ++ (qs ++ rs)) e s
    → After ((m >> null_no_memory) s) (MadeWith K has qs rs e)
null_no_memory-Failed K has held qs m s rs e g o =
    bind-After (Left (qs ++ rs) e) (MadeWith K has qs rs e) m (λ _. null_no_memory) s
      (g.run s (qs ++ rs) e o) (λ _ t o. set_error-Left t o)

module _ (h : Host) (rs : List Resource) (e : Bool) where
  -- `create_buffer_payload_from_data` gives back every block when it answers NULL, and sets an
  -- exception. Otherwise the payload holds the loan of the object's memory, and three blocks, and
  -- its linear buffer is that memory.
  pub create_buffer_payload_from_data-Made :
      (obj : ℕ) (s : Heap)
      → Has rs e s
      → After (create_buffer_payload_from_data h obj s) (MadeWith (Reads h obj) has_linear [] rs e)
  unfolding create_buffer_payload_from_data give_back
  create_buffer_payload_from_data-Made obj s o =
      bind-After (Allocated rs e) Q (malloc h payload_block) (data_payload h obj) s
        (malloc-After h payload_block s o) start
    where
      Q : Answer → Heap → Type 0
      Q = MadeWith (Reads h obj) has_linear [] rs e

      borrowed :
          (p a v : ℕ) (steps : List Step) (r : Option Span) (t : Heap)
          → h.get_buffer obj steps ≡ r
          → Lent obj (block v ∷ (block a ∷ (block p ∷ rs))) e r t
          → After (borrowed_data p a v obj r t) Q
      borrowed p a v steps none t q o =
          bind-After (Left rs true) Q
            (give_back (block v) >> (give_back (block a) >> give_back (block p))) (λ _. pure none) t
            ((then-Gives (give_back-Gives (block v))
                (then-Gives (give_back-Gives (block a)) (give_back-Gives (block p)))).run
              t rs true o)
            (λ _ u o. o)
      borrowed p a v steps (some span) t q o = (
        record { whole = ((refl, refl), tt); normal = refl; there = refl },
        Has-same _ (λ w. omega arith) o,
        (steps, span, _, q, refl, refl, refl),
      )

      views :
          (p a : ℕ) (r : Option ℕ) (t : Heap)
          → Allocated (block a ∷ (block p ∷ rs)) e r t
          → After (data_views h p a obj r t) Q
      views p a none t o =
          null_no_memory-Failed (Reads h obj) has_linear (block a ∷ (block p ∷ [])) []
            (give_back (block a) >> give_back (block p)) t rs e
            (then-Gives (give_back-Gives (block a)) (give_back-Gives (block p))) o
      views p a (some v) t o =
          bind-After
            (λ r u.
              (h.get_buffer obj t.steps ≡ r)
              × Lent obj (block v ∷ (block a ∷ (block p ∷ rs))) e r u)
            Q (get_buffer h obj) (borrowed_data p a v obj) t (get_buffer-answer h obj t o)
            (λ r u (q, k). borrowed p a v t.steps r u q k)

      array :
          (p : ℕ) (r : Option ℕ) (t : Heap)
          → Allocated (block p ∷ rs) e r t
          → After (data_array h p obj r t) Q
      array p none t o =
          null_no_memory-Failed (Reads h obj) has_linear (block p ∷ []) [] (give_back (block p)) t
            rs e (give_back-Gives (block p)) o
      array p (some a) t o =
          bind-After (Allocated (block a ∷ (block p ∷ rs)) e) Q (malloc h (view_array (pos 1)))
            (data_views h p a obj) t (malloc-After h (view_array (pos 1)) t o) (views p a)

      start : (r : Option ℕ) (t : Heap) → Allocated rs e r t → After (data_payload h obj r t) Q
      start none t o = set_error-Left t o
      start (some p) t o =
          bind-After (Allocated (block p ∷ rs) e) Q (malloc h (linear_array (pos 1)))
            (data_array h p obj) t (malloc-After h (linear_array (pos 1)) t o) (array p)

module _ (h : Host) (buf : PyBuffer) (rs : List Resource) (e : Bool) where
  abbrev Raw : Answer → Heap → Type 0
  Raw = MadePayload has_vectored (loan buf.object ∷ []) rs e
