-- ===== src/Buffers/Vectored/Serialize.antt =====
-- The contract of `serialize_vectored_buffers`.
use uringio.Base.{
  ℕ, zero, suc, ◌+◌, ◌≤◌, ◌<◌, ◌^◌, pos, to_u32, to_int-of_lt, ◌≡◌, refl, ap, ◌∙◌, Bool, true,
  Option, none, some, List, [], ◌∷◌, ◌++◌, length, take, arith,
}
use uringio.Enums.{payload_user}
use uringio.Payload.{VectoredBuffer, BufferPayload}
use uringio.Buffers.Heap.{
  Resource, block, reference, vectored_block, iovec_array, view_array, Span, Heap, Host, pure,
  ◌>>=◌, ◌>>◌, malloc, give_back, free, sequence_fast, get_buffer, Array, address_at, malloc_array,
}
use uringio.Buffers.Rules.{
  blocks_at, loans, Has, Has-same, After, Left, bind-After, Allocated, malloc-After, give_back-Left,
  free-Gives, give_back-Gives, then-Gives, release_all-Gives, weight, weight-append, IsShort,
  Listed, sequence_fast-After, Lent, get_buffer-After,
}
use uringio.Buffers.Arrays.{
  AllocatedArray, malloc_array-After, Roomy, array-Has, array-Roomy, write_entry-After,
}
use uringio.Buffers.Free.{owned_vectored, WholeVectored}
use uringio.Buffers.Linear.{no_memory, objects, spans}
use uringio.Buffers.Linear.Laws.{LentAll, or_undo-After, length-snoc, weight-loans-snoc}
use uringio.Buffers.Linear.Contract.{no_memory-Failed, length-spans, length-objects}
use uringio.Buffers.Vectored.{
  iovecs_of, vectored_made, lend_each, lent_vectored, viewed_array, viewed_vectored, listed,
  serialize_vectored_buffers,
}
use uringio.Buffers.Vectored.Contract.{length-iovecs_of}

-- The loop over the items of a list has the memory of each on loan, or of none.
pub lend_each-LentAll :
    (h : Host) (views iovecs : Array) (xs : List ℕ) (i m : ℕ) (done : List (ℕ × Span)) (s : Heap)
    (rs : List Resource) (e : Bool)
    → views.room ≡ m
    → iovecs.room ≡ m
    → length xs + i ≡ m
    → length xs + length done ≡ m
    → Has (loans (objects done) ++ rs) e s
    → After (lend_each h views iovecs xs i done s) (LentAll rs e m)
unfolding lend_each
lend_each-LentAll h views iovecs [] i m done s rs e rv ri k l o = (omega arith, o)
lend_each-LentAll h views iovecs (x ∷ xs) i m done s rs e rv ri k l o =
    write_entry-After (LentAll rs e m) views i _ s (omega arith) (
      or_undo-After (Lent x (loans (objects done) ++ rs) e) (LentAll rs e m) (loans (objects done))
        rs true (get_buffer h x) _ _ s (get_buffer-After h x s o) (λ t o. o)
        (release_all-Gives (objects done)) (λ t o. o)
        (λ v t o. write_entry-After (LentAll rs e m) iovecs i _ t (omega arith) (
          lend_each-LentAll h views iovecs xs (suc i) m (done ++ ((x, v) ∷ [])) t rs e rv ri
            (omega arith) (omega (arith, length-snoc done (x, v)))
            (Has-same _ (λ w. weight-loans-snoc w done x v rs) o))))

length-take_of_le : {A : Type 0} (n : ℕ) (xs : List A) → n ≤ length xs → length (take n xs) ≡ n
length-take_of_le zero xs l = refl
length-take_of_le (suc n) [] l = absurd (omega arith)
length-take_of_le (suc n) (x ∷ xs) l = ap suc (length-take_of_le n xs (omega arith))

-- The number of vectors is that of the objects, and fits an `int`.
abbrev pub Serialized :
    BufferPayload → List Resource → Bool → Option VectoredBuffer × BufferPayload → Heap → Type 0
Serialized payload rs e (none, b) t = (b ≡ payload) × Has rs true t
Serialized payload rs e (some v, b) t =
    ((v.nr_vecs < 2 ^ 31) × (b ≡ record payload { vector = some v; linear = none }))
    × (WholeVectored (pos v.nr_vecs) (some v)
        × Has (owned_vectored payload_user (some v) ++ rs) e t)

module _ (h : Host) (payload : BufferPayload) (rs : List Resource) (e : Bool) where
  lent-Serialized :
      (fast n views v a : ℕ) (s : Heap) (r : Option (List (ℕ × Span)))
      → n < 2 ^ 31
      → LentAll (block views ∷ (block a ∷ (block v ∷ (reference fast ∷ rs)))) e n r s
      → After (lent_vectored fast (pos n) payload views v a r s) (Serialized payload rs e)
  unfolding give_back
  lent-Serialized fast n views v a s none l o =
      bind-After (Left rs true) (Serialized payload rs e)
        (give_back (block views)
          >> (give_back (block a) >> (give_back (block v) >> give_back (reference fast))))
        (λ _. pure (none, payload)) s
        ((then-Gives (give_back-Gives (block views)) (
            then-Gives (give_back-Gives (block a))
              (then-Gives (give_back-Gives (block v)) (give_back-Gives (reference fast))))).run
          s rs true o)
        (λ _ t o. (refl, o))
  lent-Serialized fast n views v a s (some xs) l (c, o) =
      bind-After (Left (held ++ rs) e) (Serialized payload rs e) (give_back (reference fast))
        (λ _.
          vectored_made (pos n) v a (some (record { address = views; objects = objects xs }))
            payload (spans xs))
        s (give_back-Left (reference fast) s (Has-same _ moved o))
        (λ _ t o. ((rw (← small) l, refl), ((count, rw (← small) (length-objects xs ∙ c)), o)))
    where
      lent : List Resource
      lent = loans (objects xs) ++ (block views ∷ [])

      held : List Resource
      held = lent ++ (block a ∷ (block v ∷ []))

      moved :
          (w : Resource → ℕ)
          → weight w
              (loans (objects xs) ++ (block views ∷ (block a ∷ (block v ∷ (reference fast ∷ rs)))))
            ≡ weight w (reference fast ∷ (held ++ rs))
      moved w = omega (
        arith,
        weight-append w (loans (objects xs))
            (block views ∷ (block a ∷ (block v ∷ (reference fast ∷ rs)))),
        weight-append w held rs,
        weight-append w lent (block a ∷ (block v ∷ [])),
        weight-append w (loans (objects xs)) (block views ∷ []),
      )

      small : n ≡ to_u32 (pos n)
      small = omega arith

      count : length (iovecs_of (spans xs)) ≡ to_u32 (pos n)
      count = length-iovecs_of (spans xs) ∙ (length-spans xs ∙ (c ∙ small))

  -- `serialize_vectored_buffers`, for a host whose lists have fewer than 2^31 items. When it
  -- answers NULL, an exception is set, the payload is as before and every block, loan and reference
  -- that it got is given back. Otherwise the payload names one vector for each object, and holds
  -- their loans and its three arrays, and no reference.
  pub serialize_vectored_buffers-Serialized :
      (obj : ℕ) (s : Heap)
      → IsShort h
      → Has rs e s
      → After (serialize_vectored_buffers h obj payload s) (Serialized payload rs e)
  unfolding serialize_vectored_buffers give_back
  serialize_vectored_buffers-Serialized obj s short o =
      bind-After (Listed rs e) Q (sequence_fast h obj) (listed h payload) s
        (sequence_fast-After h obj s short o) start
    where
      Q : Option VectoredBuffer × BufferPayload → Heap → Type 0
      Q = Serialized payload rs e

      array :
          (fast : ℕ) (items : List ℕ) (views : Array) (v : ℕ) (r : Option Array) (t : Heap)
          → length items < 2 ^ 31
          → views.room ≡ length items
          → AllocatedArray
              (block v ∷ (block views.address ∷ (reference fast ∷ rs)))
              e
              (length items)
              r
              t
          → After (viewed_array h fast items (pos (length items)) payload views v r t) Q
      array fast items views v none t l rv o =
          no_memory-Failed payload (block views.address ∷ (block v ∷ (reference fast ∷ [])))
            (give_back (block views.address) >> (give_back (block v) >> give_back (reference fast)))
            t rs e Q
            (then-Gives (give_back-Gives (block views.address))
              (then-Gives (give_back-Gives (block v)) (give_back-Gives (reference fast))))
            (Has-same _ (λ w. omega arith) o) (λ u o. (refl, o))
      array fast items views v (some a) t l rv (ra, o) =
          bind-After
            (LentAll (block views.address ∷ (block a.address ∷ (block v ∷ (reference fast ∷ rs)))) e
              (length items))
            Q (lend_each h views a (take (length items) items) 0 [])
            (lent_vectored fast (pos (length items)) payload views.address v a.address) t
            (lend_each-LentAll h views a (take (length items) items) 0 (length items) [] t _ e rv ra
              (omega (arith, length-take_of_le (length items) items (omega arith)))
              (omega (arith, length-take_of_le (length items) items (omega arith)))
              (Has-same _ (λ w. omega arith) o))
            (λ r u o. lent-Serialized fast (length items) views.address v a.address u r l o)

      undone :
          (fast : ℕ) (t : Heap)
          → Has (reference fast ∷ rs) e t
          → After ((give_back (reference fast) >> no_memory payload) t) Q
      undone fast t o =
          no_memory-Failed payload (reference fast ∷ []) (give_back (reference fast)) t rs e Q
            (give_back-Gives (reference fast)) o (λ u o. (refl, o))

      vectored :
          (fast : ℕ) (items : List ℕ) (views : Option Array) (v : Option ℕ) (t : Heap)
          → length items < 2 ^ 31
          → Roomy (length items) views
          → Has (blocks_at v ++ (blocks_at (address_at views) ++ (reference fast ∷ rs))) e t
          → After (viewed_vectored h fast items (pos (length items)) payload views v t) Q
      vectored fast items none v t l rv o =
          bind-After (Left (reference fast ∷ rs) e) Q (free none >> free v)
            (λ _. give_back (reference fast) >> no_memory payload) t
            ((then-Gives (free-Gives none) (free-Gives v)).run t (reference fast ∷ rs) e o)
            (λ _ u o. undone fast u o)
      vectored fast items (some views) none t l rv o =
          bind-After (Left (reference fast ∷ rs) e) Q (free (some views.address) >> free none)
            (λ _. give_back (reference fast) >> no_memory payload) t
            ((then-Gives (free-Gives (some views.address)) (free-Gives none)).run t
              (reference fast ∷ rs) e o)
            (λ _ u o. undone fast u o)
      vectored fast items (some views) (some v) t l rv o =
          bind-After
            (AllocatedArray (block v ∷ (block views.address ∷ (reference fast ∷ rs))) e
              (length items))
            Q (malloc_array h (iovec_array (pos (length items))))
            (viewed_array h fast items (pos (length items)) payload views v) t
            (malloc_array-After h (iovec_array (pos (length items))) t o)
            (λ r u o. array fast items views v r u l rv o)

      start :
          (r : Option (ℕ × List ℕ)) (t : Heap) → Listed rs e r t → After (listed h payload r t) Q
      start none t o = (refl, o)
      start (some (fast, items)) t (l, o) = rw (to_int-of_lt (length items) l) (
          bind-After (AllocatedArray (reference fast ∷ rs) e (length items)) Q
            (malloc_array h (view_array (pos (length items))))
            (λ views.
              malloc h vectored_block
              >>= viewed_vectored h fast items (pos (length items)) payload views)
            t (malloc_array-After h (view_array (pos (length items))) t o)
            (λ views u o.
              bind-After (Allocated (blocks_at (address_at views) ++ (reference fast ∷ rs)) e) Q
                (malloc h vectored_block)
                (viewed_vectored h fast items (pos (length items)) payload views) u
                (malloc-After h vectored_block u
                  (array-Has (reference fast ∷ rs) e (length items) views u o))
                (λ v u' o'.
                  vectored fast items views v u' l
                    (array-Roomy (reference fast ∷ rs) e (length items) views u o) o')))
