-- ===== src/Buffers/Linear/Laws.antt =====
-- The arrays of buffers: what they hold on success, and that a failure gives everything back.
use uringio.Base.{
  ℕ, zero, suc, ◌+◌, ℤ, ◌≡◌, refl, ap, Bool, true, Option, none, some, List, [], ◌∷◌, ◌++◌, length,
  to_u64, arith,
}
use uringio.Buffers.Heap.{
  Array, Resource, block, loan, reference, bytes, Span, Heap, Host, malloc, give_back, free_all,
  sequence_get_item, get_buffer, H, pure, ◌>>=◌,
}
use uringio.Buffers.Rules.{
  blocks, loans, weight, Has, Has-same, After, Left, bind-After, Allocated, malloc-After,
  give_back-Left, Gives, free_all-Gives, release_all-Gives, give_back-Gives, then-Gives, Referenced,
  sequence_get_item-After, Lent, get_buffer-After,
}
use uringio.Buffers.Arrays.{write_entry-After}
use uringio.Buffers.Linear.{or_undo, fill_buffers, objects, lend_items}

weight-snoc :
    (w : Resource → ℕ) (ps : List (ℕ × ℕ)) (p n : ℕ) (rs : List Resource)
    → w (block p) + weight w (blocks ps ++ rs) ≡ weight w (blocks (ps ++ ((p, n) ∷ [])) ++ rs)
weight-snoc w [] p n rs = refl
weight-snoc w ((q, m) ∷ ps) p n rs = omega (arith, weight-snoc w ps p n rs)

pub length-snoc : {A : Type 0} (xs : List A) (x : A) → length (xs ++ (x ∷ [])) ≡ suc (length xs)
length-snoc [] x = refl
length-snoc (y ∷ xs) x = ap suc (length-snoc xs x)

-- A step of a loop, and what follows it.
pub or_undo-After :
    {A B : Type 0} (P : Option A → Heap → Type 0) (Q : Option B → Heap → Type 0)
    (qs rs : List Resource) (e : Bool) (m : H (Option A)) (undo : H (Unit {0}))
    (rest : A → H (Option B)) (s : Heap)
    → After (m s) P
    → ((t : Heap) → P none t → Has (qs ++ rs) e t)
    → Gives qs undo
    → ((t : Heap) → Has rs e t → Q none t)
    → ((a : A) (t : Heap) → P (some a) t → After (rest a t) Q)
    → After ((m >>= or_undo undo rest) s) Q
or_undo-After {A = A} {B = B} P Q qs rs e m undo rest s h without g left more =
    bind-After P Q m (or_undo undo rest) s h next
  where
    next : (r : Option A) (t : Heap) → P r t → After (or_undo undo rest r t) Q
    next none t p =
        bind-After (Left rs e) Q undo (λ _. pure none) t (g.run t rs e (without t p))
          (λ _ u o. left u o)
    next (some a) t p = more a t p

-- The loop has `n` buffers, or none at all.
abbrev pub Filled : List Resource → Bool → ℕ → Option (List (ℕ × ℕ)) → Heap → Type 0
Filled rs e n none t = Has rs e t
Filled rs e n (some ps) t = (length ps ≡ n) × Has (blocks ps ++ rs) e t

pub fill_buffers-Filled :
    (h : Host) (buffers : Array) (size : ℤ) (n i m : ℕ) (done : List (ℕ × ℕ)) (s : Heap)
    (rs : List Resource) (e : Bool)
    → buffers.room ≡ m
    → n + i ≡ m
    → n + length done ≡ m
    → Has (blocks done ++ rs) e s
    → After (fill_buffers h buffers size n i done s) (Filled rs e m)
unfolding fill_buffers
fill_buffers-Filled h buffers size zero i m done s rs e r k l o = (omega arith, o)
fill_buffers-Filled h buffers size (suc n) i m done s rs e r k l o =
    or_undo-After (Allocated (blocks done ++ rs) e) (Filled rs e m) (blocks done) rs e
      (malloc h (bytes size)) (free_all done) _ s (malloc-After h (bytes size) s o) (λ t o. o)
      (free_all-Gives done) (λ t o. o)
      (λ p t o. write_entry-After (Filled rs e m) buffers i _ t (omega arith) (
        fill_buffers-Filled h buffers size n (suc i) m (done ++ ((p, to_u64 size) ∷ [])) t rs e r
          (omega arith) (omega (arith, length-snoc done (p, to_u64 size)))
          (Has-same _ (λ w. weight-snoc w done p (to_u64 size) rs) o)))

pub weight-loans-snoc :
    (w : Resource → ℕ) (done : List (ℕ × Span)) (x : ℕ) (v : Span) (rs : List Resource)
    → w (loan x) + weight w (loans (objects done) ++ rs)
      ≡ weight w (loans (objects (done ++ ((x, v) ∷ []))) ++ rs)
weight-loans-snoc w [] x v rs = refl
weight-loans-snoc w ((y, u) ∷ xs) x v rs = omega (arith, weight-loans-snoc w xs x v rs)

-- The loop has the memory of `n` objects on loan, or of none at all, and then an exception is set.
abbrev pub LentAll : List Resource → Bool → ℕ → Option (List (ℕ × Span)) → Heap → Type 0
LentAll rs e n none t = Has rs true t
LentAll rs e n (some xs) t = (length xs ≡ n) × Has (loans (objects xs) ++ rs) e t

pub lend_items-LentAll :
    (h : Host) (obj : ℕ) (views buffers : Array) (n i m : ℕ) (done : List (ℕ × Span)) (s : Heap)
    (rs : List Resource) (e : Bool)
    → views.room ≡ m
    → buffers.room ≡ m
    → n + i ≡ m
    → n + length done ≡ m
    → Has (loans (objects done) ++ rs) e s
    → After (lend_items h obj views buffers n i done s) (LentAll rs e m)
unfolding lend_items
lend_items-LentAll h obj views buffers zero i m done s rs e rv rb k l o = (omega arith, o)
lend_items-LentAll h obj views buffers (suc n) i m done s rs e rv rb k l o =
    or_undo-After (Referenced (loans (objects done) ++ rs) e) (LentAll rs e m)
      (loans (objects done)) rs true (sequence_get_item h obj i) _ _ s
      (sequence_get_item-After h obj i s o) (λ t o. o) (release_all-Gives (objects done)) (λ t o. o)
      (λ x t o. write_entry-After (LentAll rs e m) views i _ t (omega arith) (
        or_undo-After (Lent x (reference x ∷ (loans (objects done) ++ rs)) e) (LentAll rs e m)
          (reference x ∷ loans (objects done)) rs true (get_buffer h x) _ _ t
          (get_buffer-After h x t o) (λ t o. o)
          (then-Gives (give_back-Gives (reference x)) (release_all-Gives (objects done))) (λ t o. o)
          (λ v t o. write_entry-After (LentAll rs e m) buffers i _ t (omega arith) (
            bind-After (Left (loan x ∷ (loans (objects done) ++ rs)) e) (LentAll rs e m)
              (give_back (reference x)) _ t
              (give_back-Left (reference x) t (Has-same _ (λ w. omega arith) o))
              (λ _ t o.
                lend_items-LentAll h obj views buffers n (suc i) m (done ++ ((x, v) ∷ [])) t rs e rv
                  rb (omega arith) (omega (arith, length-snoc done (x, v)))
                  (Has-same _ (λ w. weight-loans-snoc w done x v rs) o))))))
