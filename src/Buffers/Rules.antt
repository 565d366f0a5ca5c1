-- ===== src/Buffers/Rules.antt =====
-- What the program has to give back, and rules for programs that get it and give it back.
use mathlib.Core.List.{append_assoc}
use uringio.Base.{
  ℕ, ◌+◌, ◌<◌, ◌^◌, length, ◌≡◌, refl, Bool, true, Option, none, some, List, [], ◌∷◌, ◌++◌, arith,
}
use uringio.Buffers.Heap.{
  Resource, block, loan, reference, Block, Step, got, back, Heap, Span, Host, H, malloc, got_block,
  got_item, got_fast, got_span, set_error, run_next, give_back, free, free_all, release_all,
  sequence_get_item, sequence_fast, get_buffer, ◌>>=◌, ◌>>◌, pure,
}

-- The weight of a list of resources, for any weights of single ones.
abbrev pub weight : (Resource → ℕ) → List Resource → ℕ
weight w [] = 0
weight w (r ∷ rs) = w r + weight w rs

abbrev pub weight_got : (Resource → ℕ) → List Step → ℕ
weight_got w [] = 0
weight_got w (got r ∷ es) = w r + weight_got w es
weight_got w (_ ∷ es) = weight_got w es

abbrev pub weight_back : (Resource → ℕ) → List Step → ℕ
weight_back w [] = 0
weight_back w (back r ∷ es) = w r + weight_back w es
weight_back w (_ ∷ es) = weight_back w es

-- What the arrays of a payload hold.
abbrev pub blocks : List (ℕ × ℕ) → List Resource
blocks [] = []
blocks ((p, n) ∷ ps) = block p ∷ blocks ps

abbrev pub blocks_at : Option ℕ → List Resource
blocks_at none = []
blocks_at (some p) = block p ∷ []

abbrev pub loans : List ℕ → List Resource
loans [] = []
loans (x ∷ xs) = loan x ∷ loans xs

pub weight-append :
    (w : Resource → ℕ) (rs qs : List Resource) → weight w (rs ++ qs) ≡ weight w rs + weight w qs
weight-append w [] qs = omega arith
weight-append w (r ∷ rs) qs = omega (arith, weight-append w rs qs)

-- What was got is what was given back and `rs`, each as often; an exception is set if `error` says
-- so.
pub record Has (rs : List Resource) (error : Bool) (s : Heap) : Type 0 where
  pub owned : (w : Resource → ℕ) → weight_got w s.steps ≡ weight_back w s.steps + weight w rs
  pub raised : s.error ≡ error

-- The run stays inside its arrays, and its answer and its end are as `Q` says.
abbrev pub After : {A : Type 0} → Option (A × Heap) → (A → Heap → Type 0) → Type 0
After none Q = ⊥
After (some (a, s)) Q = Q a s

pub Has-same :
    {rs : List Resource} (qs : List Resource) {e : Bool} {s : Heap}
    → ((w : Resource → ℕ) → weight w rs ≡ weight w qs)
    → Has rs e s
    → Has qs e s
Has-same qs h o = record { owned = λ w. omega (arith, h w, o.owned w); raised = o.raised }

pub bind-After :
    {A B : Type 0} (P : A → Heap → Type 0) (Q : B → Heap → Type 0) (m : H A) (f : A → H B)
    (s : Heap)
    → After (m s) P
    → ((a : A) (t : Heap) → P a t → After (f a t) Q)
    → After ((m >>= f) s) Q
bind-After {A = A} {B = B} P Q m f s h k = go (m s) h
  where
    go : (r : Option (A × Heap)) → After r P → After (run_next r f) Q
    go none h = absurd h
    go (some (a, t)) h = k a t h

pub After-weaken :
    {A : Type 0} (P Q : A → Heap → Type 0) (r : Option (A × Heap))
    → After r P
    → ((a : A) (t : Heap) → P a t → Q a t)
    → After r Q
After-weaken P Q none h k = h
After-weaken P Q (some (a, t)) h k = k a t h

-- The end of a run that gives back what it had beside `rs`.
abbrev pub Left : {A : Type 0} → List Resource → Bool → A → Heap → Type 0
Left rs e a t = Has rs e t

-- An allocation.
abbrev pub Allocated : List Resource → Bool → Option ℕ → Heap → Type 0
Allocated rs e p t = Has (blocks_at p ++ rs) e t

pub malloc-After :
    (h : Host) (b : Block) (s : Heap) {rs : List Resource} {e : Bool}
    → Has rs e s
    → After (malloc h b s) (Allocated rs e)
unfolding malloc
malloc-After h b s {rs = rs} {e = e} o =
    elim (h.malloc b s.steps) as (λ r. After (got_block r s) (Allocated rs e)) [
      | none ↦ record { owned = o.owned; raised = o.raised }
      | some p ↦ record { owned = λ w. omega (arith, o.owned w); raised = o.raised }
    ]

pub give_back-Left :
    (r : Resource) (s : Heap) {rs : List Resource} {e : Bool}
    → Has (r ∷ rs) e s
    → After (give_back r s) (Left rs e)
unfolding give_back
give_back-Left r s o = record { owned = λ w. omega (arith, o.owned w); raised = o.raised }

pub set_error-Left :
    {rs : List Resource} {e : Bool} (s : Heap) → Has rs e s → After (set_error s) (Left rs true)
set_error-Left s o = record { owned = o.owned; raised = refl }

-- A program that gives `qs` back, whatever else there is.
pub record Gives (qs : List Resource) (m : H (Unit {0})) : Type 0 where
  pub run :
      (s : Heap) (rs : List Resource) (e : Bool) → Has (qs ++ rs) e s → After (m s) (Left rs e)

pub then-Gives :
    {ps qs : List Resource} {m k : H (Unit {0})}
    → Gives ps m
    → Gives qs k
    → Gives (ps ++ qs) (m >> k)
then-Gives {ps = ps} {qs = qs} {m = m} {k = k} f g = record {
  run = λ s rs e o.
      bind-After (Left (qs ++ rs) e) (Left rs e) m (λ _. k) s
        (f.run s (qs ++ rs) e (rw (append_assoc ps qs rs) at o)) (λ _ t o. g.run t rs e o);
}

pub nothing-Gives : Gives [] (pure tt)
nothing-Gives = record { run = λ s rs e o. o }

pub give_back-Gives : (r : Resource) → Gives (r ∷ []) (give_back r)
give_back-Gives r = record { run = λ s rs e o. give_back-Left r s o }

pub free-Gives : (p : Option ℕ) → Gives (blocks_at p) (free p)
unfolding free
free-Gives none = nothing-Gives
free-Gives (some p) = give_back-Gives (block p)

pub free_all-Gives : (ps : List (ℕ × ℕ)) → Gives (blocks ps) (free_all ps)
unfolding free_all
free_all-Gives [] = nothing-Gives
free_all-Gives ((p, n) ∷ ps) = then-Gives (give_back-Gives (block p)) (free_all-Gives ps)

pub release_all-Gives : (xs : List ℕ) → Gives (loans xs) (release_all xs)
unfolding release_all
release_all-Gives [] = nothing-Gives
release_all-Gives (x ∷ xs) = then-Gives (give_back-Gives (loan x)) (release_all-Gives xs)

-- A new reference, or an exception.
abbrev pub Referenced : List Resource → Bool → Option ℕ → Heap → Type 0
Referenced rs e none t = Has rs true t
Referenced rs e (some x) t = Has (reference x ∷ rs) e t

pub sequence_get_item-After :
    (h : Host) (obj i : ℕ) (s : Heap) {rs : List Resource} {e : Bool}
    → Has rs e s
    → After (sequence_get_item h obj i s) (Referenced rs e)
unfolding sequence_get_item
sequence_get_item-After h obj i s {rs = rs} {e = e} o =
    elim (h.get_item obj i s.steps) as (λ r. After (got_item r s) (Referenced rs e)) [
      | none ↦ record { owned = o.owned; raised = refl }
      | some x ↦ record { owned = λ w. omega (arith, o.owned w); raised = o.raised }
    ]

abbrev pub Listed : List Resource → Bool → Option (ℕ × List ℕ) → Heap → Type 0
Listed rs e none t = Has rs true t
Listed rs e (some (x, items)) t = (length items < 2 ^ 31) × Has (reference x ∷ rs) e t

-- An assumption on the lists and tuples that are passed, not a law of CPython: fewer than 2^31
-- items. The program casts longer counts to an `int`.
unfoldable pub IsShort : Host → Type 0
IsShort h =
    (obj : ℕ) (steps : List Step) (x : ℕ) (items : List ℕ)
    → h.fast obj steps ≡ some (x, items)
    → length items < 2 ^ 31

pub sequence_fast-After :
    (h : Host) (obj : ℕ) (s : Heap) {rs : List Resource} {e : Bool}
    → IsShort h
    → Has rs e s
    → After (sequence_fast h obj s) (Listed rs e)
unfolding sequence_fast IsShort
sequence_fast-After h obj s {rs = rs} {e = e} short o = go (h.fast obj s.steps) refl
  where
    go : (r : Option (ℕ × List ℕ)) → h.fast obj s.steps ≡ r → After (got_fast r s) (Listed rs e)
    go none eq = record { owned = o.owned; raised = refl }
    go (some (x, items)) eq = (
      short obj s.steps x items eq,
      record { owned = λ w. omega (arith, o.owned w); raised = o.raised },
    )

-- A loan of an object's memory, or an exception.
abbrev pub Lent : ℕ → List Resource → Bool → Option Span → Heap → Type 0
Lent x rs e none t = Has rs true t
Lent x rs e (some v) t = Has (loan x ∷ rs) e t

pub get_buffer-answer :
    (h : Host) (x : ℕ) (s : Heap) {rs : List Resource} {e : Bool}
    → Has rs e s
    → After (get_buffer h x s) (λ r t. (h.get_buffer x s.steps ≡ r) × Lent x rs e r t)
unfolding get_buffer
get_buffer-answer h x s {rs = rs} {e = e} o = go (h.get_buffer x s.steps) refl
  where
    go :
        (a : Option Span)
        → h.get_buffer x s.steps ≡ a
        → After (got_span x a s) (λ r t. (h.get_buffer x s.steps ≡ r) × Lent x rs e r t)
    go none q = (q, record { owned = o.owned; raised = refl })
    go (some v) q = (q, record { owned = λ w. omega (arith, o.owned w); raised = o.raised })

pub get_buffer-After :
    (h : Host) (x : ℕ) (s : Heap) {rs : List Resource} {e : Bool}
    → Has rs e s
    → After (get_buffer h x s) (Lent x rs e)
unfolding get_buffer
get_buffer-After h x s {rs = rs} {e = e} o =
    elim (h.get_buffer x s.steps) as (λ r. After (got_span x r s) (Lent x rs e)) [
      | none ↦ record { owned = o.owned; raised = refl }
      | some v ↦ record { owned = λ w. omega (arith, o.owned w); raised = o.raised }
    ]
