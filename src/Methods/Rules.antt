-- ===== src/Methods/Rules.antt =====
-- What a method has done when it ends, and the steps that its paths share.
use uringio.Base.{
  ℕ, ℤ, pos, ◌≡◌, refl, Bool, true, false, Option, none, some, List, [], ◌∷◌, ◌++◌, arith,
}
use uringio.Enums.{normal_buf}
use uringio.Uring.{M}
use uringio.Payload.{BufferPayload, is_freed}
use uringio.Registry.{RequestRegistry, Request}
use uringio.Registry.Invariant.{IsValid, in_flight, slot}
use uringio.Registry.InFlight.{Holds, ElsewhereSame}
use uringio.Buffers.Heap.{Resource, reference, Heap, H}
use uringio.Buffers.Rules.{Has, After, Left, blocks_at}
use uringio.Buffers.Free.{owned, Whole, freed}
use uringio.Buffers.Free.Laws.{freed-Gives}
use uringio.Buffers.Create.{Answer}
use uringio.Buffers.Create.Contract.{IsReady, MadeWith}
use uringio.Methods.{
  Caller, S, ◌>>=◌, run_next, free_if_there, free_payload_at, on_heap, update, kept, make_payload,
}

-- The run does not fault, and its answer and its end are as `Q` says.
abbrev pub Ends : {A : Type 0} → Option (A × Caller) → (A → Caller → Type 0) → Type 0
Ends none Q = ⊥
Ends (some (a, s)) Q = Q a s

pub bind-Ends :
    {A B : Type 0} (P : A → Caller → Type 0) (Q : B → Caller → Type 0) (m : S A) (f : A → S B)
    (s : Caller)
    → Ends (m s) P
    → ((a : A) (t : Caller) → P a t → Ends (f a t) Q)
    → Ends ((m >>= f) s) Q
bind-Ends {A = A} {B = B} P Q m f s h k = go (m s) h
  where
    go : (r : Option (A × Caller)) → Ends r P → Ends (run_next r f) Q
    go none h = absurd h
    go (some (a, t)) h = k a t h

-- As above, and the rest knows the run that it follows.
pub bind_run-Ends :
    {A B : Type 0} (P : A → Caller → Type 0) (Q : B → Caller → Type 0) (m : S A) (f : A → S B)
    (s : Caller)
    → Ends (m s) P
    → ((a : A) (t : Caller) → m s ≡ some (a, t) → P a t → Ends (f a t) Q)
    → Ends ((m >>= f) s) Q
bind_run-Ends {A = A} {B = B} P Q m f s h k = go (m s) refl h
  where
    go : (r : Option (A × Caller)) → m s ≡ r → Ends r P → Ends (run_next r f) Q
    go none e h = absurd h
    go (some (a, t)) e h = k a t e h

pub Ends-weaken :
    {A : Type 0} (P Q : A → Caller → Type 0) (r : Option (A × Caller))
    → Ends r P
    → ((a : A) (t : Caller) → P a t → Q a t)
    → Ends r Q
Ends-weaken P Q none h k = h
Ends-weaken P Q (some (a, t)) h k = k a t h

-- The registry is as before, up to what a free slot still holds.
pub record Restored (reg reg' : RequestRegistry) : Type 0 where
  pub valid : IsValid reg'
  pub same_flight : (k : ℕ) → in_flight reg' k ≡ in_flight reg k
  pub same_slot : (k : ℕ) → in_flight reg k ≡ true → slot reg' k ≡ slot reg k

pub same-Restored : (reg : RequestRegistry) → IsValid reg → Restored reg reg
same-Restored reg v = record { valid = v; same_flight = λ k. refl; same_slot = λ k h. refl }

-- What the request holds by its payload, in the loop's state `s`.
pub data Pays (s : Caller) : Option ℕ → List Resource → Type 0 where
  nothing : Pays s none []
  payload :
      (p : ℕ) (b : BufferPayload)
      → s.payloads p ≡ some b
      → Whole b
      → b.mode ≡ normal_buf
      → Pays s (some p) (owned p b)

abbrev pub references : Option ℕ → List Resource
references none = []
references (some x) = reference x ∷ []

-- What a request takes over beside its payload: references to its objects, and its message header.
abbrev pub attached : Request → List Resource
attached r = references r.socket ++ (references r.file ++ blocks_at r.msghdr)

-- A future is answered: one new request is in flight, which holds the future, the objects and the
-- payload; `submit` was run once with its index, and succeeded; and beside the answer's reference
-- and what the request holds, nothing was kept.
pub record Registered (s t : Caller) (rs held : List Resource) (r : Request) (submit : ℤ → M ℤ)
    : Type 0 where
  pub index : ℕ
  pub was_free : in_flight s.registry index ≡ false
  pub filled : Holds (slot t.registry index) index r
  pub others : ElsewhereSame index s.registry t.registry
  pub valid : IsValid t.registry
  pub sent : submit (pos index) s.calls ≡ (pos 1, t.calls)
  pub owns :
      Has (reference r.future ∷ (reference r.future ∷ (attached r ++ (held ++ rs)))) false t.heap

-- NULL comes with an exception, with the registry as before, and with nothing to give back.
abbrev pub Refused : Caller → List Resource → Caller → Type 0
Refused s rs t = Has rs true t.heap × Restored s.registry t.registry

-- How a method ends that sends the request `r` by `submit`.
abbrev pub Ended :
    Caller → (rs held : List Resource) → Request → (ℤ → M ℤ) → Option ℕ → Caller → Type 0
Ended s rs held r submit none u = Refused s rs u
Ended s rs held r submit (some f) u =
    Registered s u rs held r submit × (f ≡ r.future) × (u.payloads ≡ s.payloads)

-- Only the registry and the calls of the first state count.
pub Refused-from :
    (s' s : Caller) (rs : List Resource) (u : Caller)
    → s'.registry ≡ s.registry
    → Refused s' rs u
    → Refused s rs u
Refused-from s' s rs u e (o, x) = (o, rw e at x)

pub Registered-from :
    (s' s : Caller) (rs held : List Resource) (r : Request) (submit : ℤ → M ℤ) (u : Caller)
    → s'.registry ≡ s.registry
    → s'.calls ≡ s.calls
    → Registered s' u rs held r submit
    → Registered s u rs held r submit
Registered-from s' s rs held r submit u e c h = record {
  index = h.index;
  was_free = rw e at h.was_free;
  filled = h.filled;
  others = rw e at h.others;
  valid = h.valid;
  sent = rw c at h.sent;
  owns = h.owns;
}

is_freed-normal : (b : BufferPayload) → b.mode ≡ normal_buf → is_freed b false ≡ true
is_freed-normal b n = rw n refl

-- Giving back what a request's payload holds.
pub free_payload-Ends :
    (s t : Caller) (payload : Option ℕ) (held rs : List Resource) (e : Bool)
    → Pays s payload held
    → t.payloads ≡ s.payloads
    → Has (held ++ rs) e t.heap
    → Ends (free_if_there payload t) (λ _ u. Has rs e u.heap × (u.registry ≡ t.registry))
unfolding free_payload_at
free_payload-Ends s t _ _ rs e nothing q o = (o, refl)
free_payload-Ends s t _ _ rs e (payload p b there w n) q o =
    rw (q, there, is_freed-normal b n)
      (ended (freed p b t.heap) ((freed-Gives p b w).run t.heap rs e o))
  where
    u : Caller
    u = record t { payloads = update s.payloads p none }

    ended :
        (r : Option (Unit {0} × Heap))
        → After r (Left rs e)
        → Ends (on_heap r u) (λ _ v. Has rs e v.heap × (v.registry ≡ t.registry))
    ended none h = absurd h
    ended (some (x, heap)) h = (h, refl)

-- A payload that was made, which is as `K` says, is stored at its address.
abbrev pub MadeAt :
    Caller
    → (BufferPayload → Type 0)
    → (has : BufferPayload → Bool) → (qs rs : List Resource) → Option ℕ
    → Caller
    → Type 0
MadeAt s K has qs rs none u = Has (qs ++ rs) true u.heap × (u.registry ≡ s.registry)
MadeAt s K has qs rs (some p) u =
    (b : BufferPayload) × (u.payloads p ≡ some b)
    × IsReady has b
    × Has (owned p b ++ rs) false u.heap
    × (u.registry ≡ s.registry)
    × (u.calls ≡ s.calls)
    × K b

pub make_payload-Ends :
    (s : Caller) (K : BufferPayload → Type 0) (has : BufferPayload → Bool) (qs rs : List Resource)
    (m : H Answer)
    → After (m s.heap) (MadeWith K has qs rs false)
    → Ends (make_payload m s) (MadeAt s K has qs rs)
make_payload-Ends s K has qs rs m h = go (m s.heap) h
  where
    go :
        (r : Option (Answer × Heap))
        → After r (MadeWith K has qs rs false)
        → Ends (run_next (on_heap r s) kept) (MadeAt s K has qs rs)
    go none h = absurd h
    go (some (none, heap)) h = (h, refl)
    go (some (some (p, b), heap)) (k, o, x) = (b, ground arith, k, o, refl, refl, x)
