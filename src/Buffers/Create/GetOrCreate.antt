-- ===== src/Buffers/Create/GetOrCreate.antt =====
-- The payloads of `get_or_create_linear_buffer` and `get_or_create_vectored_buffer`, and the life
-- of a payload: it is made, and freed.
use mathlib.Core.List.{append_assoc}
use uringio.Base.{
  ℕ, ◌<◌, ◌^◌, pos, to_int, to_int-of_lt, ◌≡◌, refl, Bool, true, false, Option, none, ◌⊎◌, inl, inr,
  some, List, [], ◌∷◌, ◌++◌, if◌then◌else◌, arith,
}
use uringio.Enums.{payload_user, payload_runtime, PayloadOrigin, payload_iovec}
use uringio.Payload.{VectoredBuffer, BufferPayload}
use uringio.Buffers.Heap.{Resource, block, payload_block, Heap, Host, pure, malloc, give_back}
use uringio.Buffers.Rules.{
  Has, After, Left, bind-After, Allocated, malloc-After, give_back-Left, IsShort,
}
use uringio.Buffers.Free.{owned, owned_vectored, WholeVectored}
use uringio.Buffers.Vectored.{create_vectored_buffers, serialize_vectored_buffers}
use uringio.Buffers.Vectored.Contract.{MadeVectored, create_vectored_buffers-Made}
use uringio.Buffers.Vectored.Serialize.{Serialized, serialize_vectored_buffers-Serialized}
use uringio.Buffers.Create.{
  Answer, zeroed, made_vectored, new_vectored, fresh_vectored, get_or_create_vectored_buffer,
  has_linear, has_vectored, described,
}
use uringio.Buffers.Create.Contract.{IsReady}

-- NULL comes with an exception, except when the block of the payload was not allocated, and with
-- nothing to give back.
abbrev pub GotVectored : Answer → List Resource → Bool → Answer → Heap → Type 0
GotVectored current rs e none t = Has rs true t ⊎ Has rs e t
GotVectored current rs e (some (p, b)) t =
    ((current ≡ some (p, b)) × Has rs e t) ⊎ (IsReady has_vectored b × Has (owned p b ++ rs) e t)

module _ (h : Host) (current : Answer) (rs : List Resource) (e : Bool) where
  abbrev Got : Answer → Heap → Type 0
  Got = GotVectored current rs e

  vectored-Got :
      (origin : PayloadOrigin) (p : ℕ) (v : VectoredBuffer) (b : BufferPayload) (t : Heap)
      → v.nr_vecs < 2 ^ 31
      → b ≡ record zeroed { vector = some v; linear = none }
      → WholeVectored (pos v.nr_vecs) (some v)
      → Has (owned_vectored origin (some v) ++ (block p ∷ rs)) e t
      → Got (some (p, described b (to_int v.nr_vecs) origin payload_iovec)) t
  vectored-Got origin p v b t l q w o =
      rw (q, to_int-of_lt v.nr_vecs l)
        (inr (
          record { whole = (tt, w); normal = refl; there = refl },
          rw (append_assoc (owned_vectored origin (some v)) (block p ∷ []) rs) o,
        ))

  made_user-Got :
      (p : ℕ) (r : Option VectoredBuffer × BufferPayload) (t : Heap)
      → Serialized zeroed (block p ∷ rs) e r t
      → After (made_vectored payload_user p r t) Got
  unfolding give_back
  made_user-Got p (none, b) t (q, o) =
      bind-After (Left rs true) Got (give_back (block p)) (λ _. pure none) t
        (give_back-Left (block p) t o) (λ _ u o. inl o)
  made_user-Got p (some v, b) t ((l, q), (w, o)) = vectored-Got payload_user p v b t l q w o

  made_runtime-Got :
      (p : ℕ) (r : Option VectoredBuffer × BufferPayload) (t : Heap)
      → MadeVectored payload_runtime (pos 1) zeroed (block p ∷ rs) e r t
      → After (made_vectored payload_runtime p r t) Got
  unfolding give_back
  made_runtime-Got p (none, b) t (q, o) =
      bind-After (Left rs true) Got (give_back (block p)) (λ _. pure none) t
        (give_back-Left (block p) t o) (λ _ u o. inl o)
  made_runtime-Got p (some v, b) t ((l, q), (w, o)) =
      vectored-Got payload_runtime p v b t (omega (arith, l)) q (w.0, rw l w.1) o

  fresh_vectored-Got :
      (obj : Option ℕ) (s : Heap) → IsShort h → Has rs e s → After (fresh_vectored h obj s) Got
  fresh_vectored-Got obj s short o =
      bind-After (Allocated rs e) Got (malloc h payload_block) (new_vectored h obj) s
        (malloc-After h payload_block s o) (start obj)
    where
      start :
          (obj r : Option ℕ) (t : Heap) → Allocated rs e r t → After (new_vectored h obj r t) Got
      start obj none t o = inr o
      start (some obj) (some p) t o =
          bind-After (Serialized zeroed (block p ∷ rs) e) Got
            (serialize_vectored_buffers h obj zeroed) (made_vectored payload_user p) t
            (serialize_vectored_buffers-Serialized h zeroed (block p ∷ rs) e obj t short o)
            (made_user-Got p)
      start none (some p) t o =
          bind-After (MadeVectored payload_runtime (pos 1) zeroed (block p ∷ rs) e) Got
            (create_vectored_buffers h (pos 1) (pos 1024) zeroed) (made_vectored payload_runtime p)
            t
            (create_vectored_buffers-Made h (pos 1) zeroed (block p ∷ rs) e (pos 1024) t
              (omega arith) o)
            (made_runtime-Got p)

-- `get_or_create_vectored_buffer`, for a host whose lists have fewer than 2^31 items. It answers
-- the context's payload, and then holds nothing; or a new payload of mode NORMAL_BUF, whose counts
-- are the lengths of its arrays and which holds all that the call got; or NULL, and then everything
-- that it got is given back.
pub get_or_create_vectored_buffer-Got :
    (h : Host) (current : Answer) (obj : Option ℕ) (s : Heap) (rs : List Resource) (e : Bool)
    → IsShort h
    → Has rs e s
    → After (get_or_create_vectored_buffer h current obj s) (GotVectored current rs e)
unfolding get_or_create_vectored_buffer
get_or_create_vectored_buffer-Got h current (some obj) s rs e short o =
    fresh_vectored-Got h current rs e (some obj) s short o
get_or_create_vectored_buffer-Got h none none s rs e short o =
    fresh_vectored-Got h none rs e none s short o
get_or_create_vectored_buffer-Got h (some (p, b)) none s rs e short o =
    elim (has_vectored b)
      as (λ u.
        After ((if u then pure (some (p, b)) else fresh_vectored h none) s)
          (GotVectored (some (p, b)) rs e)) [
            | true ↦ inl (refl, o)
            | false ↦ fresh_vectored-Got h (some (p, b)) rs e none s short o
          ]

-- A new payload, of the origin, or NULL. A call that fails after the payload's block was allocated
-- answers the payload with a `linear` that was never set, and with an exception set.
abbrev pub FreshLinear : Host → PayloadOrigin → List Resource → Bool → Answer → Heap → Type 0
FreshLinear h origin rs e none t = Has rs e t
FreshLinear h origin rs e (some (p, b)) t =
    (b.payload_origin ≡ origin)
    × ((IsReady has_linear b × Has (owned p b ++ rs) e t)
        ⊎ ((b.linear ≡ h.uninitialised.linear) × Has (block p ∷ rs) true t))

-- An object asks for a new payload; otherwise the context's payload is answered if it has a linear
-- buffer, and else a new payload with a buffer of the program.
abbrev pub GotLinear : Host → Answer → Option ℕ → List Resource → Bool → Answer → Heap → Type 0
GotLinear h current (some obj) rs e = FreshLinear h payload_user rs e
GotLinear h none none rs e = FreshLinear h payload_runtime rs e
GotLinear h (some (p, b)) none rs e =
    if has_linear b
    then (λ r t. (r ≡ some (p, b)) × Has rs e t)
    else FreshLinear h payload_runtime rs e

abbrev origin_of : Option ℕ → PayloadOrigin
origin_of none = payload_runtime
origin_of (some obj) = payload_user
