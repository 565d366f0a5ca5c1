-- ===== src/Registry/References.antt =====
-- The references to Python objects that the registry holds, against those that it takes and drops.
use uringio.Base.{
  ℕ, zero, suc, ◌+◌, ◌<◌, ◌≡◌, refl, inl, inr, pos, is_neg, Bool, true, false, Option, none, some,
  is_some, List, [], ◌∷◌, ◌++◌, length, get_or, set, arith, if◌then◌else◌, ◌==◌, Bool-cases,
}
use uringio.Registry.{
  RequestSlot, RequestRegistry, Request, Effect, incref, decref, free_payload, free_memory, incref?,
  decref?, free_payload?, free?, zero_slot, fill, registry_add, registry_remove, slot_of, cleared,
  releases, destroys, destroy_slots, registry_destroy, free_slots, free_available_indices,
  free_registry,
}
use uringio.Registry.Invariant.{
  removed, remove-removed, in_flight-lt, slot, in_flight, IsTidy, IsValid, next,
}

-- How often the effects take, and drop, a reference to `o`.
abbrev pub taken : ℕ → List Effect → ℕ
taken o [] = 0
taken o (incref p ∷ es) = if o == p then suc (taken o es) else taken o es
taken o (e ∷ es) = taken o es

abbrev pub dropped : ℕ → List Effect → ℕ
dropped o [] = 0
dropped o (decref p ∷ es) = if o == p then suc (dropped o es) else dropped o es
dropped o (e ∷ es) = dropped o es

abbrev pub points : ℕ → Option ℕ → ℕ
points o none = 0
points o (some p) = if o == p then 1 else 0

-- The references that one slot, and all slots, hold.
abbrev pub held_by : ℕ → RequestSlot → ℕ
held_by o s = points o s.future + points o s.socket + points o s.file

abbrev pub held : ℕ → List RequestSlot → ℕ
held o [] = 0
held o (s ∷ ss) = held_by o s + held o ss

pub dropped-append :
    (o : ℕ) (xs ys : List Effect) → dropped o (xs ++ ys) ≡ dropped o xs + dropped o ys
dropped-append o [] ys = omega arith
dropped-append o (incref p ∷ xs) ys = dropped-append o xs ys
dropped-append o (decref p ∷ xs) ys = ground (arith, dropped-append o xs ys)
dropped-append o (free_payload p f ∷ xs) ys = dropped-append o xs ys
dropped-append o (free_memory p ∷ xs) ys = dropped-append o xs ys
dropped-append o (e ∷ xs) ys = dropped-append o xs ys

dropped-decref? : (o : ℕ) (p : Option ℕ) → dropped o (decref? p) ≡ points o p
dropped-decref? o none = refl
dropped-decref? o (some p) = refl

dropped-free_payload? : (o : ℕ) (p : Option ℕ) (f : Bool) → dropped o (free_payload? p f) ≡ 0
dropped-free_payload? o none f = refl
dropped-free_payload? o (some p) f = refl

dropped-free? : (o : ℕ) (p : Option ℕ) → dropped o (free? p) ≡ 0
dropped-free? o none = refl
dropped-free? o (some p) = refl

ruleset drops = (arith, dropped-append, dropped-decref?, dropped-free_payload?, dropped-free?)

dropped-releases : (o : ℕ) (s : RequestSlot) → dropped o (releases s) ≡ held_by o s
dropped-releases o s = grind drops

dropped-destroys : (o : ℕ) (s : RequestSlot) → dropped o (destroys s) ≡ held_by o s
dropped-destroys o s = grind drops

held-set :
    (o : ℕ) (slots : List RequestSlot) (n : ℕ) (s : RequestSlot)
    → n < length slots
    → held o (set slots n s) + held_by o (get_or slots n zero_slot) ≡ held o slots + held_by o s
held-set o [] n s h = absurd (omega arith)
held-set o (x ∷ xs) zero s h = omega arith
held-set o (x ∷ xs) (suc n) s h = omega (arith, held-set o xs n s (omega arith))

taken-append : (o : ℕ) (xs ys : List Effect) → taken o (xs ++ ys) ≡ taken o xs + taken o ys
taken-append o [] ys = omega arith
taken-append o (incref p ∷ xs) ys = ground (arith, taken-append o xs ys)
taken-append o (e ∷ xs) ys = taken-append o xs ys

taken-incref? : (o : ℕ) (p : Option ℕ) → taken o (incref? p) ≡ points o p
taken-incref? o none = refl
taken-incref? o (some p) = refl

-- A free slot holds no reference.
held_by-idle : (o : ℕ) (s : RequestSlot) → IsTidy s → is_some s.future ≡ false → held_by o s ≡ 0
held_by-idle o s t e = let (p, f, k) = t e in ground arith

fill-held :
    (o : ℕ) (reg : RequestRegistry) (r : Request) (n : ℕ)
    → n < length reg.slots
    → held_by o (slot reg n) ≡ 0
    → let (idx, reg', effects) = fill reg r (pos n) in
      held o reg'.slots ≡ held o reg.slots + taken o effects
unfolding fill
fill-held o reg r n h e = ground (
  arith,
  held-set o reg.slots n (slot_of (pos n) r) h,
  taken-append o (incref? r.socket) (incref? r.file),
  taken-incref? o r.socket,
  taken-incref? o r.file,
)

-- `registry_add` on a valid registry takes as many references to an object as the slots come to
-- hold more.
pub add-held :
    (o : ℕ) (reg : RequestRegistry) (r : Request)
    → IsValid reg
    → let (idx, reg', effects) = registry_add reg r in
      held o reg'.slots ≡ held o reg.slots + taken o effects
unfolding registry_add
add-held o reg r v = elim (Bool-cases (is_neg reg.top)) [
  | inl empty ↦ rw empty (omega arith)
  | inr more ↦
      let (n, x) = next v more in
      rw (more, x.entry)
        (fill-held o reg r n (omega (arith, v.wide, x.inside))
          (held_by-idle o (slot reg n) (v.tidy n) x.idle))
]

-- `registry_remove` of a request in flight in a valid registry drops as many references to an
-- object as the slots come to hold fewer.
pub remove-held :
    (o : ℕ) (reg reg' : RequestRegistry) (n : ℕ) (effects : List Effect)
    → IsValid reg
    → in_flight reg n ≡ true
    → registry_remove reg (pos n) ≡ some (reg', effects)
    → held o reg'.slots + dropped o effects ≡ held o reg.slots
remove-held o reg reg' n effects v e q =
    let p = remove-removed reg n v e in
    let same : removed reg n ≡ reg' = cc (p, q) in
    let drops_all : releases (slot reg n) ≡ effects = cc (p, q) in
    rw (← same, ← drops_all)
      (omega (
        arith,
        held-set o reg.slots n (cleared (slot reg n))
            (omega (arith, v.wide, in_flight-lt reg n v e)),
        dropped-releases o (slot reg n),
      ))

destroy_slots-held :
    (o : ℕ) (slots : List RequestSlot) → dropped o (destroy_slots slots) ≡ held o slots
unfolding destroy_slots
destroy_slots-held o [] = refl
destroy_slots-held o (s ∷ slots) = omega (
  arith,
  dropped-append o (destroys s) (destroy_slots slots),
  dropped-destroys o s,
  destroy_slots-held o slots,
)

-- `registry_destroy` drops exactly the references that the slots hold.
pub destroy-held :
    (o : ℕ) (reg : RequestRegistry) → dropped o (registry_destroy (some reg)) ≡ held o reg.slots
unfolding registry_destroy
destroy-held o reg = omega (
  arith,
  dropped-append o (destroy_slots reg.slots)
      (free_slots ∷ free_available_indices ∷ free_registry ∷ []),
  destroy_slots-held o reg.slots,
)
