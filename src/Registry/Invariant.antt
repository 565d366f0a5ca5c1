-- ===== src/Registry/Invariant.antt =====
-- Every slot is either free, once, or holds a request in flight.
use mathlib.Core.List.{
  Mem, Nodup, Nodup-cons, mem-append_right, mem-append_left, mem-cons_self, Perm, perm_middle,
  append-nil,
}
use mathlib.Core.List.Perm
use mathlib.Core.Path.{subst}
use uringio.Base.{
  ℕ, zero, suc, ◌+◌, ◌≤◌, ◌<◌, ◌^◌, ◌≡◌, refl, sym, ap, ◌∙◌, inl, inr, ℤ, pos, negsuc, neg_part,
  pos_part, is_neg, pred_ℤ, Bool, true, false, none, some, is_some, List, [], ◌∷◌, ◌++◌, length,
  get_or, set, length-set, get_or-replicate, length-replicate, count, stack, stack-set,
  length-stack, stack-indices, countdown, length-countdown, countdown-Nodup, mem-countdown,
  not-mem-countdown, stack-pred, length-indices, arith, Bool-cases,
}
use uringio.Registry.{
  RequestSlot, RequestRegistry, Request, zero_slot, fresh, fill, registry_add, registry_remove,
  releases, slot_of, cleared,
}
use uringio.Registry.Busy.{
  busy_from, busy-fill, busy-clear, length-busy_fill, length-busy_clear, mem-busy, busy-replicate,
}

-- A slot that holds no request holds no references.
abbrev pub IsTidy : RequestSlot → Type 0
IsTidy slot =
    is_some slot.future ≡ false
    → (slot.buffer_payload ≡ none) × (slot.file ≡ none) × (slot.socket ≡ none)

abbrev pub free : RequestRegistry → List ℤ
free reg = stack reg.available_indices (count reg.top)

abbrev pub busy : RequestRegistry → List ℤ
busy reg = busy_from 0 reg.slots

abbrev pub slot : RequestRegistry → ℕ → RequestSlot
slot reg k = get_or reg.slots k zero_slot

abbrev pub in_flight : RequestRegistry → ℕ → Bool
in_flight reg k = is_some (slot reg k).future

lt_of_held :
    (slots : List RequestSlot) (n : ℕ)
    → is_some (get_or slots n zero_slot).future ≡ true
    → n < length slots
lt_of_held [] n e = cc
lt_of_held (s ∷ slots) zero e = omega arith
lt_of_held (s ∷ slots) (suc n) e = omega (arith, lt_of_held slots n e)

pub record IsValid (reg : RequestRegistry) : Type 0 where
  pub small : reg.size < 2 ^ 31
  pub wide : length reg.slots ≡ reg.size
  pub array : length reg.available_indices ≡ reg.size
  pub low : neg_part reg.top ≤ 1
  pub full : length (free reg) + length (busy reg) ≡ reg.size
  pub split : Perm (free reg ++ busy reg) (countdown reg.size)
  pub tidy : (k : ℕ) → IsTidy (slot reg k)

free-fresh : (size : ℕ) → 0 < size → size < 2 ^ 31 → free (fresh size) ≡ countdown size
unfolding fresh
free-fresh size h k = ground (arith, stack-indices size size)

-- A new registry is valid.
pub fresh-IsValid : (size : ℕ) → 0 < size → size < 2 ^ 31 → IsValid (fresh size)
unfolding fresh
fresh-IsValid size h k = record {
  small = k;
  wide = length-replicate size zero_slot;
  array = ground (arith, length-indices 0 size);
  low = ground arith;
  full = rw (free-fresh size h k, busy-replicate 0 size) (omega (arith, length-countdown size));
  split = rw (free-fresh size h k, busy-replicate 0 size, append-nil) (Perm.refl (countdown size));
  tidy = λ n e. rw (get_or-replicate size n zero_slot) (refl, refl, refl);
}

pub valid-Nodup : {reg : RequestRegistry} → IsValid reg → Nodup (free reg ++ busy reg)
valid-Nodup {reg} v = Perm.nodup (Perm.symm v.split) (countdown-Nodup reg.size)

-- The index that is handed out next.
pub record Next (reg : RequestRegistry) (n : ℕ) (rest : List ℤ) : Type 0 where
  pub top : free reg ≡ pos n ∷ rest
  pub entry : get_or reg.available_indices (pos_part reg.top) (negsuc 0) ≡ pos n
  pub below : stack reg.available_indices (count (pred_ℤ reg.top)) ≡ rest
  pub inside : n < reg.size
  pub idle : in_flight reg n ≡ false

free-idle :
    {reg : RequestRegistry} (n : ℕ) (rest : List ℤ)
    → IsValid reg
    → free reg ≡ pos n ∷ rest
    → in_flight reg n ≡ false
free-idle {reg} n rest v e = elim (Bool-cases (in_flight reg n)) [
  | inl held ↦ absurd (
      (Nodup-cons.0 (rw e at (valid-Nodup v))).0
        (mem-append_right rest (mem-busy 0 n reg.slots n (omega arith) held)))
  | inr idle ↦ idle
]

top-mem :
    {reg : RequestRegistry} (i : ℤ) (rest : List ℤ)
    → IsValid reg
    → free reg ≡ i ∷ rest
    → Mem i (countdown reg.size)
top-mem {reg} i rest v e =
    (Perm.mem_iff v.split).0 (mem-append_left (busy reg) (rw e mem-cons_self))

next-entry :
    {reg : RequestRegistry} (i : ℤ) (rest : List ℤ)
    → IsValid reg
    → free reg ≡ i ∷ rest
    → get_or reg.available_indices (pos_part reg.top) (negsuc 0) ≡ i
    → stack reg.available_indices (count (pred_ℤ reg.top)) ≡ rest
    → (n : ℕ) × Next reg n rest
next-entry {reg} (negsuc k) rest v e p q =
    absurd (not-mem-countdown reg.size k (top-mem (negsuc k) rest v e))
next-entry {reg} (pos n) rest v e p q = (
  n,
  record {
    top = e;
    entry = p;
    below = q;
    inside = mem-countdown reg.size n (top-mem (pos n) rest v e);
    idle = free-idle n rest v e;
  },
)

-- A valid registry whose stack is not empty has a free slot to hand out.
pub next :
    {reg : RequestRegistry}
    → IsValid reg
    → is_neg reg.top ≡ false
    → (n : ℕ) × Next reg n (stack reg.available_indices (count (pred_ℤ reg.top)))
next {reg} v h = next-entry _ _ v (stack-pred reg.available_indices reg.top h) refl refl

set-IsTidy :
    (slots : List RequestSlot) (n : ℕ) (s : RequestSlot)
    → IsTidy s
    → ((k : ℕ) → IsTidy (get_or slots k zero_slot))
    → (k : ℕ) → IsTidy (get_or (set slots n s) k zero_slot)
set-IsTidy [] n s t h k = h k
set-IsTidy (x ∷ xs) zero s t h zero = t
set-IsTidy (x ∷ xs) zero s t h (suc k) = h (suc k)
set-IsTidy (x ∷ xs) (suc n) s t h zero = h zero
set-IsTidy (x ∷ xs) (suc n) s t h (suc k) = set-IsTidy xs n s t (λ j. h (suc j)) k

pub fill-IsValid :
    {reg : RequestRegistry} (n : ℕ) (rest : List ℤ) (r : Request)
    → IsValid reg
    → Next reg n rest
    → IsValid (fill reg r (pos n)).1
unfolding fill
fill-IsValid {reg} n rest r v x = record {
  small = v.small;
  wide = length-set reg.slots n (slot_of (pos n) r) ∙ v.wide;
  array = v.array;
  low = ground (arith, v.low);
  full = omega (
    arith,
    v.full,
    ap length x.top,
    ap length x.below,
    length-busy_fill 0 reg.slots n (slot_of (pos n) r) inside x.idle refl,
  );
  split = rw x.below (
      Perm.trans
        (Perm.append_left rest
          (busy-fill 0 n reg.slots n (slot_of (pos n) r) (omega arith) inside x.idle refl))
        (Perm.trans (perm_middle rest (busy reg)) (rw x.top at v.split)));
  tidy = set-IsTidy reg.slots n (slot_of (pos n) r) (λ e. cc) v.tidy;
}
  where
    inside : n < length reg.slots
    inside = omega (arith, x.inside, v.wide)

-- Adding a request keeps the registry valid.
pub add-IsValid :
    (reg : RequestRegistry) (r : Request) → IsValid reg → IsValid (registry_add reg r).1
unfolding registry_add
add-IsValid reg r v = elim (Bool-cases (is_neg reg.top)) [
  | inl empty ↦ rw empty v
  | inr more ↦ let (n, x) = next v more in rw (more, x.entry) (fill-IsValid n _ r v x)
]

-- The registry after the request in slot `n` was removed.
abbrev pub removed : RequestRegistry → ℕ → RequestRegistry
removed reg n = record reg {
  slots = set reg.slots n (cleared (slot reg n));
  available_indices = set reg.available_indices (count reg.top) (pos n);
  top = pos (count reg.top);
}

pub in_flight-lt :
    (reg : RequestRegistry) (n : ℕ) → IsValid reg → in_flight reg n ≡ true → n < reg.size
in_flight-lt reg n v e = omega (arith, v.wide, lt_of_held reg.slots n e)

-- While a request is in flight the stack is not full.
pub in_flight-room :
    (reg : RequestRegistry) (n : ℕ)
    → IsValid reg
    → in_flight reg n ≡ true
    → count reg.top < reg.size
in_flight-room reg n v e = omega (
  arith,
  v.full,
  length-stack reg.available_indices (count reg.top),
  length-busy_clear 0 reg.slots n (cleared (slot reg n)) (lt_of_held reg.slots n e) e refl,
)

-- Removing a request in flight does not abort.
pub remove-removed :
    (reg : RequestRegistry) (n : ℕ)
    → IsValid reg
    → in_flight reg n ≡ true
    → registry_remove reg (pos n) ≡ some (removed reg n, releases (slot reg n))
unfolding registry_remove
remove-removed reg n v e =
    ground (arith, v.small, v.low, in_flight-room reg n v e, in_flight-lt reg n v e)

pub removed-IsValid :
    (reg : RequestRegistry) (n : ℕ) → IsValid reg → in_flight reg n ≡ true → IsValid (removed reg n)
removed-IsValid reg n v e = record {
  small = v.small;
  wide = length-set reg.slots n (cleared (slot reg n)) ∙ v.wide;
  array = length-set reg.available_indices (count reg.top) (pos n) ∙ v.array;
  low = omega arith;
  full = omega (
    arith,
    v.full,
    ap length pushed,
    length-busy_clear 0 reg.slots n (cleared (slot reg n)) inside e refl,
  );
  split =
      subst (λ xs. Perm (xs ++ busy (removed reg n)) (countdown reg.size)) (sym pushed)
        (Perm.trans (Perm.symm (perm_middle (free reg) (busy (removed reg n)))) (
          Perm.trans
            (Perm.append_left (free reg) (
              Perm.symm
                (busy-clear 0 n reg.slots n (cleared (slot reg n)) (omega arith) inside e refl)))
            v.split));
  tidy = set-IsTidy reg.slots n (cleared (slot reg n)) (λ h. (refl, refl, refl)) v.tidy;
}
  where
    inside : n < length reg.slots
    inside = lt_of_held reg.slots n e

    pushed : free (removed reg n) ≡ pos n ∷ free reg
    pushed =
        stack-set reg.available_indices (count reg.top) (pos n)
          (omega (arith, v.array, in_flight-room reg n v e))
