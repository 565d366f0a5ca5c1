-- ===== src/Registry/Busy.antt =====
-- The slots that hold a request in flight.
use mathlib.Core.List.{Mem, mem-cons, Perm}
use mathlib.Core.List.Perm
use mathlib.Core.Logic.Or
use uringio.Base.{
  ℕ, zero, suc, ◌+◌, ◌<◌, ◌≡◌, refl, inl, inr, ℤ, pos, true, false, is_some, List, [], ◌∷◌, length,
  get_or, set, replicate, arith, if◌then◌else◌, Bool-cases,
}
use uringio.Registry.{RequestSlot, zero_slot}

-- The indices of the slots that hold a request, counted from `i`.
abbrev pub busy_from : ℕ → List RequestSlot → List ℤ
busy_from i [] = []
busy_from i (slot ∷ slots) =
    if is_some slot.future then pos i ∷ busy_from (suc i) slots else busy_from (suc i) slots

-- A slot that begins, or ends, to hold a request.
pub busy-fill :
    (i n : ℕ) (slots : List RequestSlot) (k : ℕ) (slot : RequestSlot)
    → n ≡ k + i
    → k < length slots
    → is_some (get_or slots k zero_slot).future ≡ false
    → is_some slot.future ≡ true
    → Perm (busy_from i (set slots k slot)) (pos n ∷ busy_from i slots)
busy-fill i n [] k slot q h e f = absurd (omega arith)
busy-fill i n (s ∷ slots) zero slot q h e f =
    let q' : n ≡ i = omega arith in rw (f, e, q') (Perm.refl (pos i ∷ busy_from (suc i) slots))
busy-fill i n (s ∷ slots) (suc k) slot q h e f =
    let rest = busy-fill (suc i) n slots k slot (omega arith) (omega arith) e f in
    elim (Bool-cases (is_some s.future)) [
      | inl held ↦ rw held (
          Perm.trans (Perm.cons (pos i) rest) (Perm.swap (pos n) (pos i) (busy_from (suc i) slots)))
      | inr idle ↦ rw idle rest
    ]

pub busy-clear :
    (i n : ℕ) (slots : List RequestSlot) (k : ℕ) (slot : RequestSlot)
    → n ≡ k + i
    → k < length slots
    → is_some (get_or slots k zero_slot).future ≡ true
    → is_some slot.future ≡ false
    → Perm (busy_from i slots) (pos n ∷ busy_from i (set slots k slot))
busy-clear i n [] k slot q h e f = absurd (omega arith)
busy-clear i n (s ∷ slots) zero slot q h e f =
    let q' : n ≡ i = omega arith in rw (f, e, q') (Perm.refl (pos i ∷ busy_from (suc i) slots))
busy-clear i n (s ∷ slots) (suc k) slot q h e f =
    let rest = busy-clear (suc i) n slots k slot (omega arith) (omega arith) e f in
    elim (Bool-cases (is_some s.future)) [
      | inl held ↦ rw held (
          Perm.trans (Perm.cons (pos i) rest)
            (Perm.swap (pos n) (pos i) (busy_from (suc i) (set slots k slot))))
      | inr idle ↦ rw idle rest
    ]

pub length-busy_fill :
    (i : ℕ) (slots : List RequestSlot) (k : ℕ) (slot : RequestSlot)
    → k < length slots
    → is_some (get_or slots k zero_slot).future ≡ false
    → is_some slot.future ≡ true
    → length (busy_from i (set slots k slot)) ≡ suc (length (busy_from i slots))
length-busy_fill i [] k slot h e f = absurd (omega arith)
length-busy_fill i (s ∷ slots) zero slot h e f = rw (f, e)
length-busy_fill i (s ∷ slots) (suc k) slot h e f =
    ground (arith, length-busy_fill (suc i) slots k slot (omega arith) e f)

pub length-busy_clear :
    (i : ℕ) (slots : List RequestSlot) (k : ℕ) (slot : RequestSlot)
    → k < length slots
    → is_some (get_or slots k zero_slot).future ≡ true
    → is_some slot.future ≡ false
    → suc (length (busy_from i (set slots k slot))) ≡ length (busy_from i slots)
length-busy_clear i [] k slot h e f = absurd (omega arith)
length-busy_clear i (s ∷ slots) zero slot h e f = rw (f, e)
length-busy_clear i (s ∷ slots) (suc k) slot h e f =
    ground (arith, length-busy_clear (suc i) slots k slot (omega arith) e f)

-- A slot that holds a request is among the busy ones.
pub mem-busy :
    (i n : ℕ) (slots : List RequestSlot) (k : ℕ)
    → n ≡ k + i
    → is_some (get_or slots k zero_slot).future ≡ true
    → Mem (pos n) (busy_from i slots)
mem-busy i n [] k q e = cc
mem-busy i n (s ∷ slots) zero q e =
    let q' : n ≡ i = omega arith in rw (e, q') (mem-cons.1 (Or.inl refl))
mem-busy i n (s ∷ slots) (suc k) q e =
    let rest = mem-busy (suc i) n slots k (omega arith) e in
    elim (Bool-cases (is_some s.future)) [
      | inl held ↦ rw held (mem-cons.1 (Or.inr rest))
      | inr idle ↦ rw idle rest
    ]

pub busy-replicate : (i n : ℕ) → busy_from i (replicate n zero_slot) ≡ []
busy-replicate i zero = refl
busy-replicate i (suc n) = busy-replicate (suc i) n
