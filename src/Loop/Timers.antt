-- ===== src/Loop/Timers.antt =====
-- Timers that are due become ready, and how long a round waits.
use mathlib.Core.List.{Perm, Mem, mem-cons, not-mem-nil, append_assoc, append-nil}
use mathlib.Core.Logic.Or
use mathlib.Core.Bool.{Bool-set}
use mathlib.Core.List.Perm
use uringio.Base.{
  ℕ, zero, suc, ◌<◌, pos, ◌≡◌, refl, sym, ap₂, ◌∙◌, Bool, true, false, Bool-cases, inl, inr, Option,
  none, some, List, [], ◌∷◌, ◌++◌, length, leb_ℤ, arith,
}
use uringio.Uring.{Timespec}
use uringio.Loop.{
  Heapq, Queues, promote, promote_scheduled, Doubles, clamped, at_least_zero, compute_timeout,
}

-- Documented of `heapq`, on a list that is a heap by the timers' times: the first timer is the
-- earliest, and `heappop` answers it and leaves the others as a heap.
pub record IsHeapq (t : Heapq) (IsHeap : List ℕ → Type 0) : Type 0 where
  pub pops :
      (x : ℕ) (xs : List ℕ)
      → IsHeap (x ∷ xs)
      → (rest : List ℕ) × (t.heappop (x ∷ xs) ≡ some (x, rest))
        × Perm xs rest
        × (length rest ≡ length xs)
        × IsHeap rest
  pub earliest :
      (x y : ℕ) (xs : List ℕ)
      → IsHeap (x ∷ xs)
      → t.is_late x ≡ true
      → Mem y (x ∷ xs)
      → t.is_late y ≡ true

-- The timers that were scheduled are those that became ready, all due and marked as not scheduled,
-- and those still scheduled, all late.
pub record Promoted (t : Heapq) (q : Queues) (out : Option Queues) : Type 0 where
  pub due : List ℕ
  pub rest : List ℕ
  pub ends :
      out ≡ some (record { ready = q.ready ++ due; scheduled = rest; unmarked = q.unmarked ++ due })
  pub same : Perm q.scheduled (due ++ rest)
  pub are_due : (y : ℕ) → Mem y due → t.is_late y ≡ false
  pub are_late : (y : ℕ) → Mem y rest → t.is_late y ≡ true

module _ (t : Heapq) (IsHeap : List ℕ → Type 0) (law : IsHeapq t IsHeap) where
  promote-Promoted :
      (fuel : ℕ) (ready scheduled marks : List ℕ)
      → length scheduled < fuel
      → IsHeap scheduled
      → Promoted t
          (record { ready = ready; scheduled = scheduled; unmarked = marks })
          (promote t fuel (record { ready = ready; scheduled = scheduled; unmarked = marks }))
  unfolding promote
  promote-Promoted zero ready scheduled marks l h = absurd (omega arith)
  promote-Promoted (suc fuel) ready [] marks l h = record {
    due = [];
    rest = [];
    ends =
        ap₂ (λ r m. some (record { ready = r; scheduled = []; unmarked = m }))
          (sym (append-nil ready)) (sym (append-nil marks));
    same = Perm.refl [];
    are_due = λ y m. absurd (not-mem-nil m);
    are_late = λ y m. absurd (not-mem-nil m);
  }
  promote-Promoted (suc fuel) ready (x ∷ xs) marks l h =
      let (rest, e, same, len, h') = law.pops x xs h in
      first (t.is_late x) refl rest e same
        (promote-Promoted fuel (ready ++ (x ∷ [])) rest (marks ++ (x ∷ [])) (omega (arith, len)) h')
    where
      stopped :
          t.is_late x ≡ true
          → promote t (suc fuel) (record { ready = ready; scheduled = x ∷ xs; unmarked = marks })
            ≡ some (record { ready = ready; scheduled = x ∷ xs; unmarked = marks })
      stopped late = rw (promote, late) refl

      goes_on :
          t.is_late x ≡ false
          → (rest : List ℕ) → t.heappop (x ∷ xs) ≡ some (x, rest)
          → promote t (suc fuel) (record { ready = ready; scheduled = x ∷ xs; unmarked = marks })
            ≡ promote t fuel (record {
              ready = ready ++ (x ∷ []);
              scheduled = rest;
              unmarked = marks ++ (x ∷ []);
            })
      goes_on due rest e = rw (promote, due, e) refl

      first :
          (b : Bool)
          → t.is_late x ≡ b
          → (rest : List ℕ) → t.heappop (x ∷ xs) ≡ some (x, rest)
          → Perm xs rest
          → Promoted t
              (record { ready = ready ++ (x ∷ []); scheduled = rest; unmarked = marks ++ (x ∷ []) })
              (promote t fuel (record {
                ready = ready ++ (x ∷ []);
                scheduled = rest;
                unmarked = marks ++ (x ∷ []);
              }))
          → Promoted t
              (record { ready = ready; scheduled = x ∷ xs; unmarked = marks })
              (promote t
                (suc fuel)
                (record { ready = ready; scheduled = x ∷ xs; unmarked = marks }))
      first true late rest e same next = rw (stopped late) (record {
        due = [];
        rest = x ∷ xs;
        ends =
            ap₂ (λ r m. some (record { ready = r; scheduled = x ∷ xs; unmarked = m }))
              (sym (append-nil ready)) (sym (append-nil marks));
        same = Perm.refl (x ∷ xs);
        are_due = λ y m. absurd (not-mem-nil m);
        are_late = λ y m. law.earliest x y xs h late m;
      })
      first false due rest e same next = rw (goes_on due rest e) (record {
        due = x ∷ next.due;
        rest = next.rest;
        ends =
            next.ends
            ∙ ap₂ (λ r m. some (record { ready = r; scheduled = next.rest; unmarked = m }))
                (append_assoc ready (x ∷ []) next.due) (append_assoc marks (x ∷ []) next.due);
        same = Perm.cons x (Perm.trans same next.same);
        are_due = λ y m.
            Or.elim (Bool-set (t.is_late y) false) (mem-cons.0 m) (λ e. rw e due) (next.are_due y);
        are_late = next.are_late;
      })

  -- `promote_scheduled`, when `_scheduled` is a heap: the loop ends; the timers that were scheduled
  -- are those that it appends to `_ready` and marks as not scheduled, each of them due, with those
  -- that it leaves, each of them late.
  pub promote_scheduled-Promoted :
      (q : Queues) → IsHeap q.scheduled → Promoted t q (promote_scheduled t q)
  unfolding promote_scheduled
  promote_scheduled-Promoted q h =
      promote-Promoted (suc (length q.scheduled)) q.ready q.scheduled q.unmarked (omega arith) h

-- Documented of doubles, none of them a NaN or infinite: the comparisons of a double with itself
-- and of the constants, the conversion of a double between 0 and 86400, and that a difference of
-- equals is 0.
pub record IsDoubles (d : Doubles) : Type 0 where
  pub irreflexive : (x : d.Double) → d.lt x x ≡ false
  pub zero_day : d.lt d.day d.zero ≡ false
  pub long_between :
      (x : d.Double)
      → d.lt x d.zero ≡ false
      → d.lt d.day x ≡ false
      → (leb_ℤ (pos 0) (d.to_long x) ≡ true) × (leb_ℤ (d.to_long x) (pos 86400) ≡ true)
  pub long_of_difference : (x : d.Double) → d.to_long (d.times_1e9 (d.sub x x)) ≡ pos 0

-- A timeout between no wait and a day, without a part of a second.
pub record IsShort (ts : Timespec) : Type 0 where
  pub not_negative : leb_ℤ (pos 0) ts.tv_sec ≡ true
  pub not_long : leb_ℤ ts.tv_sec (pos 86400) ≡ true
  pub whole : ts.tv_nsec ≡ pos 0

module _ (d : Doubles) (law : IsDoubles d) where
  clamped_zero : (x : d.Double) → d.lt (clamped d x) d.zero ≡ false
  clamped_zero x = elim (Bool-cases (d.lt x d.zero)) [
    | inl low ↦ rw (low, law.zero_day) (law.irreflexive d.zero)
    | inr high ↦ elim (Bool-cases (d.lt d.day x)) [
      | inl long ↦ rw (high, long) law.zero_day
      | inr short ↦ rw (high, short) high
    ]
  ]

  clamped_day : (x : d.Double) → d.lt d.day (clamped d x) ≡ false
  clamped_day x = elim (Bool-cases (d.lt d.day (at_least_zero d x))) [
    | inl long ↦ rw long (law.irreflexive d.day)
    | inr short ↦ rw short short
  ]

  -- `compute_timeout`, in every case: the timeout is at least 0 and at most a day, and a whole
  -- number of seconds. The part below a second of the time until the first timer is always lost.
  pub compute_timeout-IsShort :
      (ready : List ℕ) (is_stopping : Bool) (scheduled : List ℕ)
      (times : Option (d.Double × d.Double))
      → IsShort (compute_timeout d ready is_stopping scheduled times)
  unfolding compute_timeout
  compute_timeout-IsShort [] false (x ∷ xs) none = record {
    not_negative = refl;
    not_long = refl;
    whole = refl;
  }
  compute_timeout-IsShort [] false (x ∷ xs) (some (when, now)) =
      let (low, high) =
        law.long_between (clamped d (d.sub when now)) (clamped_zero _) (clamped_day _) in
      record { not_negative = low; not_long = high; whole = law.long_of_difference _ }
  compute_timeout-IsShort [] false [] times = record {
    not_negative = refl;
    not_long = refl;
    whole = refl;
  }
  compute_timeout-IsShort [] true scheduled times = record {
    not_negative = refl;
    not_long = refl;
    whole = refl;
  }
  compute_timeout-IsShort (y ∷ ys) is_stopping scheduled times = record {
    not_negative = refl;
    not_long = refl;
    whole = refl;
  }
