-- ===== src/Base/Stack.antt =====
-- An array of `int`s used as a stack up to the index `top`, which is -1 for an empty stack: the
-- shape of `available_indices` in the two registries.
use Prim.Native.Nat.{ℕ, zero, suc, ◌+◌, ◌≤◌, ◌<◌}
use mathlib.Core.Path.{◌≡◌, refl, ap, ap₂, ◌∙◌}
use mathlib.Core.List.{List, [], ◌∷◌, Mem, Nodup, Nodup-cons, Nodup-nil, mem-cons, not-mem-nil}
use mathlib.Core.Logic.Or
use mathlib.Core.Bool.{false}
use mathlib.Core.HLevel.{⊥_prop}
use native.Mathlib.Bridge.{le_prop}
use native.Mathlib.Omega.{arith}
use uringio.Base.Lists.{length, get_or, set, get_or-set_self, get_or-set_ne}
use uringio.Base.Int.{ℤ, pos, negsuc, is_neg, pos_part, pred_ℤ}

-- How many entries are in use.
abbrev pub count : ℤ → ℕ
count (pos n) = suc n
count (negsuc n) = 0

-- The first `n` entries, the last one first. Entries past the array are read as -1.
abbrev pub stack : List ℤ → ℕ → List ℤ
stack xs zero = []
stack xs (suc n) = get_or xs n (negsuc 0) ∷ stack xs n

pub length-stack : (xs : List ℤ) (n : ℕ) → length (stack xs n) ≡ n
length-stack xs zero = refl
length-stack xs (suc n) = ap suc (length-stack xs n)

-- A write at or above the height does not show.
stack-set_ge : (xs : List ℤ) (n i : ℕ) (v : ℤ) → n ≤ i → stack (set xs i v) n ≡ stack xs n
stack-set_ge xs zero i v h = refl
stack-set_ge xs (suc n) i v h =
    ap₂ ◌∷◌ (get_or-set_ne xs i n v (negsuc 0) (omega arith)) (stack-set_ge xs n i v (omega arith))

-- A write at the height pushes.
pub stack-set :
    (xs : List ℤ) (n : ℕ) (v : ℤ) → n < length xs → stack (set xs n v) (suc n) ≡ v ∷ stack xs n
stack-set xs n v h =
    ap₂ ◌∷◌ (get_or-set_self xs n v (negsuc 0) h) (stack-set_ge xs n n v (omega arith))

-- `for (i = 0; i < n; i++) available[i] = i`, from `i` on, for `n` rounds
abbrev pub indices_from : ℕ → ℕ → List ℤ
indices_from i zero = []
indices_from i (suc n) = pos i ∷ indices_from (suc i) n

pub length-indices : (i n : ℕ) → length (indices_from i n) ≡ n
length-indices i zero = refl
length-indices i (suc n) = ap suc (length-indices (suc i) n)

pub get_or-indices : (i n k : ℕ) (d : ℤ) → k < n → get_or (indices_from i n) k d ≡ pos (k + i)
get_or-indices i zero k d h = absurd (omega arith)
get_or-indices i (suc n) zero d h = ap pos (omega arith)
get_or-indices i (suc n) (suc k) d h =
    get_or-indices (suc i) n k d (omega arith) ∙ ap pos (omega arith)

-- n - 1, …, 1, 0
abbrev pub countdown : ℕ → List ℤ
countdown zero = []
countdown (suc n) = pos n ∷ countdown n

pub stack-indices : (n m : ℕ) → m ≤ n → stack (indices_from 0 n) m ≡ countdown m
stack-indices n zero h = refl
stack-indices n (suc m) h = ground (arith, get_or-indices 0 n m (negsuc 0), stack-indices n m)

pub length-countdown : (n : ℕ) → length (countdown n) ≡ n
length-countdown zero = refl
length-countdown (suc n) = ap suc (length-countdown n)

pub mem-countdown : (n k : ℕ) → Mem (pos k) (countdown n) → k < n
mem-countdown zero k m = absurd (not-mem-nil m)
mem-countdown (suc n) k m =
    Or.elim le_prop (mem-cons.0 m) (λ e. ground arith) (λ r. omega (arith, mem-countdown n k r))

pub countdown-Nodup : (n : ℕ) → Nodup (countdown n)
countdown-Nodup zero = Nodup-nil
countdown-Nodup (suc n) = Nodup-cons.1 (λ m. omega (arith, mem-countdown n n m), countdown-Nodup n)

pub not-mem-countdown : (n k : ℕ) → ¬ Mem (negsuc k) (countdown n)
not-mem-countdown zero k m = not-mem-nil m
not-mem-countdown (suc n) k m = Or.elim ⊥_prop (mem-cons.0 m) (λ e. cc) (not-mem-countdown n k)

-- Below the top of a stack that is not empty.
pub stack-pred :
    (xs : List ℤ) (top : ℤ)
    → is_neg top ≡ false
    → stack xs (count top) ≡ get_or xs (pos_part top) (negsuc 0) ∷ stack xs (count (pred_ℤ top))
stack-pred xs (negsuc n) h = cc
stack-pred xs (pos zero) h = refl
stack-pred xs (pos (suc n)) h = ground arith
