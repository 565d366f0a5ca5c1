-- ===== src/Loop/Tests.antt =====
-- Rounds and the end of the loop at concrete data.
use mathlib.Core.List.{Mem, mem-cons, not-mem-nil}
use mathlib.Core.List.Perm
use mathlib.Core.Logic.Or
use native.Mathlib.Bridge.{le_prop}
use mathlib.Core.Bool.{Bool-set}
use uringio.Base.{
  ℕ, ◌-◌, ◌*◌, ◌≤◌, ◌==◌, ◌≡◌, refl, pos, true, false, Option, none, some, List, [], ◌∷◌, ltb, leb,
  ap, if◌then◌else◌, arith,
}
use uringio.Enums.{oneshot, Opcode}
use uringio.Ring.{wakeup_fd_tag}
use uringio.Registry
use uringio.Registry.{Request, RequestRegistry, registry_add}
use uringio.Registry.Invariant.{IsValid, fresh-IsValid, add-IsValid}
use uringio.Loop.{
  Heapq, Queues, promote_scheduled, Doubles, compute_timeout, Callbacks, Round, drain_ready,
  graceful_shutdown,
}
use uringio.Loop.Timers.{
  IsHeapq, Promoted, promote_scheduled-Promoted, IsDoubles, IsShort, compute_timeout-IsShort,
}
use uringio.Loop.Ready.{one_round, drain_ready-one_round}
use uringio.Loop.Shutdown.{
  Arrivals, no_more, wakeup, request, futures, ShutDown, graceful_shutdown-ShutDown,
}

-- Timers are their times, in a sorted list; those from 10 on are late.
abbrev pop_first : List ℕ → Option (ℕ × List ℕ)
pop_first [] = none
pop_first (x ∷ xs) = some (x, xs)

abbrev sorted : Heapq
sorted = record { heappop = pop_first; is_late = λ x. leb 10 x }

abbrev Ascending : List ℕ → Type 0
Ascending [] = Unit
Ascending (x ∷ xs) = ((y : ℕ) → Mem y xs → x ≤ y) × Ascending xs

sorted-IsHeapq : IsHeapq sorted Ascending
sorted-IsHeapq = record {
  pops = λ x xs h. (xs, refl, Perm.refl xs, refl, h.1);
  earliest = λ x y xs h late m.
      Or.elim (Bool-set (leb 10 y) true) (mem-cons.0 m) (λ e. rw e late)
        (λ k. ground (arith, h.0 y k));
}

abbrev queues : Queues
queues = record { ready = 50 ∷ []; scheduled = 3 ∷ 12 ∷ []; unmarked = [] }

queues-Ascending : Ascending queues.scheduled
queues-Ascending = (
  λ y m. Or.elim le_prop (mem-cons.0 m) (λ e. omega (arith, e)) (λ k. absurd (not-mem-nil k)),
  (λ y m. absurd (not-mem-nil m), tt),
)

promote_scheduled_runs :
    promote_scheduled sorted queues
    ≡ some (record { ready = 50 ∷ 3 ∷ []; scheduled = 12 ∷ []; unmarked = 3 ∷ [] })
unfolding promote_scheduled
promote_scheduled_runs = refl

promote_scheduled-Promoted_example : Promoted sorted queues (promote_scheduled sorted queues)
promote_scheduled-Promoted_example =
    promote_scheduled-Promoted sorted Ascending sorted-IsHeapq queues queues-Ascending

-- Whole seconds in place of doubles.
abbrev seconds : Doubles
seconds = record {
  Double = ℕ;
  lt = ltb;
  sub = λ a b. a - b;
  times_1e9 = λ a. 1000000000 * a;
  to_long = pos;
  zero = 0;
  day = 86400;
}

seconds-IsDoubles : IsDoubles seconds
seconds-IsDoubles = record {
  irreflexive = λ x. ground arith;
  zero_day = refl;
  long_between = λ x low high. (ground arith, ground arith);
  long_of_difference = λ x. ap pos (omega arith);
}

compute_timeout-IsShort_example :
    IsShort (compute_timeout seconds [] false (7 ∷ []) (some (100000, 5)))
compute_timeout-IsShort_example =
    compute_timeout-IsShort seconds seconds-IsDoubles [] false (7 ∷ []) (some (100000, 5))

-- The handle 2 is cancelled once 1 ran, which calls 9 soon.
abbrev callbacks : Callbacks
callbacks = record {
  is_cancelled = λ h ran. elim ran [ [] ↦ false | x ∷ xs ↦ h == 2 ];
  calls_soon = λ h ran. if h == 1 then 9 ∷ [] else [];
}

abbrev round : Round
round = record { ready = 1 ∷ 2 ∷ 3 ∷ []; ran = [] }

drain_ready_runs : drain_ready callbacks round ≡ record { ready = 9 ∷ []; ran = 3 ∷ 1 ∷ [] }
unfolding drain_ready
drain_ready_runs = refl

drain_ready-one_round_example :
    drain_ready callbacks round ≡ one_round callbacks (1 ∷ 2 ∷ 3 ∷ []) [] []
drain_ready-one_round_example = drain_ready-one_round callbacks round

abbrev waiting : Request
waiting = record {
  future = 9;
  buffer_payload = none;
  stream_strategy = oneshot;
  opcode = Opcode.fsync;
  file = some 8;
  socket = none;
  sockaddr = none;
  msghdr = none;
}

abbrev registry : RequestRegistry
registry = (registry_add (Registry.fresh 2) waiting).1

registry-IsValid : IsValid registry
registry-IsValid =
    add-IsValid (Registry.fresh 2) waiting (fresh-IsValid 2 (omega arith) (omega arith))

-- The wakeup read completes, and the request.
arrivals : Arrivals (wakeup_fd_tag ∷ 1 ∷ []) registry
unfolding registry_add Registry.fresh
arrivals = wakeup (request 1 refl no_more)

graceful_shutdown-ShutDown_example :
    ShutDown registry
      (futures (λ fs. true) arrivals [])
      (graceful_shutdown (λ fs. true) (wakeup_fd_tag ∷ 1 ∷ []) registry)
graceful_shutdown-ShutDown_example =
    graceful_shutdown-ShutDown (λ fs. true) (wakeup_fd_tag ∷ 1 ∷ []) registry arrivals
      registry-IsValid
