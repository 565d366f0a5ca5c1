-- ===== src/Loop.antt =====
-- src/python_api/loop/helpers.c and src/python_api/loop/shutdown.c: one round of the event loop,
-- and its end. Handles are objects by their addresses; asyncio, heapq and C's doubles are
-- parameters. The attributes that a function reads first are taken to be there; without one it
-- returns at once.
use uringio.Base.{
  ℕ, zero, suc, ◌==◌, ◌||◌, ℤ, pos, to_int, Bool, true, false, Option, none, some, List, [], ◌∷◌,
  ◌++◌, length, if◌then◌else◌,
}
use uringio.Uring.{Timespec}
use uringio.Ring.{wakeup_fd_tag}
use uringio.Registry.{
  RequestSlot, RequestRegistry, Effect, registry_get, registry_remove, registry_destroy,
}
mod Timers
mod Ready
mod Shutdown
mod Tests

-- C's doubles and the conversion `(long)`, on the numbers that the loop meets.
pub record Doubles : Type 1 where
  pub Double : Type 0
  pub lt : Double → Double → Bool
  pub sub : Double → Double → Double
  pub times_1e9 : Double → Double
  pub to_long : Double → ℤ
  pub zero : Double
  pub day : Double

module _ (d : Doubles) where
  -- `if (delay < 0) delay = 0; if (delay > 86400) delay = 86400;`
  abbrev pub at_least_zero : d.Double → d.Double
  at_least_zero delay = if d.lt delay d.zero then d.zero else delay

  abbrev pub at_most_day : d.Double → d.Double
  at_most_day delay = if d.lt d.day delay then d.day else delay

  abbrev pub clamped : d.Double → d.Double
  clamped delay = at_most_day (at_least_zero delay)

  abbrev pub timespec_of_delay : d.Double → Timespec
  timespec_of_delay delay = record {
    tv_sec = d.to_long delay;
    tv_nsec = d.to_long (d.times_1e9 (d.sub delay delay));
  }

  abbrev pub no_wait : Timespec
  no_wait = record { tv_sec = pos 0; tv_nsec = pos 0 }

  -- The time of the first timer, when there is one. `none` is a failure of the attribute or of
  -- `time`.
  abbrev pub until_first : Option (d.Double × d.Double) → Timespec
  until_first none = no_wait
  until_first (some (when, now)) = timespec_of_delay (clamped (d.sub when now))

  -- The queue of ready handles, `_stopping`, the scheduled timers, and the first one's time with
  -- the loop's.
  unfoldable pub compute_timeout :
      (ready : List ℕ) (is_stopping : Bool) (scheduled : List ℕ)
      → Option (d.Double × d.Double)
      → Timespec
  compute_timeout [] false (timer ∷ scheduled) times = until_first times
  compute_timeout [] false [] times = record { tv_sec = pos 86400; tv_nsec = pos 0 }
  compute_timeout ready is_stopping scheduled times = no_wait

-- asyncio's timers: the heap of `heapq`, whose `heappop` answers `none` on an exception, and the
-- test `when >= end_time` for the time at which a timer is due, which holds too when it has no
-- time.
pub record Heapq : Type 0 where
  pub heappop : List ℕ → Option (ℕ × List ℕ)
  pub is_late : ℕ → Bool

-- `_ready` and `_scheduled`, and the handles whose `_scheduled` was set to False.
pub record Queues : Type 0 where
  pub ready : List ℕ
  pub scheduled : List ℕ
  pub unmarked : List ℕ

module _ (t : Heapq) where
  abbrev pub popped : Queues → Option (ℕ × List ℕ) → Option Queues
  popped q none = none
  popped q (some (handle, scheduled)) = some (record {
    ready = q.ready ++ (handle ∷ []);
    scheduled = scheduled;
    unmarked = q.unmarked ++ (handle ∷ []);
  })

  -- The test of the loop and its body; `none` is `break`.
  abbrev pub promote_first : Queues → Option Queues
  promote_first q = elim q.scheduled [
    | [] ↦ none
    | handle ∷ rest ↦ if t.is_late handle then none else popped q (t.heappop (handle ∷ rest))
  ]

  -- The loop with `fuel` rounds, `none` when they do not do.
  unfoldable pub promote : (fuel : ℕ) → Queues → Option Queues
  promote zero q = none
  promote (suc fuel) q = elim (promote_first q) [ none ↦ some q | some q' ↦ promote fuel q' ]

  unfoldable pub promote_scheduled : Queues → Option Queues
  unfolding promote
  promote_scheduled q = promote (suc (length q.scheduled)) q

-- What callbacks do to the loop, after those that ran so far, newest first: whether a handle is
-- cancelled, and the handles that a run of it appends to `_ready`.
pub record Callbacks : Type 0 where
  pub is_cancelled : (handle : ℕ) → (ran : List ℕ) → Bool
  pub calls_soon : (handle : ℕ) → (ran : List ℕ) → List ℕ

pub record Round : Type 0 where
  pub ready : List ℕ
  pub ran : List ℕ

module _ (c : Callbacks) where
  -- `popleft`, and the run of the handle unless it is cancelled.
  abbrev pub run_handle : ℕ → Round → Round
  run_handle handle r =
      if c.is_cancelled handle r.ran
      then r
      else record { ready = r.ready ++ c.calls_soon handle r.ran; ran = handle ∷ r.ran }

  -- The loop of `ntodo` rounds, which an empty queue ends.
  unfoldable pub drain : (ntodo : ℕ) → Round → Round
  drain zero r = r
  drain (suc ntodo) r = elim r.ready [
    | [] ↦ r
    | handle ∷ rest ↦ drain ntodo (run_handle handle (record r { ready = rest }))
  ]

  unfoldable pub drain_ready : Round → Round
  unfolding drain
  drain_ready r = drain (length r.ready) r

-- The futures that got the exception `Event loop is closed`, newest first, and the effects on
-- objects and memory, in order.
pub record Closing : Type 0 where
  pub registry : RequestRegistry
  pub closed : List ℕ
  pub effects : List Effect

-- Whether the exception for the next future can be made, after those that got theirs.
module _ (can_raise : List ℕ → Bool) where
  abbrev pub closed_future : Option ℕ → List ℕ → List ℕ
  closed_future none fs = fs
  closed_future (some f) fs = if can_raise fs then f ∷ fs else fs

  abbrev pub close_removed :
      Closing → RequestSlot → Option (RequestRegistry × List Effect) → Option Closing
  close_removed s slot none = none
  close_removed s slot (some (reg, es)) = some (record {
    registry = reg;
    closed = closed_future slot.future s.closed;
    effects = s.effects ++ es;
  })

  -- A completion by its index, in range or not.
  abbrev pub close_slot : Closing → ℤ → Option RequestSlot → Option Closing
  close_slot s index none = some s
  close_slot s index (some slot) = close_removed s slot (registry_remove s.registry index)

  -- The completion with the given user data, `none` for a call of `abort`.
  unfoldable pub close_request : (user_data : ℕ) → Closing → Option Closing
  unfolding registry_get registry_remove
  close_request user_data s =
      if user_data == wakeup_fd_tag
      then some s
      else close_slot s (to_int user_data) (registry_get s.registry (to_int user_data))

  -- The loop over the completions that arrive before `io_uring_wait_cqe_timeout` times out.
  unfoldable pub close_requests : List ℕ → Closing → Option Closing
  unfolding close_request
  close_requests [] s = some s
  close_requests (x ∷ xs) s = elim (close_request x s) [
    | none ↦ none
    | some s' ↦ close_requests xs s'
  ]

  abbrev pub destroyed : Option Closing → Option (List ℕ × List Effect)
  destroyed none = none
  destroyed (some s) = some (s.closed, s.effects ++ registry_destroy (some s.registry))

  -- The futures that got the exception, and the effects, up to the destruction of the registry; the
  -- context variable and the ring come after.
  unfoldable pub graceful_shutdown : List ℕ → RequestRegistry → Option (List ℕ × List Effect)
  unfolding close_requests registry_destroy
  graceful_shutdown arrived reg =
      destroyed (close_requests arrived (record { registry = reg; closed = []; effects = [] }))
