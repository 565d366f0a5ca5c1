-- ===== src/Reader/Stale.antt =====
-- Completions that no request waits for.
use uringio.Base.{ℕ, ◌≡◌, refl, ℤ, ◌∷◌}
use uringio.Ring.{wakeup_fd_tag}
use uringio.Reader.State.{Cqe, seen, Env, UringioLoop, ok}
use uringio.Reader.Ready.{on_slot, on_cqe}

-- The state in which nothing but the acknowledgement of the completion happened.
abbrev pub only_seen : Cqe → UringioLoop → UringioLoop
only_seen cqe s = record s { events = seen cqe ∷ s.events }

-- The completion of the wakeup descriptor's read, whatever its result, is acknowledged like one
-- that no request waits for: nothing is read from the descriptor, and no new read of it is queued.
pub on_cqe-wakeup :
    (env : Env) (res : ℤ) (flags : ℕ) (s : UringioLoop)
    → let cqe : Cqe = record { user_data = wakeup_fd_tag; res = res; flags = flags } in
      on_cqe env cqe s ≡ ok (tt, only_seen cqe s)
unfolding on_cqe on_slot
on_cqe-wakeup env res flags s = refl
