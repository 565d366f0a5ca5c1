-- ===== src/Loop/Ready.antt =====
-- A round runs the handles that were ready when it began.
use mathlib.Core.List.{append_assoc, append-nil}
use uringio.Base.{ℕ, ◌≡◌, refl, true, false, List, [], ◌∷◌, ◌++◌, length, if◌then◌else◌}
use uringio.Loop.{Callbacks, Round, drain, drain_ready}

module _ (c : Callbacks) where
  -- The handles of one queue, one after the other: those that ran, after `ran`, and those that were
  -- called soon.
  unfoldable pub one_round : (queue : List ℕ) → (ran called : List ℕ) → Round
  one_round [] ran called = record { ready = called; ran = ran }
  one_round (h ∷ queue) ran called =
      if c.is_cancelled h ran
      then one_round queue ran called
      else one_round queue (h ∷ ran) (called ++ c.calls_soon h ran)

  drain-one_round :
      (queue ran called : List ℕ)
      → drain c (length queue) (record { ready = queue ++ called; ran = ran })
        ≡ one_round queue ran called
  unfolding drain one_round
  drain-one_round [] ran called = refl
  drain-one_round (h ∷ queue) ran called =
      elim (c.is_cancelled h ran)
        as (λ b.
          drain c (length queue) (
            if b
            then record { ready = queue ++ called; ran = ran }
            else record { ready = (queue ++ called) ++ c.calls_soon h ran; ran = h ∷ ran })
          ≡ (if b
              then one_round queue ran called
              else one_round queue (h ∷ ran) (called ++ c.calls_soon h ran))) [
                | true ↦ drain-one_round queue ran called
                | false ↦
                    rw (append_assoc queue called (c.calls_soon h ran))
                      (drain-one_round queue (h ∷ ran) (called ++ c.calls_soon h ran))
              ]

  -- `drain_ready`, whatever the callbacks do: it runs each handle that was ready when it began, in
  -- order and unless it is cancelled by then, and no other; the handles that the callbacks call
  -- soon wait in the queue, in order.
  pub drain_ready-one_round : (r : Round) → drain_ready c r ≡ one_round r.ready r.ran []
  unfolding drain_ready
  drain_ready-one_round r = rw (append-nil r.ready) at (drain-one_round r.ready r.ran [])
