-- ===== src/Reader/Failure.antt =====
-- A completion that reports an error.
use uringio.Base.{ℕ, ◌≡◌, refl, ◌∙◌, ap, pos, negate, true, some, ◌∷◌}
use uringio.Registry.{decref}
use uringio.Registry.Invariant.{slot}
use uringio.Registry.InFlight.{Removed, removed-Removed}
use uringio.Reader.State.{Cqe, new_error, set_exception, effect, seen, Env, UringioLoop, ok}
use uringio.Reader.Ready.{raise_in, fail_future, is_failure, fail_request, on_request, on_cqe}
use uringio.Reader.Events.{verdicts, acknowledged}
use uringio.Reader.Removal.{PayloadThere, remove-Gone}
use uringio.Reader.Found.{Awaited, on_cqe-on_request}

-- The state once the future has its exception.
abbrev raised : Cqe → ℕ → ℕ → UringioLoop → UringioLoop
raised cqe f exc s = record s {
  events = effect (decref exc) ∷ set_exception f exc ∷ new_error (negate cqe.res) ∷ s.events;
}

-- The loop after the request in slot `n` failed with the exception `exc` for the future `f`.
pub record Failed (s : UringioLoop) (n f exc : ℕ) (cqe : Cqe) (s' : UringioLoop) : Type 0 where
  pub told : verdicts s'.events ≡ set_exception f exc ∷ verdicts s.events
  pub acknowledged : acknowledged s'.events ≡ cqe ∷ acknowledged s.events
  pub gone : Removed s.registry n s'.registry
  pub pools : s'.pools ≡ s.pools

fail_request-Failed :
    (env : Env) (s : UringioLoop) (n f exc : ℕ) (cqe : Cqe)
    → Awaited s n f cqe
    → PayloadThere s (slot s.registry n).buffer_payload
    → env.new_object s.events ≡ some exc
    → (s' : UringioLoop) × (fail_request env (pos n) cqe f s ≡ ok (tt, s'))
      × Failed s n f exc cqe s'
unfolding fail_request fail_future raise_in
fail_request-Failed env s n f exc cqe a there made =
    let (s', e, g) = remove-Gone (raised cqe f exc s) n f a.valid a.waiting there in
    (
      record s' { events = seen cqe ∷ s'.events },
      rw (made, e) refl,
      record {
        told = g.verdicts;
        acknowledged = ap (λ es. cqe ∷ es) g.acknowledged;
        gone = rw g.registry (removed-Removed s.registry n a.valid (rw a.waiting));
        pools = g.pools;
      },
    )

-- A completion with an error, for a request in flight in a valid registry whose payload is there if
-- it has one, when the exception object can be made: the future gets the exception and nothing
-- else, the completion is acknowledged once, and the slot is freed. No buffer index is given back,
-- so the index of a fixed buffer that the request used stays taken.
pub on_cqe-Failed :
    (env : Env) (s : UringioLoop) (n f exc : ℕ) (cqe : Cqe)
    → Awaited s n f cqe
    → PayloadThere s (slot s.registry n).buffer_payload
    → is_failure env (slot s.registry n).opcode cqe.res ≡ true
    → env.new_object s.events ≡ some exc
    → (s' : UringioLoop) × (on_cqe env cqe s ≡ ok (tt, s')) × Failed s n f exc cqe s'
unfolding on_request
on_cqe-Failed env s n f exc cqe a there failing made =
    let (s', e, post) = fail_request-Failed env s n f exc cqe a there made in
    (s', on_cqe-on_request env s n f cqe a ∙ rw failing e, post)
