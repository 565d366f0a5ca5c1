-- ===== src/Reader/Success.antt =====
-- A completion that is no error: the request gets its result, and leaves the registry.
use uringio.Base.{
  ℕ, ◌≡◌, refl, ◌∙◌, ap, pos, false, some, ◌∷◌, ◌==◌, Bool-cases, inl, inr, arith, if◌then◌else◌,
}
use uringio.Payload.{BufferPayload, is_fixed}
use uringio.Ring.{wakeup_fd_tag}
use uringio.BufferControllers.Index.{FixedBufferIdxRegistry, release_buffer_idx}
use uringio.Registry.{decref, releases}
use uringio.Registry.Invariant.{slot, removed, in_flight-lt}
use uringio.Registry.InFlight.{Removed, removed-Removed}
use uringio.Reader.State.{
  Cqe, set_result, effect, seen, Env, UringioLoop, ok, update, without_payload, release_if_fixed,
}
use uringio.Reader.Results.{complete}
use uringio.Reader.Cases.{on_opcode}
use uringio.Reader.Ready.{is_failure, resolve_future, finish, complete_request, on_request, on_cqe}
use uringio.Reader.Events.{verdicts, acknowledged, logged, verdicts-logged, acknowledged-logged}
use uringio.Reader.Removal.{unpaid, remove-unpaid}
use uringio.Reader.Found.{Awaited, on_cqe-on_request}

-- The loop after the request in slot `n` completed with the result `v` for the future `f`.
pub record Completed (s : UringioLoop) (n f v : ℕ) (cqe : Cqe) (s' : UringioLoop) : Type 0 where
  pub told : verdicts s'.events ≡ set_result f v ∷ verdicts s.events
  pub acknowledged : acknowledged s'.events ≡ cqe ∷ acknowledged s.events
  pub gone : Removed s.registry n s'.registry

-- The index registries after `release_if_fixed`.
abbrev pub given_back : (ℕ → FixedBufferIdxRegistry) → BufferPayload → ℕ → FixedBufferIdxRegistry
given_back pools b =
    if is_fixed b.mode
    then update pools b.idx_registry (release_buffer_idx (pools b.idx_registry) b.buf_idx).1
    else pools

pub release_if_fixed-given_back :
    (b : BufferPayload) (s : UringioLoop)
    → release_if_fixed b s ≡ ok (tt, record s { pools = given_back s.pools b })
unfolding release_if_fixed
release_if_fixed-given_back b s = elim (Bool-cases (is_fixed b.mode)) [
  | inl fixed ↦ rw fixed refl
  | inr other ↦ rw other refl
]

-- The loop once a case of the switch gave its payload back.
pub record Paid (s : UringioLoop) (n : ℕ) (s1 : UringioLoop) : Type 0 where
  pub registry : s1.registry ≡ unpaid s.registry n
  pub verdicts : verdicts s1.events ≡ verdicts s.events
  pub acknowledged : acknowledged s1.events ≡ acknowledged s.events

-- The end of the loop's body after such a case.
abbrev pub closed : UringioLoop → UringioLoop → ℕ → ℕ → ℕ → Cqe → UringioLoop
closed s s1 n f v cqe = record s1 {
  registry = removed s.registry n;
  events =
      seen cqe
      ∷ logged (releases (without_payload (slot s.registry n)))
          (effect (decref v) ∷ set_result f v ∷ s1.events);
}

finish-closed :
    (env : Env) (s s1 : UringioLoop) (n f v : ℕ) (cqe : Cqe)
    → Awaited s n f cqe
    → Paid s n s1
    → finish env (pos n) cqe f (complete (some v)) s1 ≡ ok (tt, closed s s1 n f v cqe)
unfolding finish resolve_future
finish-closed env s s1 n f v cqe a p =
    rw
      (remove-unpaid (record s1 { events = effect (decref v) ∷ set_result f v ∷ s1.events })
        s.registry n a.valid (rw a.waiting) p.registry)
      refl

pub closed-Completed :
    (s s1 : UringioLoop) (n f v : ℕ) (cqe : Cqe)
    → Awaited s n f cqe
    → Paid s n s1
    → Completed s n f v cqe (closed s s1 n f v cqe)
closed-Completed s s1 n f v cqe a p = record {
  told =
      verdicts-logged (releases (without_payload (slot s.registry n)))
        (effect (decref v) ∷ set_result f v ∷ s1.events)
      ∙ ap (λ es. set_result f v ∷ es) p.verdicts;
  acknowledged =
      ap (λ es. cqe ∷ es)
        (acknowledged-logged (releases (without_payload (slot s.registry n)))
            (effect (decref v) ∷ set_result f v ∷ s1.events)
          ∙ p.acknowledged);
  gone = removed-Removed s.registry n a.valid (rw a.waiting);
}

-- The tag of a request is not that of the wakeup descriptor.
not-wakeup :
    (s : UringioLoop) (n f : ℕ) (cqe : Cqe)
    → Awaited s n f cqe
    → (cqe.user_data == wakeup_fd_tag) ≡ false
not-wakeup s n f cqe a =
    ground (arith, a.tagged, a.valid.small, in_flight-lt s.registry n a.valid (rw a.waiting))

pub on_cqe-closed :
    (env : Env) (s s1 : UringioLoop) (n f v : ℕ) (cqe : Cqe)
    → Awaited s n f cqe
    → is_failure env (slot s.registry n).opcode cqe.res ≡ false
    → on_opcode env (pos n) (slot s.registry n) cqe (slot s.registry n).opcode s
      ≡ ok (complete (some v), s1)
    → Paid s n s1
    → on_cqe env cqe s ≡ ok (tt, closed s s1 n f v cqe)
unfolding on_request complete_request
on_cqe-closed env s s1 n f v cqe a fine e p =
    on_cqe-on_request env s n f cqe a
    ∙ rw (fine, not-wakeup s n f cqe a, e) (finish-closed env s s1 n f v cqe a p)
