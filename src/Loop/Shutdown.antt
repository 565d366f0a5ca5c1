-- ===== src/Loop/Shutdown.antt =====
-- The end of the loop: the requests that complete in time get an exception, and no reference is
-- lost.
use uringio.Base.{
  Bool, none, if◌then◌else◌, ℕ, ◌+◌, ◌<◌, ◌^◌, ◌==◌, pos, to_int-of_lt, ◌≡◌, refl, true, false,
  Option, some, List, [], ◌∷◌, ◌++◌, arith,
}
use uringio.Ring.{wakeup_fd_tag}
use uringio.Registry.{RequestRegistry, Effect, releases, registry_get, registry_destroy}
use uringio.Registry.Invariant.{IsValid, in_flight, slot, removed, remove-removed, in_flight-lt}
use uringio.Registry.InFlight.{Removed, removed-Removed}
use uringio.Registry.References.{held, dropped, dropped-append, remove-held, destroy-held}
use uringio.Loop.{Closing, closed_future, close_request, close_requests, graceful_shutdown}

-- Completions that each belong to the wakeup read or to a request that is in flight when they are
-- handled.
pub data Arrivals : List ℕ → RequestRegistry → Type 0 where
  no_more : {reg : RequestRegistry} → Arrivals [] reg
  wakeup :
      {xs : List ℕ} {reg : RequestRegistry} → Arrivals xs reg → Arrivals (wakeup_fd_tag ∷ xs) reg
  request :
      {xs : List ℕ} {reg : RequestRegistry} (n : ℕ)
      → in_flight reg n ≡ true
      → Arrivals xs (removed reg n)
      → Arrivals (n ∷ xs) reg

-- All completions were handled, and no reference was lost.
pub record Handled (s : Closing) (closed : List ℕ) (out : Option Closing) : Type 0 where
  pub end : Closing
  pub ends : out ≡ some end
  pub all_closed : end.closed ≡ closed
  pub references :
      (o : ℕ)
      → held o end.registry.slots + dropped o end.effects
        ≡ held o s.registry.slots + dropped o s.effects

-- What a graceful shutdown answers.
pub record ShutDown (reg : RequestRegistry) (closed : List ℕ) (out : Option (List ℕ × List Effect))
    : Type 0 where
  pub effects : List Effect
  pub ends : out ≡ some (closed, effects)
  pub references : (o : ℕ) → dropped o effects ≡ held o reg.slots

-- Whether the exception for the next future can be made.
module _ (can_raise : List ℕ → Bool) where
  -- A future that is there gets one exception, if it can be made.
  abbrev pub raised : Option ℕ → List ℕ → List ℕ
  raised none fs = fs
  raised (some f) fs = if can_raise fs then f ∷ fs else fs

  -- The futures of their requests, the last first, before those in `fs`.
  abbrev pub futures : {xs : List ℕ} {reg : RequestRegistry} → Arrivals xs reg → List ℕ → List ℕ
  futures no_more fs = fs
  futures (wakeup a) fs = futures a fs
  futures {reg = reg} (request n e a) fs = futures a (raised (slot reg n).future fs)

  -- The loop's state after a completed request.
  abbrev after : Closing → ℕ → Closing
  after s n = record {
    registry = removed s.registry n;
    closed = raised (slot s.registry n).future s.closed;
    effects = s.effects ++ releases (slot s.registry n);
  }

  closed_future-raised : (f : Option ℕ) (fs : List ℕ) → closed_future can_raise f fs ≡ raised f fs
  closed_future-raised none fs = refl
  closed_future-raised (some f) fs = refl

  close_request-wakeup : (s : Closing) → close_request can_raise wakeup_fd_tag s ≡ some s
  unfolding close_request
  close_request-wakeup s = refl

  get-in_flight :
      (reg : RequestRegistry) (n : ℕ)
      → IsValid reg
      → in_flight reg n ≡ true
      → registry_get reg (pos n) ≡ some (slot reg n)
  unfolding registry_get
  get-in_flight reg n v e = ground (arith, v.small, in_flight-lt reg n v e)

  close_request-request :
      (s : Closing) (n : ℕ)
      → IsValid s.registry
      → in_flight s.registry n ≡ true
      → close_request can_raise n s ≡ some (after s n)
  unfolding close_request
  close_request-request s n v e =
      rw
        (
          other,
          to_int-of_lt n small,
          get-in_flight s.registry n v e,
          remove-removed s.registry n v e,
          closed_future-raised (slot s.registry n).future s.closed,
        )
        refl
    where
      small : n < 2 ^ 31
      small = omega (arith, v.small, in_flight-lt s.registry n v e)

      other : (n == wakeup_fd_tag) ≡ false
      other = ground (arith, small)

  close_requests-step :
      (x : ℕ) (xs : List ℕ) (s s' : Closing)
      → close_request can_raise x s ≡ some s'
      → close_requests can_raise (x ∷ xs) s ≡ close_requests can_raise xs s'
  unfolding close_requests
  close_requests-step x xs s s' e = rw (close_requests, e) refl

  close_requests-Handled :
      (xs : List ℕ) (s : Closing) (a : Arrivals xs s.registry)
      → IsValid s.registry
      → Handled s (futures a s.closed) (close_requests can_raise xs s)
  unfolding close_requests
  close_requests-Handled _ s no_more v = record {
    end = s;
    ends = refl;
    all_closed = refl;
    references = λ o. refl;
  }
  close_requests-Handled _ s (wakeup {xs = xs} a) v =
      rw (close_requests-step wakeup_fd_tag xs s s (close_request-wakeup s))
        (close_requests-Handled xs s a v)
  close_requests-Handled _ s (request {xs = xs} n e a) v =
      let gone : Removed s.registry n (removed s.registry n) = removed-Removed s.registry n v e in
      let next : Handled (after s n) (futures a (after s n).closed)
          (close_requests can_raise xs (after s n)) =
        close_requests-Handled xs (after s n) a gone.valid in
      rw (close_requests-step n xs s (after s n) (close_request-request s n v e)) (record {
        end = next.end;
        ends = next.ends;
        all_closed = next.all_closed;
        references = λ o. omega (
          arith,
          next.references o,
          dropped-append o s.effects (releases (slot s.registry n)),
          remove-held o s.registry (removed s.registry n) n (releases (slot s.registry n)) v e
              (remove-removed s.registry n v e),
        );
      })

  -- `graceful_shutdown` of a valid registry, for completions of which each belongs to the wakeup
  -- read or to a request that is in flight when it is handled: it ends without an abort; the future
  -- of each completed request gets the exception, if it can be made, once and in order; and of each
  -- object exactly as many references are dropped as the registry held, those of requests without a
  -- completion included.
  pub graceful_shutdown-ShutDown :
      (xs : List ℕ) (reg : RequestRegistry) (a : Arrivals xs reg)
      → IsValid reg
      → ShutDown reg (futures a []) (graceful_shutdown can_raise xs reg)
  unfolding graceful_shutdown
  graceful_shutdown-ShutDown xs reg a v =
      let h : Handled start (futures a []) (close_requests can_raise xs start) =
        close_requests-Handled xs start a v in
      rw (h.ends) (record {
        effects = h.end.effects ++ registry_destroy (some h.end.registry);
        ends = rw (h.all_closed) refl;
        references = λ o. omega (
          arith,
          h.references o,
          dropped-append o h.end.effects (registry_destroy (some h.end.registry)),
          destroy-held o h.end.registry,
        );
      })
    where
      start : Closing
      start = record { registry = reg; closed = []; effects = [] }
