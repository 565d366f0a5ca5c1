-- ===== src/Reader/Removal.antt =====
-- What `registry_remove` does to the loop's state, once the payload was given back and before.
use uringio.Base.{
  Bool, true, false, Bool-cases, Option-cases, inl, inr, ℕ, zero, suc, ◌≡◌, refl, ap, pos, true,
  Option, none, some, List, [], ◌∷◌, ◌++◌, set, get_or-set_self, arith, if◌then◌else◌,
}
use uringio.Payload.{BufferPayload, is_freed}
use uringio.Registry.{
  RequestSlot, RequestRegistry, Effect, zero_slot, cleared, releases, decref?, free?, decref,
  free_payload, registry_remove,
}
use uringio.Registry.Invariant.{
  slot, in_flight, IsValid, removed, remove-removed, in_flight-lt, in_flight-room,
}
use uringio.Reader.State.{
  effect, UringioLoop, ok, update, apply_effects, free_buffer_payload, without_payload,
  remove_request,
}
use uringio.Reader.Events.{
  verdicts, acknowledged, verdicts-logged, acknowledged-logged, logged, IsPlain, apply-IsPlain,
}

-- The registry once the slot's pointer to its payload is NULL.
abbrev pub unpaid : RequestRegistry → ℕ → RequestRegistry
unpaid reg n = record reg { slots = set reg.slots n (without_payload (slot reg n)) }

set-set :
    (slots : List RequestSlot) (n : ℕ) (a b : RequestSlot) → set (set slots n a) n b ≡ set slots n b
set-set [] n a b = refl
set-set (x ∷ xs) zero a b = refl
set-set (x ∷ xs) (suc n) a b = ap (λ ys. x ∷ ys) (set-set xs n a b)

unpaid-removed :
    (reg : RequestRegistry) (n : ℕ)
    → IsValid reg
    → in_flight reg n ≡ true
    → registry_remove (unpaid reg n) (pos n)
      ≡ some (removed reg n, releases (without_payload (slot reg n)))
unfolding registry_remove
unpaid-removed reg n v e = ground (
  arith,
  v.small,
  v.low,
  in_flight-room reg n v e,
  in_flight-lt reg n v e,
  get_or-set_self reg.slots n (without_payload (slot reg n)) zero_slot
      (omega (arith, v.wide, in_flight-lt reg n v e)),
  set-set reg.slots n (without_payload (slot reg n)) (cleared (slot reg n)),
)

free?-IsPlain : (p : Option ℕ) → IsPlain (free? p)
free?-IsPlain none = tt
free?-IsPlain (some p) = tt

decref?-IsPlain : (p : Option ℕ) (xs : List Effect) → IsPlain xs → IsPlain (decref? p ++ xs)
decref?-IsPlain none xs h = h
decref?-IsPlain (some p) xs h = h

-- Nothing but a payload is freed by `free_buffer_payload`.
rest-IsPlain : (s : RequestSlot) → IsPlain (decref? s.socket ++ (decref? s.file ++ free? s.msghdr))
rest-IsPlain s =
    decref?-IsPlain s.socket (decref? s.file ++ free? s.msghdr)
      (decref?-IsPlain s.file (free? s.msghdr) (free?-IsPlain s.msghdr))

pub releases-IsPlain : (s : RequestSlot) → s.buffer_payload ≡ none → IsPlain (releases s)
releases-IsPlain s e = rw e (
    decref?-IsPlain s.future (decref? s.socket ++ (decref? s.file ++ free? s.msghdr))
      (rest-IsPlain s))

-- The state after the request's slot was emptied and what it held was dropped.
abbrev pub without : UringioLoop → ℕ → RequestSlot → UringioLoop
without s n held = record s {
  registry = removed s.registry n;
  events = logged (releases held) s.events;
}

-- The removal once the payload was given back.
pub remove-unpaid :
    (s : UringioLoop) (reg : RequestRegistry) (n : ℕ)
    → IsValid reg
    → in_flight reg n ≡ true
    → s.registry ≡ unpaid reg n
    → remove_request (pos n) s
      ≡ ok (
        tt,
        record s {
          registry = removed reg n;
          events = logged (releases (without_payload (slot reg n))) s.events;
        },
      )
unfolding remove_request
remove-unpaid s reg n v e q =
    rw (q, unpaid-removed reg n v e)
      (apply-IsPlain (releases (without_payload (slot reg n)))
        (record s { registry = removed reg n })
        (releases-IsPlain (without_payload (slot reg n)) refl))

-- The removal of a request that has no payload.
pub remove-plain :
    (s : UringioLoop) (n : ℕ)
    → IsValid s.registry
    → in_flight s.registry n ≡ true
    → (slot s.registry n).buffer_payload ≡ none
    → remove_request (pos n) s ≡ ok (tt, without s n (slot s.registry n))
unfolding remove_request
remove-plain s n v e q = rw (remove-removed s.registry n v e) (
    apply-IsPlain (releases (slot s.registry n)) (record s { registry = removed s.registry n })
      (releases-IsPlain (slot s.registry n) q))

-- The heap of payloads after `free_buffer_payload`: a payload that is not the request's own stays,
-- unless it is freed by force.
abbrev pub settled :
    (ℕ → Option BufferPayload) → ℕ → BufferPayload → (force : Bool) → ℕ → Option BufferPayload
settled payloads p b force = if is_freed b force then update payloads p none else payloads

-- The payload of a request is there, if it has one.
abbrev pub PayloadThere : UringioLoop → Option ℕ → Type 0
PayloadThere s none = Unit {0}
PayloadThere s (some p) = (b : BufferPayload) × (s.payloads p ≡ some b)

-- The request in slot `n` was removed; no future was completed, no completion acknowledged, and no
-- buffer index given back.
pub record Gone (s : UringioLoop) (n : ℕ) (s' : UringioLoop) : Type 0 where
  pub registry : s'.registry ≡ removed s.registry n
  pub verdicts : verdicts s'.events ≡ verdicts s.events
  pub acknowledged : acknowledged s'.events ≡ acknowledged s.events
  pub pools : s'.pools ≡ s.pools

pub free_buffer_payload-settled :
    (p : ℕ) (b : BufferPayload) (force : Bool) (s : UringioLoop)
    → s.payloads p ≡ some b
    → free_buffer_payload (some p) force s
      ≡ ok (
        tt,
        record s {
          payloads = settled s.payloads p b force;
          events = effect (free_payload p force) ∷ s.events;
        },
      )
unfolding free_buffer_payload
free_buffer_payload-settled p b force s e = elim (Bool-cases (is_freed b force)) [
  | inl freed ↦ rw (e, freed) refl
  | inr kept ↦ rw (e, kept) refl
]

-- The state in which a request with the payload `p` for the future `f` was dropped.
abbrev without_both : UringioLoop → ℕ → ℕ → BufferPayload → List Effect → UringioLoop
without_both s p f b rest = record s {
  payloads = settled s.payloads p b false;
  events = logged rest (effect (free_payload p false) ∷ effect (decref f) ∷ s.events);
}

releases-both :
    (s : UringioLoop) (p f : ℕ) (b : BufferPayload) (rest : List Effect)
    → IsPlain rest
    → s.payloads p ≡ some b
    → apply_effects (decref f ∷ free_payload p false ∷ rest) s ≡ ok (tt, without_both s p f b rest)
unfolding apply_effects
releases-both s p f b rest h e =
    rw
      (free_buffer_payload-settled p b false (record s { events = effect (decref f) ∷ s.events }) e)
      (apply-IsPlain rest
        (record s {
          payloads = settled s.payloads p b false;
          events = effect (free_payload p false) ∷ effect (decref f) ∷ s.events;
        })
        h)

remove-both :
    (s : UringioLoop) (n p f : ℕ) (b : BufferPayload)
    → IsValid s.registry
    → (slot s.registry n).future ≡ some f
    → (slot s.registry n).buffer_payload ≡ some p
    → s.payloads p ≡ some b
    → (s' : UringioLoop) × (remove_request (pos n) s ≡ ok (tt, s')) × Gone s n s'
unfolding remove_request
remove-both s n p f b v q q' e =
    let held = slot s.registry n in
    let rest = decref? held.socket ++ (decref? held.file ++ free? held.msghdr) in
    let s1 : UringioLoop = record s { registry = removed s.registry n } in
    (
      without_both s1 p f b rest,
      rw (remove-removed s.registry n v (rw q), q, q')
          (releases-both s1 p f b rest (rest-IsPlain held) e),
      record {
        registry = refl;
        verdicts = verdicts-logged rest _;
        acknowledged = acknowledged-logged rest _;
        pools = refl;
      },
    )

remove-none :
    (s : UringioLoop) (n : ℕ)
    → IsValid s.registry
    → in_flight s.registry n ≡ true
    → (slot s.registry n).buffer_payload ≡ none
    → (s' : UringioLoop) × (remove_request (pos n) s ≡ ok (tt, s')) × Gone s n s'
remove-none s n v e q = (
  without s n (slot s.registry n),
  remove-plain s n v e q,
  record {
    registry = refl;
    verdicts = verdicts-logged (releases (slot s.registry n)) s.events;
    acknowledged = acknowledged-logged (releases (slot s.registry n)) s.events;
    pools = refl;
  },
)

-- A request in flight whose payload is there, if it has one, can be removed.
pub remove-Gone :
    (s : UringioLoop) (n f : ℕ)
    → IsValid s.registry
    → (slot s.registry n).future ≡ some f
    → PayloadThere s (slot s.registry n).buffer_payload
    → (s' : UringioLoop) × (remove_request (pos n) s ≡ ok (tt, s')) × Gone s n s'
remove-Gone s n f v q there = elim (Option-cases (slot s.registry n).buffer_payload) [
  | inl absent ↦ remove-none s n v (rw q) absent
  | inr (p, has) ↦ let (b, e) = rw has at there in remove-both s n p f b v q has e
]
