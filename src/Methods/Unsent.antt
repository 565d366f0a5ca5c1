-- ===== src/Methods/Unsent.antt =====
-- A request that was registered and not submitted is given up, and nothing is left of it.
use uringio.Base.{
  ℕ, pos, ◌≡◌, refl, sym, ◌∙◌, ap, is_some, true, false, Bool, Option, none, some, List, ◌∷◌, ◌++◌,
  ℕ_discrete, arith,
}
use uringio.Registry
use uringio.Registry.{
  RequestRegistry, RequestSlot, Request, Effect, decref, decref?, free?, releases, registry_remove,
}
use uringio.Registry.Invariant
use uringio.Registry.Invariant.{IsValid, in_flight, slot, remove-removed}
use uringio.Registry.InFlight.{Holds, ElsewhereSame, Removed, removed-Removed}
use uringio.Buffers.Heap.{Resource, reference, give_back, log, back}
use uringio.Buffers.Rules.{Has, Has-same, blocks_at, weight-append}
use uringio.Methods.{Caller, Site, ◌>>◌, drop_reference, free_payload_at, carry_out, cancel_request}
use uringio.Methods.Rules.{
  Ends, Ends-weaken, bind-Ends, Restored, Pays, references, attached, free_payload-Ends,
}

-- The effects of removing the request.
releases-Holds :
    (r : Request) (n : ℕ) (x : RequestSlot)
    → Holds x n r
    → releases x
      ≡ decref r.future
        ∷ (Registry.free_payload? r.buffer_payload false
            ++ (decref? r.socket ++ (decref? r.file ++ free? r.msghdr)))
releases-Holds r n x h = rw (h.future, h.buffer_payload, h.socket, h.file, h.msghdr) refl

Holds-in_flight :
    (r : Request) (n : ℕ) (reg : RequestRegistry) → Holds (slot reg n) n r → in_flight reg n ≡ true
Holds-in_flight r n reg h = rw (h.future) refl

-- Adding a request and removing it again restores the registry.
Removed-Restored :
    (reg reg' reg'' : RequestRegistry) (n : ℕ)
    → in_flight reg n ≡ false
    → ElsewhereSame n reg reg'
    → Removed reg' n reg''
    → Restored reg reg''
Removed-Restored reg reg' reg'' n idle same gone = record {
  valid = gone.valid;
  same_flight = λ k. elim (ℕ_discrete n k) [
    | yes e ↦ rw (← e) (gone.now_free ∙ sym idle)
    | no ne ↦ ap (λ (x : RequestSlot). is_some x.future) (gone.others k ne ∙ same k ne)
  ];
  same_slot = λ k h. elim (ℕ_discrete n k) [
    | yes e ↦ cc (e, idle, h)
    | no ne ↦ gone.others k ne ∙ same k ne
  ];
}

-- `cancel_request` drops the objects of a request and frees its message header.
abbrev Kept : Caller → List Resource → Bool → Unit {0} → Caller → Type 0
Kept t rs e _ u = Has rs e u.heap × (u.registry ≡ t.registry)

module _ (rs : List Resource) (e : Bool) where
  header-Ends :
      (m : Option ℕ) (t : Caller)
      → Has (blocks_at m ++ rs) e t.heap
      → Ends (carry_out (free? m) t) (Kept t rs e)
  unfolding carry_out give_back
  header-Ends none t o = (o, refl)
  header-Ends (some m) t o =
      (record { owned = λ w. omega (arith, o.owned w); raised = o.raised }, refl)

  file-Ends :
      (x m : Option ℕ) (t : Caller)
      → Has (references x ++ (blocks_at m ++ rs)) e t.heap
      → Ends (carry_out (decref? x ++ free? m) t) (Kept t rs e)
  unfolding carry_out give_back
  file-Ends none m t o = header-Ends m t o
  file-Ends (some x) m t o =
      header-Ends m (record t { heap = log (back (reference x)) t.heap })
        (record { owned = λ w. omega (arith, o.owned w); raised = o.raised })

  attached-Ends :
      (y x m : Option ℕ) (t : Caller)
      → Has (references y ++ (references x ++ (blocks_at m ++ rs))) e t.heap
      → Ends (carry_out (decref? y ++ (decref? x ++ free? m)) t) (Kept t rs e)
  unfolding carry_out give_back
  attached-Ends none x m t o = file-Ends x m t o
  attached-Ends (some y) x m t o =
      file-Ends x m (record t { heap = log (back (reference y)) t.heap })
        (record { owned = λ w. omega (arith, o.owned w); raised = o.raised })

-- The state in which the request `r` is in the registry and was not submitted.
pub record Unsent (s t : Caller) (rs held : List Resource) (r : Request) (n : ℕ) (e : Bool)
    : Type 0 where
  pub was_free : in_flight s.registry n ≡ false
  pub filled : Holds (slot t.registry n) n r
  pub others : ElsewhereSame n s.registry t.registry
  pub valid : IsValid t.registry
  pub pays : Pays s r.buffer_payload held
  pub payloads : t.payloads ≡ s.payloads
  pub owns : Has (reference r.future ∷ (reference r.future ∷ (attached r ++ (held ++ rs)))) e t.heap

module _ (s t : Caller) (rs held : List Resource) (r : Request) (n : ℕ) (e : Bool)
    (x : Unsent s t rs held r n e) where
  -- With the method's own reference to the future dropped, and the registry's.
  abbrev dropped : Caller
  dropped = record t {
    registry = Invariant.removed t.registry n;
    heap = log (back (reference r.future)) (log (back (reference r.future)) t.heap);
  }

  abbrev Undone : Unit {0} → Caller → Type 0
  Undone _ u = Has rs e u.heap × Restored s.registry u.registry

  restored : Restored s.registry (Invariant.removed t.registry n)
  restored =
      Removed-Restored s.registry t.registry (Invariant.removed t.registry n) n x.was_free x.others
        (removed-Removed t.registry n x.valid (Holds-in_flight r n t.registry x.filled))

  dropped-Has : Has (held ++ (attached r ++ rs)) e dropped.heap
  dropped-Has = record {
    owned = λ w. omega (
      arith,
      x.owns.owned w,
      weight-append w (attached r) (held ++ rs),
      weight-append w held rs,
      weight-append w held (attached r ++ rs),
      weight-append w (attached r) rs,
    );
    raised = x.owns.raised;
  }

  -- Dropping the objects.
  objects-Ends :
      (u : Caller)
      → Has (attached r ++ rs) e u.heap
      → u.registry ≡ dropped.registry
      → Ends (carry_out (decref? r.socket ++ (decref? r.file ++ free? r.msghdr)) u) Undone
  objects-Ends u o same =
      Ends-weaken (Kept u rs e) Undone
        (carry_out (decref? r.socket ++ (decref? r.file ++ free? r.msghdr)) u)
        (attached-Ends rs e r.socket r.file r.msghdr u (
          Has-same _
            (λ w. omega (
              arith,
              weight-append w (attached r) rs,
              weight-append w (references r.socket) (references r.file ++ blocks_at r.msghdr),
              weight-append w (references r.file) (blocks_at r.msghdr),
              weight-append w (references r.socket)
                  (references r.file ++ (blocks_at r.msghdr ++ rs)),
              weight-append w (references r.file) (blocks_at r.msghdr ++ rs),
              weight-append w (blocks_at r.msghdr) rs,
            ))
            o))
        (λ _ v (o, k). (o, rw (k, same) restored))

  rest-Ends :
      (p : Option ℕ)
      → Pays s p held
      → Ends
          (carry_out
            (Registry.free_payload? p false
              ++ (decref? r.socket ++ (decref? r.file ++ free? r.msghdr)))
            dropped)
          Undone
  unfolding carry_out
  rest-Ends none y =
      let (o, k) =
        free_payload-Ends s dropped none held (attached r ++ rs) e y x.payloads dropped-Has in
      objects-Ends dropped o refl
  rest-Ends (some q) y =
      bind-Ends (Kept dropped (attached r ++ rs) e) Undone (free_payload_at q false)
        (λ _. carry_out (decref? r.socket ++ (decref? r.file ++ free? r.msghdr))) dropped
        (free_payload-Ends s dropped (some q) held (attached r ++ rs) e y x.payloads dropped-Has)
        (λ _ u (o, k). objects-Ends u o k)

  -- A request that was not submitted is given up, and nothing is left of it.
  pub given_up-Ends :
      (site : Site) → Ends ((drop_reference site r.future >> cancel_request (pos n)) t) Undone
  unfolding cancel_request carry_out give_back
  given_up-Ends site =
      rw
        (
          remove-removed t.registry n x.valid (Holds-in_flight r n t.registry x.filled),
          releases-Holds r n (slot t.registry n) x.filled,
        )
        (rest-Ends r.buffer_payload x.pays)
