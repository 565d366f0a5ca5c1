-- ===== src/Methods/Laws.antt =====
-- The end of every method: a request is registered and submitted, or nothing is left of it.
use uringio.Base.{
  ℕ, ◌+◌, ℤ, pos, negsuc, is_neg, ◌≡◌, ◌≢◌, refl, ◌∙◌, to_u64, ap, true, false, Bool-cases, inl,
  inr, ◌⊎◌, Option, none, some, List, [], ◌∷◌, ◌++◌, arith,
}
use uringio.Uring.{Call, Liburing, M, set_data}
use uringio.Timer.{TimeoutParams}
use uringio.Registry.{RequestRegistry, Request, incref?, fill, registry_add}
use uringio.Registry.Invariant.{IsValid, in_flight}
use uringio.Registry.InFlight.{Added, add-filled}
use uringio.Buffers.Heap.{Resource, reference, give_back, got, log}
use uringio.Buffers.Rules.{Has, Has-same, blocks_at, weight, weight-append}
use uringio.Ops.Contract.{Contract}
use uringio.Methods.{
  Caller, Site, S, pure, ◌>>=◌, ◌>>◌, run_next, in_ring, answered, added, carry_out, add_request,
  drop_reference, cancel_request, registered, send_request,
}
use uringio.Methods.Rules.{
  Ends, Ends-weaken, bind-Ends, references, attached, Restored, Registered, Refused, Pays,
}
use uringio.Methods.Unsent.{Unsent, given_up-Ends}

add-full :
    (reg : RequestRegistry) (r : Request)
    → is_neg reg.top ≡ true
    → registry_add reg r ≡ (negsuc 0, reg, [])
unfolding registry_add
add-full reg r full = rw full refl

-- An operation answers -1, 0 or 1.
pub Contract-cases :
    {u : Liburing} {fits : _} {t : TimeoutParams} {idx : ℤ} {h : List Call} {r : ℤ × List Call}
    → Contract u fits t idx h r
    → ((r.0 ≡ negsuc 0) ⊎ (r.0 ≡ pos 0)) ⊎ (r.0 ≡ pos 1)
Contract-cases (Contract.no_sqe e q) = inl (inl (ap (λ (r : ℤ × List Call). r.0) q))
Contract-cases (Contract.no_timeout sqe e a b c q) = inl (inl (ap (λ (r : ℤ × List Call). r.0) q))
Contract-cases {u = u} {idx = idx} (Contract.sent sqe p writes before e a own one fits q) =
    elim (Bool-cases (is_neg (u.io_uring_submit (set_data sqe (to_u64 idx) ∷ writes ++ before)))) [
      | inl bad ↦ inl (inr (ap (λ (r : ℤ × List Call). r.0) q ∙ rw bad refl))
      | inr good ↦ inr (ap (λ (r : ℤ × List Call). r.0) q ∙ rw good refl)
    ]

-- An operation is run, and the rest with its answer.
pub in_ring-Ends :
    {A : Type 0} (Q : A → Caller → Type 0) (m : M ℤ) (k : ℤ → S A) (t : Caller)
    → ((result : ℤ) (calls : List Call)
        → m t.calls ≡ (result, calls)
        → Ends (k result (record t { calls = calls })) Q)
    → Ends ((in_ring m >>= k) t) Q
in_ring-Ends Q m k t h = go (m t.calls) (h (m t.calls).0 (m t.calls).1 refl)
  where
    go :
        (r : ℤ × List Call)
        → Ends (k r.0 (record t { calls = r.1 })) Q
        → Ends (run_next (answered r t) k) Q
    go (result, calls) h = h

abbrev pub IsFailure : ℤ → Type 0
IsFailure result = (result ≡ negsuc 0) ⊎ (result ≡ pos 0)

pub failure_not_one : (result : ℤ) → IsFailure result → result ≢ pos 1
failure_not_one result (inl e) q = cc (e, q)
failure_not_one result (inr e) q = cc (e, q)

-- An exception was set, and the request is given up next, in a state that has `os`.
abbrev pub GivesUp : Site → ℤ → ℕ → Caller → List Resource → Option (Option ℕ × Caller) → Type 0
GivesUp site idx f t os run =
    (u : Caller) × (run ≡ (drop_reference site f >> cancel_request idx >> pure none) u)
    × Has os true u.heap
    × (u.registry ≡ t.registry)
    × (u.payloads ≡ t.payloads)

-- The request was registered at a free index, and its operation was run and did not succeed.
abbrev pub Unsubmitted : Caller → (ℤ → M ℤ) → Type 0
Unsubmitted s submit =
    (n : ℕ) × (in_flight s.registry n ≡ false) × ((submit (pos n) s.calls).0 ≢ pos 1)

-- What a method does with the answer of an operation: nothing on 1, and on a bad one it gives the
-- request up, with an exception set, and `extra` given back.
pub record Checks (site : Site) (Bad : ℤ → Type 0) (extra : List Resource)
    (check : ℤ → ℤ → ℕ → S (Option ℕ)) : Type 0 where
  pub failed :
      (result : ℤ) (idx : ℤ) (f : ℕ) (t : Caller) (os : List Resource)
      → Bad result
      → Has (extra ++ os) false t.heap
      → GivesUp site idx f t os (check result idx f t)
  pub fails : (result : ℤ) → Bad result → result ≢ pos 1
  pub passed : (idx : ℤ) (f : ℕ) (t : Caller) → check (pos 1) idx f t ≡ some (some f, t)

module _ (s : Caller) (rs held : List Resource) (r : Request) where
  -- The request is in the registry, under the index `n`.
  pub record Stored (n : ℕ) (t : Caller) : Type 0 where
    pub unsent : Unsent s t rs held r n false
    pub calls : t.calls ≡ s.calls
    pub sockets : t.sockets ≡ s.sockets

  increfs-Ends :
      (y x : Option ℕ) (n : ℕ) (u : Caller) (os : List Resource)
      → Has os false u.heap
      → Ends ((carry_out (incref? y ++ incref? x) >> pure (pos n)) u) (λ idx t.
        (idx ≡ pos n)
        × Has (references y ++ (references x ++ os)) false t.heap
        × (t.registry ≡ u.registry)
        × (t.payloads ≡ u.payloads)
        × (t.calls ≡ u.calls)
        × (t.sockets ≡ u.sockets))
  unfolding carry_out
  increfs-Ends none none n u os o = (refl, o, refl, refl, refl, refl)
  increfs-Ends none (some x) n u os o = (
    refl,
    record { owned = λ w. omega (arith, o.owned w); raised = o.raised },
    refl,
    refl,
    refl,
    refl,
  )
  increfs-Ends (some y) none n u os o = (
    refl,
    record { owned = λ w. omega (arith, o.owned w); raised = o.raised },
    refl,
    refl,
    refl,
    refl,
  )
  increfs-Ends (some y) (some x) n u os o = (
    refl,
    record { owned = λ w. omega (arith, o.owned w); raised = o.raised },
    refl,
    refl,
    refl,
    refl,
  )

  filled-Ends :
      (n : ℕ)
      → Added s.registry r n (fill s.registry r (pos n))
      → Pays s r.buffer_payload held
      → Has (reference r.future ∷ (blocks_at r.msghdr ++ (held ++ rs))) false s.heap
      → Ends (added (fill s.registry r (pos n)) s) (λ idx t. (idx ≡ pos n) × Stored n t)
  unfolding fill carry_out
  filled-Ends n a pays o =
      Ends-weaken _ (λ idx t. (idx ≡ pos n) × Stored n t) _
        (increfs-Ends r.socket r.file n
          (record s {
            registry = (fill s.registry r (pos n)).1;
            heap = log (got (reference r.future)) s.heap;
          })
          (reference r.future ∷ (reference r.future ∷ (blocks_at r.msghdr ++ (held ++ rs))))
          (record { owned = λ w. omega (arith, o.owned w); raised = o.raised }))
        (λ idx t (i, h, reg, pay, calls, socks). (
          i,
          record {
            unsent = record {
              was_free = a.was_free;
              filled = rw reg a.filled;
              others = rw reg a.others;
              valid = rw reg a.valid;
              pays = pays;
              payloads = pay;
              owns = record { owned = λ w. omega (arith, h.owned w, weights w); raised = h.raised };
            };
            calls = calls;
            sockets = socks;
          },
        ))
    where
      mine : List Resource
      mine = reference r.future ∷ (reference r.future ∷ (blocks_at r.msghdr ++ (held ++ rs)))

      weights :
          (w : Resource → ℕ)
          → weight w (references r.socket ++ (references r.file ++ mine))
            ≡ w (reference r.future)
              + (w (reference r.future) + weight w (attached r ++ (held ++ rs)))
      weights w = omega (
        arith,
        weight-append w (attached r) (held ++ rs),
        weight-append w (references r.socket) (references r.file ++ blocks_at r.msghdr),
        weight-append w (references r.file) (blocks_at r.msghdr),
        weight-append w (references r.socket) (references r.file ++ mine),
        weight-append w (references r.file) mine,
        weight-append w (blocks_at r.msghdr) (held ++ rs),
      )

  -- Only the calls of liburing are more.
  pub called :
      (n : ℕ) (t : Caller)
      → Stored n t
      → (calls : List Call) → Unsent s (record t { calls = calls }) rs held r n false
  called n t x calls = record {
    was_free = x.unsent.was_free;
    filled = x.unsent.filled;
    others = x.unsent.others;
    valid = x.unsent.valid;
    pays = x.unsent.pays;
    payloads = x.unsent.payloads;
    owns = x.unsent.owns;
  }

  -- `registry_add` and what follows: when the registry is full, `full` is run;
  -- otherwise `submit` is run with the request in the registry.
  pub send_request_full-Ends :
      (site : Site) (Q : Option ℕ → Caller → Type 0) (full : S (Option ℕ)) (submit : ℤ → S ℤ)
      (check : ℤ → ℤ → ℕ → S (Option ℕ))
      → IsValid s.registry
      → Pays s r.buffer_payload held
      → Has (reference r.future ∷ (blocks_at r.msghdr ++ (held ++ rs))) false s.heap
      → (is_neg s.registry.top ≡ true → Ends (full s) Q)
      → ((n : ℕ) (t : Caller)
          → Stored n t
          → Ends ((submit (pos n) >>= λ result. check result (pos n) r.future) t) Q)
      → Ends (send_request site r full submit check s) Q
  unfolding send_request add_request give_back carry_out
  send_request_full-Ends site Q full submit check v pays o no_room more =
      elim (Bool-cases (is_neg s.registry.top)) [
        | inl e ↦ rw (add-full s.registry r e) (no_room e)
        | inr e ↦
            let (n, q, a) = add-filled s.registry r v e in
            rw q (
              bind-Ends (λ idx t. (idx ≡ pos n) × Stored n t) Q
                (λ _. added (fill s.registry r (pos n)) s)
                (registered site r.future full submit check) s (filled-Ends n a pays o)
                (λ idx t (i, x). rw i (more n t x)))
      ]

  pub send_request-Ends :
      (site : Site) (Q : Option ℕ → Caller → Type 0) (full : S (Option ℕ)) (submit : ℤ → S ℤ)
      (check : ℤ → ℤ → ℕ → S (Option ℕ))
      → IsValid s.registry
      → Pays s r.buffer_payload held
      → Has (reference r.future ∷ (blocks_at r.msghdr ++ (held ++ rs))) false s.heap
      → Ends (full s) Q
      → ((n : ℕ) (t : Caller)
          → Stored n t
          → Ends ((submit (pos n) >>= λ result. check result (pos n) r.future) t) Q)
      → Ends (send_request site r full submit check s) Q
  send_request-Ends site Q full submit check v pays o no_room more =
      send_request_full-Ends site Q full submit check v pays o (λ _. no_room) more

  -- The answer of the submission is checked.
  abbrev pub Checked : List Resource → (ℤ → M ℤ) → Caller → Option ℕ → Caller → Type 0
  Checked extra submit t none u = Refused s rs u × Unsubmitted s submit
  Checked extra submit t (some f) u =
      Registered s u (extra ++ rs) held r submit × (f ≡ r.future) × (u ≡ t)

  pub Checked-Ends :
      (site : Site) (Bad : ℤ → Type 0) (check : ℤ → ℤ → ℕ → S (Option ℕ)) (extra : List Resource)
      (submit : ℤ → M ℤ) (n : ℕ) (t : Caller) (result : ℤ)
      → Checks site Bad extra check
      → Unsent s t (extra ++ rs) held r n false
      → submit (pos n) s.calls ≡ (result, t.calls)
      → Bad result ⊎ (result ≡ pos 1)
      → Ends (check result (pos n) r.future t) (Checked extra submit t)
  Checked-Ends site Bad check extra submit n t result c x q (inl bad) =
      let (u, e, o, reg, pay) = c.failed result (pos n) r.future t mine bad first in
      rw e (
        bind-Ends (λ _ v. Has rs true v.heap × Restored s.registry v.registry)
          (Checked extra submit t) (drop_reference site r.future >> cancel_request (pos n))
          (λ _. pure none) u
          (given_up-Ends s u rs held r n true
            (record {
              was_free = x.was_free;
              filled = rw reg x.filled;
              others = rw reg x.others;
              valid = rw reg x.valid;
              pays = x.pays;
              payloads = pay ∙ x.payloads;
              owns = o;
            })
            site)
          (λ _ v h. (h, (n, x.was_free, unsubmitted))))
    where
      unsubmitted : (submit (pos n) s.calls).0 ≢ pos 1
      unsubmitted = rw q (c.fails result bad)

      mine : List Resource
      mine = reference r.future ∷ (reference r.future ∷ (attached r ++ (held ++ rs)))

      first : Has (extra ++ mine) false t.heap
      first =
          Has-same _
            (λ w. omega (
              arith,
              weight-append w (attached r) (held ++ (extra ++ rs)),
              weight-append w held (extra ++ rs),
              weight-append w extra rs,
              weight-append w extra mine,
              weight-append w (attached r) (held ++ rs),
              weight-append w held rs,
            ))
            x.owns
  Checked-Ends site Bad check extra submit n t result c x q (inr good) =
      rw (good, c.passed)
        (
          record {
            index = n;
            was_free = x.was_free;
            filled = x.filled;
            others = x.others;
            valid = x.valid;
            sent = q ∙ ap (λ i. (i, t.calls)) good;
            owns = x.owns;
          },
          refl,
          refl,
        )
