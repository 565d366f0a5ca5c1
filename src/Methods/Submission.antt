-- ===== src/Methods/Submission.antt =====
-- The end of the methods of files: the request is registered and submitted, or nothing is left of
-- it.
use uringio.Base.{
  ℕ, ℤ, pos, ◌≡◌, refl, true, false, inl, inr, Option, none, some, List, [], ◌∷◌, ◌++◌, arith,
}
use uringio.Enums.{StreamStrategy, Opcode}
use uringio.Uring.{Call}
use uringio.Timer.{TimeoutParams}
use uringio.Registry.{Request}
use uringio.Registry.Invariant.{IsValid}
use uringio.Buffers.Heap.{Resource, reference, give_back, back, log}
use uringio.Buffers.Rules.{Has}
use uringio.Ops.Files.Laws.{FileOp, submit_file, submit_file-Contract}
use uringio.Methods.{
  Caller, Site, S, free_if_there, request_of, in_ring, raise, check_file_result, refuse,
  register_and_submit,
}
use uringio.Methods.Rules.{
  Ends, Ends-weaken, bind-Ends, same-Restored, Ended, Pays, free_payload-Ends,
}
use uringio.Methods.Laws.{
  Contract-cases, in_ring-Ends, IsFailure, failure_not_one, GivesUp, Checks, Stored, called,
  Checked, Checked-Ends, send_request-Ends,
}

check_file_result-Checks : (site : Site) → Checks site IsFailure [] (check_file_result site)
unfolding check_file_result
check_file_result-Checks site = record {
  failed = λ result idx f t os bad o.
      elim bad as (λ _. GivesUp site idx f t os (check_file_result site result idx f t)) [
        | inl e ↦ (
          record t { heap = record t.heap { error = true } },
          rw e refl,
          record { owned = o.owned; raised = refl },
          refl,
          refl,
        )
        | inr e ↦ (
          record t { heap = record t.heap { error = true } },
          rw e refl,
          record { owned = o.owned; raised = refl },
          refl,
          refl,
        )
      ];
  fails = failure_not_one;
  passed = λ idx f t. refl;
}

module _ (site : Site) (s : Caller) (rs held : List Resource) (f : ℕ) (p : Option ℕ)
    (stream : StreamStrategy) (opcode : Opcode) (op : FileOp) (timeout : TimeoutParams) where
  abbrev request : Request
  request = request_of site f p stream opcode

  abbrev Q : Option ℕ → Caller → Type 0
  Q = Ended s rs held request (λ idx. submit_file site.liburing op idx timeout)

  -- The registry is full.
  full-Ends :
      IsValid s.registry
      → Pays s p held
      → Has (reference f ∷ (held ++ rs)) false s.heap
      → Ends (refuse site f (free_if_there p) s) Q
  unfolding give_back
  full-Ends v pays o =
      bind-Ends (λ _ t. Has rs false t.heap × (t.registry ≡ s.registry)) Q (free_if_there p)
        (λ _. raise) (record s { heap = log (back (reference f)) s.heap })
        (free_payload-Ends s (record s { heap = log (back (reference f)) s.heap }) p held rs false
          pays refl (record { owned = λ w. omega (arith, o.owned w); raised = o.raised }))
        (λ _ t (o, k).
          (record { owned = o.owned; raised = refl }, rw k (same-Restored s.registry v)))

  pub register_and_submit-Ends :
      (submit : ℤ → S ℤ)
      → IsValid s.registry
      → Pays s p held
      → Has (reference f ∷ (held ++ rs)) false s.heap
      → ((idx : ℤ) (u : Caller)
          → u.payloads ≡ s.payloads
          → submit idx u ≡ in_ring (submit_file site.liburing op idx timeout) u)
      → Ends (register_and_submit site f p stream opcode submit s) Q
  unfolding register_and_submit
  register_and_submit-Ends submit v pays o sub =
      send_request-Ends s rs held request site Q (refuse site f (free_if_there p)) submit
        (check_file_result site) v pays o (full-Ends v pays o)
        (λ n t x.
          let same = sub (pos n) t x.unsent.payloads in
          rw same (
            in_ring-Ends Q (submit_file site.liburing op (pos n) timeout)
              (λ result. check_file_result site result (pos n) f) t
              (λ result calls q. told n t x result calls (rw (x.calls) at q))))
    where
      done :
          (t : Caller)
          → t.payloads ≡ s.payloads
          → (a : Option ℕ) (u : Caller)
          → Checked s rs held request [] (λ idx. submit_file site.liburing op idx timeout) t a u
          → Q a u
      done t same none u h = h.0
      done t same (some g) u (h, e, k) = (h, e, rw k same)

      told :
          (n : ℕ) (t : Caller) (x : Stored s rs held request n t) (result : ℤ) (calls : List Call)
          → submit_file site.liburing op (pos n) timeout s.calls ≡ (result, calls)
          → Ends (check_file_result site result (pos n) f (record t { calls = calls })) Q
      told n t x result calls q =
          Ends-weaken
            (Checked s rs held request [] (λ idx. submit_file site.liburing op idx timeout)
              (record t { calls = calls }))
            Q (check_file_result site result (pos n) f (record t { calls = calls }))
            (Checked-Ends s rs held request site IsFailure (check_file_result site) []
              (λ idx. submit_file site.liburing op idx timeout) n (record t { calls = calls })
              result (check_file_result-Checks site) (called s rs held request n t x calls) q
              (rw q at
                (Contract-cases (submit_file-Contract site.liburing op (pos n) timeout s.calls))))
            (done (record t { calls = calls }) x.unsent.payloads)
