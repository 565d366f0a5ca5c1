-- ===== src/SocketMethods/Rules.antt =====
-- The steps that the methods of sockets share.
use uringio.Base.{
  if◌then◌else◌, Bool, ℕ, ℤ, pos, eqb_ℤ, not, ◌≡◌, refl, true, false, inl, inr, Option, none, some,
  List, [], ◌∷◌, ◌++◌, arith,
}
use uringio.Uring.{M}
use uringio.Timer.{TimeoutParams}
use uringio.Registry.{Request}
use uringio.Buffers.Heap.{Resource, block, give_back}
use uringio.Buffers.Rules.{weight-append}
use uringio.Ops.Sockets.Requests.{SocketOp, submit_socket}
use uringio.Ops.Sockets.Laws.{submit_socket-Contract}
use uringio.Methods.{refuse_closing, raise, Caller, Site, S, ◌>>◌, pure, in_ring}
use uringio.Methods.Rules.{Ends, Ends-weaken, attached}
use uringio.Methods.Unsent.{Unsent}
use uringio.Methods.Laws.{
  Contract-cases, in_ring-Ends, IsFailure, failure_not_one, GivesUp, Checks, Stored, called,
  Checked, Checked-Ends,
}
use uringio.Methods.Plain.{with_error}
use uringio.SocketMethods.{Net, socket_of, free_block, check_sockets_result, guarded}
use uringio.SocketMethods.Calls.{freeing}

module _ (site : Site) (net : Net) where
  pub check_sockets_result-Checks : Checks site IsFailure [] (check_sockets_result site net)
  unfolding check_sockets_result
  check_sockets_result-Checks = record {
    failed = λ result idx f t os bad o.
        elim bad as (λ _. GivesUp site idx f t os (check_sockets_result site net result idx f t)) [
          | inl e ↦ (
            record t { heap = record t.heap { error = true } },
            rw e refl,
            record { owned = o.owned; raised = refl },
            refl,
            refl,
          )
          | inr e ↦ (
            record t { heap = record t.heap { error = true } },
            rw e refl,
            record { owned = o.owned; raised = refl },
            refl,
            refl,
          )
        ];
    fails = failure_not_one;
    passed = λ idx f t. refl;
  }

  -- A future is answered only to the loop's own thread, while the loop is not closing, and by a
  -- socket that is open.
  abbrev pub Admits : Caller → Option ℕ → Type 0
  Admits s none = Unit
  Admits s (some f) =
      (eqb_ℤ site.loop_tid site.gettid ≡ true)
      × (site.is_closing ≡ some false)
      × ((socket_of s site.self).closed ≡ false)

  pub guarded-Ends :
      (s : Caller) (Q : Option ℕ → Caller → Type 0) (c : Bool)
      → site.is_closing ≡ some c
      → Q none (with_error s)
      → (body : S (Option ℕ)) → ((socket_of s site.self).closed ≡ false → Ends (body s) Q)
      → Ends (guarded site net body s) (λ r u. Q r u × Admits s r)
  guarded-Ends s Q c known refused body h =
      tested (not (eqb_ℤ site.loop_tid site.gettid)) site.is_closing (socket_of s site.self).closed
        refl refl refl known
    where
      admitted :
          not (eqb_ℤ site.loop_tid site.gettid) ≡ false
          → site.is_closing ≡ some false
          → (socket_of s site.self).closed ≡ false
          → (r : Option ℕ) → Admits s r
      admitted e k l none = tt
      admitted e k l (some f) = (ground arith, k, l)

      tested :
          (stranger : Bool) (closing : Option Bool) (closed : Bool)
          → not (eqb_ℤ site.loop_tid site.gettid) ≡ stranger
          → site.is_closing ≡ closing
          → (socket_of s site.self).closed ≡ closed
          → closing ≡ some c
          → Ends
              ((if stranger
                  then raise
                  else refuse_closing site closing (if closed then raise else body))
                s)
              (λ r u. Q r u × Admits s r)
      tested true closing closed e k l there = (refused, tt)
      tested false none closed e k l there = absurd (cc there)
      tested false (some true) closed e k l there = (refused, tt)
      tested false (some false) true e k l there = (refused, tt)
      tested false (some false) false e k l there =
          Ends-weaken Q (λ r u. Q r u × Admits s r) (body s) (h l) (λ r u q. (q, admitted e k l r))

module _ (s : Caller) (rs held : List Resource) (r : Request) where
  -- The operation was run, and its answer is not yet looked at.
  abbrev pub Asked : M ℤ → ℕ → ℤ → Caller → Type 0
  Asked op n result u =
      (op s.calls ≡ (result, u.calls)) × Unsent s u rs held r n false × (u.sockets ≡ s.sockets)

  -- The operation, after which the address is freed.
  pub freeing-Ends :
      (p n : ℕ) (op : M ℤ) (t : Caller)
      → Stored s (block p ∷ rs) held r n t
      → Ends (freeing p op t) (Asked op n)
  unfolding give_back
  freeing-Ends p n op t x =
      in_ring-Ends (Asked op n) op (λ result. free_block p >> pure result) t
        (λ result calls e. (
          rw (x.calls) at e,
          record {
            was_free = x.unsent.was_free;
            filled = x.unsent.filled;
            others = x.unsent.others;
            valid = x.unsent.valid;
            pays = x.unsent.pays;
            payloads = x.unsent.payloads;
            owns = record {
              owned = λ w. omega (
                arith,
                x.unsent.owns.owned w,
                weight-append w (attached r) (held ++ (block p ∷ rs)),
                weight-append w held (block p ∷ rs),
                weight-append w (attached r) (held ++ rs),
                weight-append w held rs,
              );
              raised = x.unsent.owns.raised;
            };
          },
          x.sockets,
        ))

  -- The operation alone.
  pub in_ring-Stored-Ends :
      (n : ℕ) (op : M ℤ) (t : Caller) → Stored s rs held r n t → Ends (in_ring op t) (Asked op n)
  in_ring-Stored-Ends n op t x =
      in_ring-Ends (Asked op n) op pure t
        (λ result calls e. (rw (x.calls) at e, called s rs held r n t x calls, x.sockets))

  -- The answer of an operation on a socket is checked.
  pub socket-Checked-Ends :
      (site : Site) (net : Net) (op : SocketOp) (timeout : TimeoutParams) (n : ℕ) (t : Caller)
      (result : ℤ)
      → submit_socket site.liburing op (pos n) timeout s.calls ≡ (result, t.calls)
      → Unsent s t rs held r n false
      → Ends
          (check_sockets_result site net result (pos n) r.future t)
          (Checked s rs held r [] (λ idx. submit_socket site.liburing op idx timeout) t)
  socket-Checked-Ends site net op timeout n t result e x =
      Checked-Ends s rs held r site IsFailure (check_sockets_result site net) []
        (λ idx. submit_socket site.liburing op idx timeout) n t result
        (check_sockets_result-Checks site net) x e
        (rw e at (Contract-cases (submit_socket-Contract site.liburing op (pos n) timeout s.calls)))
