-- ===== src/SocketMethods/Plain/Close.antt =====
-- The request of `close`, and the flag of the socket.
use uringio.Base.{ℕ, pos, ◌≡◌, refl, Bool, true, false, Option, none, some, List, [], ◌∷◌, arith}
use uringio.Enums.{oneshot, Opcode}
use uringio.Timer.{TimeoutParams}
use uringio.Registry.{Request}
use uringio.Registry.Invariant.{IsValid}
use uringio.Buffers.Heap.{Resource, reference, give_back}
use uringio.Buffers.Rules.{Has}
use uringio.Ops.Sockets.Requests.{SocketOp, submit_socket}
use uringio.Methods.{
  Socket, Caller, Site, update, ◌>>=◌, pure, create_future, or_null, refuse, send_request,
}
use uringio.Methods.Rules.{Ends, bind-Ends, same-Restored, Registered-from, nothing}
use uringio.Methods.Laws.{Checked, in_ring-Ends, send_request-Ends}
use uringio.Methods.Plain.{with_future, create_future-Ends}
use uringio.SocketMethods.{Net, socket_of, check_sockets_result, socket_request}
use uringio.SocketMethods.Calls.{reopened, check_close, close_and_submit}
use uringio.SocketMethods.Rules.{socket-Checked-Ends}
use uringio.SocketMethods.Plain.{close, asks_close, CallEnded}

module _ (site : Site) (net : Net) (s : Caller) (rs : List Resource) where
  -- The future, the request and the flag of `close`, on a socket that is open.
  pub close-Ends :
      (t : TimeoutParams)
      → IsValid s.registry
      → Has rs false s.heap
      → (socket_of s site.self).closed ≡ false
      → Ends
          ((create_future site >>= λ future. or_null site (pure tt) future (λ f.
              send_request site
                (socket_request site net f none oneshot Opcode.close none none)
                (refuse site f (pure tt))
                (close_and_submit site net t)
                (check_close site net)))
            s)
          (CallEnded site net s rs (close (some (some t))))
  unfolding give_back submit_socket
  close-Ends t v o is_open =
      create_future-Ends site s rs Q _
        (
          true,
          record { owned = o.owned; raised = refl },
          same-Restored s.registry v,
          (λ k. cc k),
          refl,
        )
        (λ f.
          let mine : Has (reference f ∷ rs) false (with_future s f).heap = record {
            owned = λ w. omega (arith, o.owned w);
            raised = o.raised;
          } in
          send_request-Ends (with_future s f) rs [] (request f) site Q (refuse site f (pure tt))
            (close_and_submit site net t) (check_close site net) v nothing mine
            (
              true,
              record { owned = λ w. omega (arith, o.owned w); raised = refl },
              same-Restored s.registry v,
              (λ k. cc k),
              refl,
            )
            (λ n x y.
              in_ring-Ends Q (submit_socket site.liburing (SocketOp.close site.fd) (pos n) t)
                (λ result. check_close site net result (pos n) f) (closing x)
                (λ result calls e.
                  bind-Ends (checked f (record (closing x) { calls = calls })) Q
                    (check_sockets_result site net result (pos n) f) (reopened site net)
                    (record (closing x) { calls = calls })
                    (socket-Checked-Ends (with_future s f) rs [] (request f) site net
                      (SocketOp.close site.fd) t n (record (closing x) { calls = calls }) result
                      (rw (y.calls) at e)
                      (record {
                        was_free = y.unsent.was_free;
                        filled = y.unsent.filled;
                        others = y.unsent.others;
                        valid = y.unsent.valid;
                        pays = y.unsent.pays;
                        payloads = y.unsent.payloads;
                        owns = y.unsent.owns;
                      }))
                    (ended f (record (closing x) { calls = calls })
                      (closed-update x.sockets true)))))
    where
      Q : Option ℕ → Caller → Type 0
      Q = CallEnded site net s rs (close (some (some t)))

      request : ℕ → Request
      request f = socket_request site net f none oneshot Opcode.close none none

      closing : Caller → Caller
      closing x = record x {
        sockets = update x.sockets site.self (record (x.sockets site.self) { closed = true });
      }

      closed-update :
          (sockets : ℕ → Socket) (b : Bool)
          → (update sockets site.self (record (sockets site.self) { closed = b }) site.self).closed
            ≡ b
      closed-update sockets b = ground arith

      checked : ℕ → Caller → Option ℕ → Caller → Type 0
      checked f x =
          Checked (with_future s f) rs [] (request f) []
            (λ idx. submit_socket site.liburing (SocketOp.close site.fd) idx t) x

      ended :
          (f : ℕ) (x : Caller)
          → (socket_of x site.self).closed ≡ true
          → (r : Option ℕ) (u : Caller) → checked f x r u
          → Ends (reopened site net r u) Q
      ended f x shut none u ((h, k), _) =
          (true, h, k, (λ e. cc e), rw is_open (closed-update u.sockets false))
      ended f x shut (some g) u (h, same, q) = (
        Opcode.close,
        SocketOp.close site.fd,
        t,
        asks_close t,
        rw same (
            Registered-from (with_future s f) s rs [] (request f)
              (λ idx. submit_socket site.liburing (SocketOp.close site.fd) idx t) u refl refl h),
        rw q shut,
      )
