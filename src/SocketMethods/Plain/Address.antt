-- ===== src/SocketMethods/Plain/Address.antt =====
-- The requests of `bind`, `connect` and `listen`.
use uringio.Base.{ℕ, ℤ, pos, ◌≡◌, refl, false, Option, none, some, List, [], ◌∷◌, arith}
use uringio.Enums.{oneshot, Opcode}
use uringio.Timer.{TimeoutParams}
use uringio.Registry.{Request}
use uringio.Registry.Invariant.{IsValid}
use uringio.Buffers.Heap.{Resource, block, reference, give_back}
use uringio.Buffers.Rules.{Has}
use uringio.Ops.Sockets.Requests.{SocketOp, submit_socket}
use uringio.Methods.{
  Caller, Site, S, ◌>>=◌, pure, in_ring, create_future, or_null, refuse, send_request,
}
use uringio.Methods.Rules.{Ends, bind-Ends, same-Restored, nothing}
use uringio.Methods.Laws.{send_request-Ends}
use uringio.Methods.Plain.{with_future, create_future-Ends}
use uringio.SocketMethods.{Net, SockAddr, get_socket_size, check_sockets_result, socket_request}
use uringio.SocketMethods.Addresses.{Same}
use uringio.SocketMethods.Calls.{freeing, with_address}
use uringio.SocketMethods.Rules.{Asked, freeing-Ends, in_ring-Stored-Ends}
use uringio.SocketMethods.Plain.{domain, Sent, Asked-Ends}

module _ (site : Site) (net : Net) (s : Caller) (rs : List Resource) where
  -- The address, the future and the request of `bind` and `connect`.
  pub with_address-Ends :
      (opcode : Opcode) (op : ℕ → ℕ → SocketOp) (t : TimeoutParams) (full : ℕ → ℕ → S (Option ℕ))
      (p : ℕ) (a : SockAddr) (u : Caller)
      → IsValid s.registry
      → Same s u
      → Has (block p ∷ rs) false u.heap
      → ((f : ℕ) (v : Caller)
          → v.registry ≡ s.registry
          → Has (reference f ∷ (block p ∷ rs)) false v.heap
          → Ends (full f p v) (
              Sent site net s rs opcode (op p (get_socket_size site net (domain site net s rs))) t))
      → Ends
          (with_address site net opcode full
            (λ idx p len. submit_socket site.liburing (op p len) idx t)
            (domain site net s rs)
            (some (p, a))
            u)
          (Sent site net s rs opcode (op p (get_socket_size site net (domain site net s rs))) t)
  unfolding give_back
  with_address-Ends opcode op t full p a u v same o no_room =
      create_future-Ends site u rs Q _
        (
          record { owned = λ w. omega (arith, o.owned w); raised = refl },
          rw (same.registry) (same-Restored s.registry v),
        )
        (λ f.
          let mine : Has (reference f ∷ (block p ∷ rs)) false (with_future u f).heap = record {
            owned = λ w. omega (arith, o.owned w);
            raised = o.raised;
          } in
          send_request-Ends (with_future u f) (block p ∷ rs) []
            (socket_request site net f none oneshot opcode none none) site Q (full f p) _
            (check_sockets_result site net) (rw (same.registry) v) nothing mine
            (no_room f (with_future u f) same.registry mine)
            (λ n x y.
              bind-Ends
                (Asked (with_future u f) rs []
                  (socket_request site net f none oneshot opcode none none)
                  (submit_socket site.liburing operation (pos n) t) n)
                Q (freeing p (submit_socket site.liburing operation (pos n) t))
                (λ result. check_sockets_result site net result (pos n) f) x
                (freeing-Ends (with_future u f) rs []
                  (socket_request site net f none oneshot opcode none none) p n
                  (submit_socket site.liburing operation (pos n) t) x y)
                (λ result z asked.
                  Asked-Ends site net s rs opcode operation t f n (with_future u f) result z
                    same.registry same.calls asked)))
    where
      operation : SocketOp
      operation = op p (get_socket_size site net (domain site net s rs))

      Q : Option ℕ → Caller → Type 0
      Q = Sent site net s rs opcode operation t

  -- The future and the request of `listen`.
  pub listen-Ends :
      (backlog : ℤ) (t : TimeoutParams)
      → IsValid s.registry
      → Has rs false s.heap
      → Ends
          ((create_future site >>= λ future. or_null site (pure tt) future (λ f.
              send_request site
                (socket_request site net f none oneshot Opcode.listen none none)
                (refuse site f (pure tt))
                (λ idx.
                  in_ring (submit_socket site.liburing (SocketOp.listen site.fd backlog) idx t))
                (check_sockets_result site net)))
            s)
          (Sent site net s rs Opcode.listen (SocketOp.listen site.fd backlog) t)
  unfolding give_back
  listen-Ends backlog t v o =
      create_future-Ends site s rs Q _
        (record { owned = o.owned; raised = refl }, same-Restored s.registry v)
        (λ f.
          let mine : Has (reference f ∷ rs) false (with_future s f).heap = record {
            owned = λ w. omega (arith, o.owned w);
            raised = o.raised;
          } in
          send_request-Ends (with_future s f) rs [] (request f) site Q (refuse site f (pure tt)) _
            (check_sockets_result site net) v nothing mine
            (
              record { owned = λ w. omega (arith, o.owned w); raised = refl },
              same-Restored s.registry v,
            )
            (λ n x y.
              bind-Ends
                (Asked (with_future s f) rs [] (request f)
                  (submit_socket site.liburing (SocketOp.listen site.fd backlog) (pos n) t) n)
                Q
                (in_ring (submit_socket site.liburing (SocketOp.listen site.fd backlog) (pos n) t))
                (λ result. check_sockets_result site net result (pos n) f) x
                (in_ring-Stored-Ends (with_future s f) rs [] (request f) n
                  (submit_socket site.liburing (SocketOp.listen site.fd backlog) (pos n) t) x y)
                (λ result z asked.
                  Asked-Ends site net s rs Opcode.listen (SocketOp.listen site.fd backlog) t f n
                    (with_future s f) result z refl refl asked)))
    where
      Q : Option ℕ → Caller → Type 0
      Q = Sent site net s rs Opcode.listen (SocketOp.listen site.fd backlog) t

      request : ℕ → Request
      request f = socket_request site net f none oneshot Opcode.listen none none
