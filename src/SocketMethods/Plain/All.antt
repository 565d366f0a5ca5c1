-- ===== src/SocketMethods/Plain/All.antt =====
-- The methods of sockets that submit no buffer, on every path.
use uringio.Base.{ℕ, ℤ, ◌≡◌, refl, Bool, true, false, Option, none, some, List, ◌∷◌, arith}
use uringio.Enums.{Opcode}
use uringio.Timer.{TimeoutParams}
use uringio.Registry.Invariant.{IsValid}
use uringio.Buffers.Heap.{Resource, block, reference, give_back}
use uringio.Buffers.Rules.{Has}
use uringio.Ops.Sockets.Creation.{is_supported}
use uringio.Ops.Sockets.Requests.{SocketOp, submit_socket}
use uringio.Methods.{Caller, Site, S, ◌>>=◌}
use uringio.Methods.Rules.{Ends, Ends-weaken, bind_run-Ends, same-Restored}
use uringio.Methods.Plain.{with_error, with_args-Ends}
use uringio.SocketMethods.{Net, SockAddr, socket_of, serialize_address, get_socket_size}
use uringio.SocketMethods.Addresses.{Serialized, serialize_address-Serialized}
use uringio.SocketMethods.Calls.{
  with_address, refuse_bind, refuse_connect, uringio_socket_bind, uringio_socket_connect,
  uringio_socket_listen, uringio_socket_close,
}
use uringio.SocketMethods.Rules.{Admits, guarded-Ends}
use uringio.SocketMethods.Plain.{
  SocketCall, bind, connect, listen, close, call_socket, Asks, asks_bind, asks_connect, asks_listen,
  domain, IsSilent, Flag, CallEnded, Sent,
}
use uringio.SocketMethods.Plain.Address.{with_address-Ends, listen-Ends}
use uringio.SocketMethods.Plain.Close.{close-Ends}

module _ (site : Site) (net : Net) (s : Caller) (rs : List Resource) where
  -- What a call that was not closed by a guard has sent.
  Sent-CallEnded :
      (c : SocketCall) (opcode : Opcode) (op : SocketOp) (t : TimeoutParams)
      → Asks site net s (domain site net s rs) c opcode op t
      → ((b : Bool) (u : Caller) → Flag site net s rs c b u)
      → (r : Option ℕ) (u : Caller) → Sent site net s rs opcode op t r u
      → CallEnded site net s rs c r u
  Sent-CallEnded c opcode op t ask flag none u (o, x) =
      (true, o, x, (λ e. cc e), flag (socket_of s site.self).closed u)
  Sent-CallEnded c opcode op t ask flag (some f) u h = (opcode, op, t, ask, h, flag true u)

  refused-CallEnded :
      (c : SocketCall)
      → IsValid s.registry
      → Has rs false s.heap
      → Flag site net s rs c (socket_of s site.self).closed (with_error s)
      → CallEnded site net s rs c none (with_error s)
  refused-CallEnded c v o flag = (
    true,
    record { owned = o.owned; raised = refl },
    same-Restored s.registry v,
    (λ e. cc e),
    flag,
  )

  -- What `bind` and `connect` do with the answer of `_serialize_address`.
  serialized-Ends :
      (c : SocketCall) (opcode : Opcode) (op : ℕ → ℕ → SocketOp) (t : TimeoutParams)
      (full : ℕ → ℕ → S (Option ℕ)) (host : ℕ) (port : ℤ)
      → ((e : Bool)
          → (e ≡ false → is_supported site.liburing (domain site net s rs) ≡ false)
          → (e ≡ false → IsSilent site net s rs c))
      → ((b : Bool) (u : Caller) → Flag site net s rs c b u)
      → ((p : ℕ) (a : SockAddr) (u : Caller)
          → serialize_address site net (some host) port (domain site net s rs) s
            ≡ some (some (p, a), u)
          → Asks site net s
              (domain site net s rs)
              c
              opcode
              (op p (get_socket_size site net (domain site net s rs)))
              t)
      → IsValid s.registry
      → Has rs false s.heap
      → ((p f : ℕ) (v : Caller)
          → v.registry ≡ s.registry
          → Has (reference f ∷ (block p ∷ rs)) false v.heap
          → Ends (full f p v) (
              Sent site net s rs opcode (op p (get_socket_size site net (domain site net s rs))) t))
      → Ends
          ((serialize_address site net (some host) port (domain site net s rs)
              >>= with_address site net opcode full
                  (λ idx p len. submit_socket site.liburing (op p len) idx t)
                  (domain site net s rs))
            s)
          (CallEnded site net s rs c)
  serialized-Ends c opcode op t full host port silent flag ask v o no_room =
      bind_run-Ends (Serialized site net (some host) port (domain site net s rs) s rs)
        (CallEnded site net s rs c)
        (serialize_address site net (some host) port (domain site net s rs))
        (with_address site net opcode full
          (λ idx p len. submit_socket site.liburing (op p len) idx t) (domain site net s rs))
        s (serialize_address-Serialized site net (some host) port (domain site net s rs) s rs o)
        told
    where
      told :
          (r : Option (ℕ × SockAddr)) (u : Caller)
          → serialize_address site net (some host) port (domain site net s rs) s ≡ some (r, u)
          → Serialized site net (some host) port (domain site net s rs) s rs r u
          → Ends
              (with_address site net opcode full
                (λ idx p len. submit_socket site.liburing (op p len) idx t)
                (domain site net s rs)
                r
                u)
              (CallEnded site net s rs c)
      told none u run (e, o, same, k) =
          (e, o, rw (same.registry) (same-Restored s.registry v), silent e k, flag _ u)
      told (some (p, a)) u run (o, same, good, family, port_bytes, address) =
          Ends-weaken
            (Sent site net s rs opcode (op p (get_socket_size site net (domain site net s rs))) t)
            (CallEnded site net s rs c)
            (with_address site net opcode full
              (λ idx p len. submit_socket site.liburing (op p len) idx t) (domain site net s rs)
              (some (p, a)) u)
            (with_address-Ends site net s rs opcode op t full p a u v same o (no_room p))
            (Sent-CallEnded c opcode (op p (get_socket_size site net (domain site net s rs))) t
              (ask p a u run) flag)

  -- When the loop has the attribute `_closed`, `bind`, `connect`, `listen` and `close` of a socket,
  -- on every path: when one answers NULL, the registry has the requests in flight that it had,
  -- every block and reference is given back, a socket that was open is still open after `close`,
  -- and an exception is set, unless `bind` or `connect` met a socket whose domain is neither
  -- AF_INET nor AF_INET6; the ring's queue is not looked at. When it answers a future, the calling
  -- thread is the loop's, the loop is not closing and the socket was open; its arguments were
  -- parsed, one new request is in flight, in a slot that was free, with that future and the socket,
  -- and the operation that the arguments ask for, on the address that `_serialize_address` makes of
  -- them for `bind` and `connect`, was submitted once under its index; the references held more are
  -- those of the answer, the request's future and its socket, no block is held more, and after
  -- `close` the socket is closed.
  pub call_socket-Ended :
      (c : SocketCall)
      → (closing : Bool) → site.is_closing ≡ some closing
      → IsValid s.registry
      → Has rs false s.heap
      → Ends (call_socket site net c s) (λ r u. CallEnded site net s rs c r u × Admits site net s r)
  unfolding call_socket uringio_socket_bind uringio_socket_connect uringio_socket_listen
      uringio_socket_close submit_socket give_back
  call_socket-Ended (bind args) c known v o =
      guarded-Ends site net s (CallEnded site net s rs (bind args)) c known
        (refused-CallEnded (bind args) v o tt) _
        (λ _.
          with_args-Ends site s (CallEnded site net s rs (bind args))
            (refused-CallEnded (bind args) v o tt) args _
            (λ (host, port, timeout) e.
              with_args-Ends site s (CallEnded site net s rs (bind args))
                (refused-CallEnded (bind args) v o tt) timeout _
                (λ t e'.
                  serialized-Ends (bind args) Opcode.bind (SocketOp.bind site.fd) t
                    (refuse_bind site net) host port (λ b k. k) (λ b u. tt)
                    (λ p a u run. rw (e, e') (asks_bind host port t p a u run)) v o
                    (λ p f x q o. (
                      record { owned = λ w. omega (arith, o.owned w); raised = refl },
                      rw q (same-Restored s.registry v),
                    )))))
  call_socket-Ended (connect args) c known v o =
      guarded-Ends site net s (CallEnded site net s rs (connect args)) c known
        (refused-CallEnded (connect args) v o tt) _
        (λ _.
          with_args-Ends site s (CallEnded site net s rs (connect args))
            (refused-CallEnded (connect args) v o tt) args _
            (λ (host, port, timeout) e.
              with_args-Ends site s (CallEnded site net s rs (connect args))
                (refused-CallEnded (connect args) v o tt) timeout _
                (λ t e'.
                  serialized-Ends (connect args) Opcode.connect (SocketOp.connect site.fd) t
                    (refuse_connect site net) host port (λ b k. k) (λ b u. tt)
                    (λ p a u run. rw (e, e') (asks_connect host port t p a u run)) v o
                    (λ p f x q o. (
                      record { owned = λ w. omega (arith, o.owned w); raised = refl },
                      rw q (same-Restored s.registry v),
                    )))))
  call_socket-Ended (listen args) c known v o =
      guarded-Ends site net s (CallEnded site net s rs (listen args)) c known
        (refused-CallEnded (listen args) v o tt) _
        (λ _.
          with_args-Ends site s (CallEnded site net s rs (listen args))
            (refused-CallEnded (listen args) v o tt) args _
            (λ (backlog, timeout) e.
              with_args-Ends site s (CallEnded site net s rs (listen args))
                (refused-CallEnded (listen args) v o tt) timeout _
                (λ t e'.
                  Ends-weaken (Sent site net s rs Opcode.listen (SocketOp.listen site.fd backlog) t)
                    (CallEnded site net s rs (listen args)) _
                    (listen-Ends site net s rs backlog t v o)
                    (Sent-CallEnded (listen args) Opcode.listen (SocketOp.listen site.fd backlog) t
                      (rw (e, e') (asks_listen backlog t)) (λ b u. tt)))))
  call_socket-Ended (close args) c known v o =
      guarded-Ends site net s (CallEnded site net s rs (close args)) c known
        (refused-CallEnded (close args) v o refl) _
        (λ is_open.
          with_args-Ends site s (CallEnded site net s rs (close args))
            (refused-CallEnded (close args) v o refl) args _
            (λ timeout e.
              with_args-Ends site s (CallEnded site net s rs (close args))
                (refused-CallEnded (close args) v o refl) timeout _
                (λ t e'. rw (e, e') (close-Ends site net s rs t v o is_open))))
