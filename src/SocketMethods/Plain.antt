-- ===== src/SocketMethods/Plain.antt =====
-- The methods of sockets that submit no buffer: `bind`, `connect`, `listen` and `close`.
pub mod Address
pub mod Close
pub mod All
use uringio.Base.{
  ℕ, ℤ, pos, ◌≡◌, refl, Bool, true, false, Option, none, some, List, [], ◌∷◌, ◌++◌, arith,
}
use uringio.Enums.{oneshot, Opcode}
use uringio.Timer.{TimeoutParams}
use uringio.Registry.{Request, RequestRegistry}
use uringio.Registry.Invariant.{IsValid}
use uringio.Buffers.Heap.{Resource, block, reference, give_back}
use uringio.Buffers.Rules.{Has}
use uringio.Ops.Sockets.Creation.{is_supported}
use uringio.Ops.Sockets.Requests.{SocketOp, submit_socket}
use uringio.Methods.{
  Socket, Caller, Site, S, update, ◌>>=◌, pure, in_ring, create_future, with_args, or_null, refuse,
  send_request,
}
use uringio.Methods.Rules.{
  Ends, Ends-weaken, bind-Ends, Restored, same-Restored, Registered, Registered-from, nothing,
}
use uringio.Methods.Laws.{Checked, in_ring-Ends, send_request-Ends}
use uringio.Methods.Plain.{with_error, with_args-Ends, with_future, create_future-Ends}
use uringio.SocketMethods.{
  Net, SockAddr, socket_of, set_closed, serialize_address, get_socket_size, check_sockets_result,
  socket_request,
}
use uringio.SocketMethods.Addresses.{Same, Serialized, serialize_address-Serialized}
use uringio.SocketMethods.Calls.{
  freeing, reopened, with_address, refuse_bind, refuse_connect, check_close, close_and_submit,
  uringio_socket_bind, uringio_socket_connect, uringio_socket_listen, uringio_socket_close,
}
use uringio.SocketMethods.Rules.{
  guarded-Ends, Asked, freeing-Ends, in_ring-Stored-Ends, socket-Checked-Ends,
}

-- A call of one of these methods, with its arguments.
pub data SocketCall : Type 0 where
  bind connect : Option (ℕ × ℤ × Option TimeoutParams) → SocketCall
  listen : Option (ℤ × Option TimeoutParams) → SocketCall
  close : Option (Option TimeoutParams) → SocketCall

module _ (site : Site) (net : Net) where
  unfoldable pub call_socket : SocketCall → S (Option ℕ)
  call_socket (bind args) = uringio_socket_bind site net args
  call_socket (connect args) = uringio_socket_connect site net args
  call_socket (listen args) = uringio_socket_listen site net args
  call_socket (close args) = uringio_socket_close site net args

  -- What a call asks for, on a socket of the domain: the opcode of its request, the operation, with
  -- the address that `_serialize_address` makes of the host and the port, and the timeout.
  pub data Asks (s : Caller) (domain : ℤ)
      : SocketCall → Opcode → SocketOp → TimeoutParams → Type 0 where
    asks_bind :
        (host : ℕ) (port : ℤ) (t : TimeoutParams) (p : ℕ) (a : SockAddr) (u : Caller)
        → serialize_address site net (some host) port domain s ≡ some (some (p, a), u)
        → Asks s domain
            (bind (some (host, port, some t)))
            Opcode.bind
            (SocketOp.bind site.fd p (get_socket_size site net domain))
            t
    asks_connect :
        (host : ℕ) (port : ℤ) (t : TimeoutParams) (p : ℕ) (a : SockAddr) (u : Caller)
        → serialize_address site net (some host) port domain s ≡ some (some (p, a), u)
        → Asks s domain
            (connect (some (host, port, some t)))
            Opcode.connect
            (SocketOp.connect site.fd p (get_socket_size site net domain))
            t
    asks_listen :
        (backlog : ℤ) (t : TimeoutParams)
        → Asks s domain
            (listen (some (backlog, some t)))
            Opcode.listen
            (SocketOp.listen site.fd backlog)
            t
    asks_close :
        (t : TimeoutParams)
        → Asks s domain (close (some (some t))) Opcode.close (SocketOp.close site.fd) t

  module _ (s : Caller) (rs : List Resource) where
    abbrev pub domain : ℤ
    domain = (socket_of s site.self).domain

    -- NULL without an exception.
    abbrev pub IsSilent : SocketCall → Type 0
    IsSilent (bind args) = is_supported site.liburing domain ≡ false
    IsSilent (connect args) = is_supported site.liburing domain ≡ false
    IsSilent c = ⊥

    -- The flag `closed` of the socket, after `close`.
    abbrev pub Flag : SocketCall → Bool → Caller → Type 0
    Flag (close args) b u = (socket_of u site.self).closed ≡ b
    Flag c b u = Unit

    abbrev pub CallEnded : SocketCall → Option ℕ → Caller → Type 0
    CallEnded c none u =
        (e : Bool) × Has rs e u.heap
        × Restored s.registry u.registry
        × (e ≡ false → IsSilent c)
        × Flag c (socket_of s site.self).closed u
    CallEnded c (some f) u =
        (opcode : Opcode) × (op : SocketOp) × (t : TimeoutParams) × Asks s domain c opcode op t
        × Registered s u rs [] (socket_request site net f none oneshot opcode none none)
            (λ idx. submit_socket site.liburing op idx t)
        × Flag c true u

    -- Nothing was kept, and an exception is set.
    abbrev pub Undone : Caller → Type 0
    Undone u = Has rs true u.heap × Restored s.registry u.registry

    abbrev pub Sent : Opcode → SocketOp → TimeoutParams → Option ℕ → Caller → Type 0
    Sent opcode op t none u = Undone u
    Sent opcode op t (some f) u =
        Registered s u rs [] (socket_request site net f none oneshot opcode none none)
          (λ idx. submit_socket site.liburing op idx t)

    -- From a checked answer in a state that has the registry and the calls of `s`.
    Sent-from :
        (opcode : Opcode) (op : SocketOp) (t : TimeoutParams) (f : ℕ) (s' v : Caller)
        → s'.registry ≡ s.registry
        → s'.calls ≡ s.calls
        → (r : Option ℕ) (u : Caller)
        → Checked s' rs []
            (socket_request site net f none oneshot opcode none none)
            []
            (λ idx. submit_socket site.liburing op idx t)
            v
            r
            u
        → Sent opcode op t r u
    Sent-from opcode op t f s' v e k none u ((o, x), _) = (o, rw e at x)
    Sent-from opcode op t f s' v e k (some g) u (h, same, q) = rw same (
        Registered-from s' s rs [] (socket_request site net f none oneshot opcode none none)
          (λ idx. submit_socket site.liburing op idx t) u e k h)

    -- The operation was run with the request in the registry; its answer is checked.
    pub Asked-Ends :
        (opcode : Opcode) (op : SocketOp) (t : TimeoutParams) (f n : ℕ) (s' : Caller) (result : ℤ)
        (v : Caller)
        → s'.registry ≡ s.registry
        → s'.calls ≡ s.calls
        → Asked s' rs []
            (socket_request site net f none oneshot opcode none none)
            (submit_socket site.liburing op (pos n) t)
            n
            result
            v
        → Ends (check_sockets_result site net result (pos n) f v) (Sent opcode op t)
    Asked-Ends opcode op t f n s' result v e k (q, x, same) =
        Ends-weaken
          (Checked s' rs [] (socket_request site net f none oneshot opcode none none) []
            (λ idx. submit_socket site.liburing op idx t) v)
          (Sent opcode op t) (check_sockets_result site net result (pos n) f v)
          (socket-Checked-Ends s' rs [] (socket_request site net f none oneshot opcode none none)
            site net op t n v result q x)
          (Sent-from opcode op t f s' v e k)
