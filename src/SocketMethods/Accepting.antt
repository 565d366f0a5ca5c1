-- ===== src/SocketMethods/Accepting.antt =====
-- `accept`, and what it leaves behind when it fails.
use uringio.Base.{
  Bool, ℕ, ℤ, is_neg, pos, ◌≡◌, refl, ◌∙◌, true, false, Option, none, some, List, [], ◌∷◌, ◌++◌,
  arith,
}
use uringio.Uring.{M}
use uringio.Enums.{StreamStrategy, oneshot, multishot, Opcode}
use uringio.Timer.{TimeoutParams}
use uringio.Registry.{Request}
use uringio.Registry.Invariant.{IsValid}
use uringio.Buffers.Heap.{Step, bytes, Resource, block, reference, give_back}
use uringio.Buffers.Rules.{Has, Has-same, blocks_at, weight-append}
use uringio.Ops.Sockets.Requests.{SocketOp, submit_socket}
use uringio.Methods.{Caller, Site, in_ring, refuse, send_request}
use uringio.Methods.Rules.{
  Ends, Ends-weaken, bind-Ends, Restored, same-Restored, Registered, Registered-from, nothing,
}
use uringio.Methods.Laws.{Unsubmitted, Checked, send_request_full-Ends}
use uringio.Methods.Plain.{with_error, with_args-Ends, with_future, create_future-Ends}
use uringio.SocketMethods.{Net, allocate, free_block, check_sockets_result, socket_request}
use uringio.SocketMethods.Addresses.{Same, allocate-Ends}
use uringio.SocketMethods.Dispatch.{accept_dispatcher}
use uringio.SocketMethods.Calls.{address_of, accept_with, uringio_socket_accept}
use uringio.SocketMethods.Rules.{
  Admits, guarded-Ends, Asked, in_ring-Stored-Ends, socket-Checked-Ends,
}

abbrev pub accept_op : StreamStrategy → (fd : ℤ) → (addr len : ℕ) → SocketOp
accept_op oneshot fd addr len = SocketOp.accept fd addr len (pos 0)
accept_op multishot fd addr len = SocketOp.accept_multishot fd addr len (pos 0)

accept_dispatcher-op :
    (site : Site) (stream : StreamStrategy) (idx : ℤ) (addr len : ℕ) (t : TimeoutParams)
    (u : Caller)
    → accept_dispatcher site stream idx addr len t u
      ≡ in_ring (submit_socket site.liburing (accept_op stream site.fd addr len) idx t) u
unfolding accept_dispatcher submit_socket
accept_dispatcher-op site oneshot idx addr len t u = refl
accept_dispatcher-op site multishot idx addr len t u = refl

module _ (site : Site) (net : Net) (s : Caller) (rs : List Resource) where
  abbrev request : (peer : Option ℕ) → (f : ℕ) → Request
  request peer f = socket_request site net f none site.stream_strategy Opcode.accept peer none

  abbrev submit : (peer : Option ℕ) → (addrlen : ℕ) → TimeoutParams → ℤ → M ℤ
  submit peer addrlen t idx =
      submit_socket site.liburing (accept_op site.stream_strategy site.fd (address_of peer) addrlen)
        idx t

  -- What a call that answers NULL leaves behind: nothing; its future, when there is no memory for
  -- the length; the memory for the peer's address, when the registry is full; that and the length,
  -- when the operation was run and did not succeed.
  pub data LeftBehind : List Resource → Type 0 where
    nothing_left : LeftBehind []
    future_left :
        (f : ℕ) (steps : List Step)
        → site.host.malloc (bytes net.sizeof_socklen) steps ≡ none
        → LeftBehind (reference f ∷ [])
    peer_left : (peer : Option ℕ) → is_neg s.registry.top ≡ true → LeftBehind (blocks_at peer)
    addresses_left :
        (addrlen : ℕ) (peer : Option ℕ) (t : TimeoutParams)
        → Unsubmitted s (submit peer addrlen t)
        → LeftBehind (block addrlen ∷ blocks_at peer)

  abbrev pub AcceptEnded : Option (Option TimeoutParams) → Option ℕ → Caller → Type 0
  AcceptEnded args none u =
      (left : List Resource) × LeftBehind left
      × Has (left ++ rs) true u.heap
      × Restored s.registry u.registry
  AcceptEnded args (some f) u =
      (peer : Option ℕ) × (addrlen : ℕ) × (t : TimeoutParams) × (args ≡ some (some t))
      × Registered s u (block addrlen ∷ (blocks_at peer ++ rs)) [] (request peer f)
          (submit peer addrlen t)

  module _ (t : TimeoutParams) (f : ℕ) where
    abbrev Q : Option ℕ → Caller → Type 0
    Q = AcceptEnded (some (some t))

    Checked-AcceptEnded :
        (peer : Option ℕ) (addrlen : ℕ) (u x : Caller)
        → u.registry ≡ s.registry
        → u.calls ≡ s.calls
        → (r : Option ℕ) (z : Caller)
        → Checked u
            (block addrlen ∷ (blocks_at peer ++ rs))
            []
            (request peer f)
            []
            (submit peer addrlen t)
            x
            r
            z
        → Q r z
    Checked-AcceptEnded peer addrlen u x e c none z ((o, k), (n, free, un)) = (
      block addrlen ∷ blocks_at peer,
      addresses_left addrlen peer t (n, rw e at free, rw c at un),
      o,
      rw e at k,
    )
    Checked-AcceptEnded peer addrlen u x e c (some g) z (h, same, q) = rw same (
      peer,
      addrlen,
      t,
      refl,
      Registered-from u s (block addrlen ∷ (blocks_at peer ++ rs)) [] (request peer f)
          (submit peer addrlen t) z e c h,
    )

    -- With the memory for the addresses.
    requested-Ends :
        (peer : Option ℕ) (addrlen : ℕ) (u : Caller)
        → IsValid s.registry
        → u.registry ≡ s.registry
        → u.calls ≡ s.calls
        → Has (reference f ∷ (block addrlen ∷ (blocks_at peer ++ rs))) false u.heap
        → Ends
            (send_request site
              (request peer f)
              (refuse site f (free_block addrlen))
              (λ idx. accept_dispatcher site site.stream_strategy idx (address_of peer) addrlen t)
              (check_sockets_result site net)
              u)
            Q
    unfolding give_back
    requested-Ends peer addrlen u v e c o =
        send_request_full-Ends u (block addrlen ∷ (blocks_at peer ++ rs)) [] (request peer f) site Q
          (refuse site f (free_block addrlen))
          (λ idx. accept_dispatcher site site.stream_strategy idx (address_of peer) addrlen t)
          (check_sockets_result site net) (rw e v) nothing o
          (λ full. (
            blocks_at peer,
            peer_left peer (rw e at full),
            record { owned = λ w. omega (arith, o.owned w); raised = refl },
            rw e (same-Restored s.registry v),
          ))
          (λ n x y.
            bind-Ends
              (Asked u (block addrlen ∷ (blocks_at peer ++ rs)) [] (request peer f)
                (submit peer addrlen t (pos n)) n)
              Q (accept_dispatcher site site.stream_strategy (pos n) (address_of peer) addrlen t)
              (λ result. check_sockets_result site net result (pos n) f) x
              (rw
                (accept_dispatcher-op site site.stream_strategy (pos n) (address_of peer) addrlen t
                  x)
                (in_ring-Stored-Ends u (block addrlen ∷ (blocks_at peer ++ rs)) [] (request peer f)
                  n (submit peer addrlen t (pos n)) x y))
              (λ result z (q, unsent, _).
                Ends-weaken
                  (Checked u (block addrlen ∷ (blocks_at peer ++ rs)) [] (request peer f) []
                    (submit peer addrlen t) z)
                  Q (check_sockets_result site net result (pos n) f z)
                  (socket-Checked-Ends u (block addrlen ∷ (blocks_at peer ++ rs)) []
                    (request peer f) site net
                    (accept_op site.stream_strategy site.fd (address_of peer) addrlen) t n z result
                    q unsent)
                  (Checked-AcceptEnded peer addrlen u z e c)))

    -- With the memory for the length, or without.
    abbrev Lengthy : Caller → List Resource → Option ℕ → Caller → Type 0
    Lengthy u os none x =
        Same u x
        × Has os false x.heap
        × (site.host.malloc (bytes net.sizeof_socklen) u.heap.steps ≡ none)
    Lengthy u os (some p) x = Same u x × Has (block p ∷ os) false x.heap × Unit

    -- Why there is no memory for the length.
    abbrev Lacks : Option ℕ → Type 0
    Lacks none = (steps : List Step) × (site.host.malloc (bytes net.sizeof_socklen) steps ≡ none)
    Lacks (some p) = Unit

    abbrev Allocated : Caller → List Resource → Option ℕ → Caller → Type 0
    Allocated u os p x = Same u x × Has (blocks_at p ++ os) false x.heap

    accept_with-Ends :
        (addrlen : Option ℕ) (u : Caller)
        → IsValid s.registry
        → u.registry ≡ s.registry
        → u.calls ≡ s.calls
        → Lacks addrlen
        → Has (blocks_at addrlen ++ (reference f ∷ rs)) false u.heap
        → Ends (accept_with site net t f addrlen u) Q
    accept_with-Ends none u v e c (steps, m) o = (
      reference f ∷ [],
      future_left f steps m,
      record { owned = o.owned; raised = refl },
      rw e (same-Restored s.registry v),
    )
    accept_with-Ends (some addrlen) u v e c _ o =
        bind-Ends (Allocated u (block addrlen ∷ (reference f ∷ rs))) Q
          (allocate site.host net.sizeof_sockaddr_storage) _ u
          (allocate-Ends site net.sizeof_sockaddr_storage u (block addrlen ∷ (reference f ∷ rs))
            (Allocated u (block addrlen ∷ (reference f ∷ rs))) o (λ x k o e. (k, o))
            (λ p x k o. (k, o)))
          (λ peer x (k, o). requested-Ends peer addrlen x v (k.registry ∙ e) (k.calls ∙ c) (
            Has-same _
              (λ w. omega (
                arith,
                weight-append w (blocks_at peer) (block addrlen ∷ (reference f ∷ rs)),
                weight-append w (blocks_at peer) rs,
              ))
              o))

  -- When the loop has the attribute `_closed`, `accept`, on every path: when it answers NULL, an
  -- exception is set, the registry has the requests in flight that it had, and it leaves nothing
  -- behind, or its future if there was no memory for the length, or the memory for the peer's
  -- address if the registry is full, or that and the length's if the accept was run and did not
  -- succeed; the ring's queue is not looked at. When it answers a future, the calling thread is the
  -- loop's, the loop is not closing and the socket is open; one new request is in flight, in a slot
  -- that was free, with that future, the socket and the memory for the peer's address; one accept,
  -- multishot in a multishot context, was submitted under its index; and what is held more are the
  -- references of the answer, of the request's future and its socket, and the memory for the
  -- address and the length.
  pub uringio_socket_accept-AcceptEnded :
      (args : Option (Option TimeoutParams))
      → (c : Bool) → site.is_closing ≡ some c
      → IsValid s.registry
      → Has rs false s.heap
      → Ends
          (uringio_socket_accept site net args s)
          (λ r u. AcceptEnded args r u × Admits site net s r)
  unfolding uringio_socket_accept
  uringio_socket_accept-AcceptEnded args c known v o =
      guarded-Ends site net s (AcceptEnded args) c known refused _ (λ _.
        with_args-Ends site s (AcceptEnded args) refused args _ (λ timeout e.
          with_args-Ends site s (AcceptEnded args) refused timeout _ (λ t e'.
            rw (e, e')
              (create_future-Ends site s rs (AcceptEnded (some (some t))) _ refused (λ f.
                bind-Ends (Lengthy t f (with_future s f) (reference f ∷ rs))
                  (AcceptEnded (some (some t))) (allocate site.host net.sizeof_socklen)
                  (accept_with site net t f) (with_future s f)
                  (allocate-Ends site net.sizeof_socklen (with_future s f) (reference f ∷ rs)
                    (Lengthy t f (with_future s f) (reference f ∷ rs))
                    (record { owned = λ w. omega (arith, o.owned w); raised = o.raised })
                    (λ x k o m. (k, o, m)) (λ p x k o. (k, o, tt)))
                  (went_on t f))))))
    where
      went_on :
          (t : TimeoutParams) (f : ℕ) (addrlen : Option ℕ) (x : Caller)
          → Lengthy t f (with_future s f) (reference f ∷ rs) addrlen x
          → Ends (accept_with site net t f addrlen x) (AcceptEnded (some (some t)))
      went_on t f none x (k, o, m) =
          accept_with-Ends t f none x v k.registry k.calls ((with_future s f).heap.steps, m) o
      went_on t f (some p) x (k, o, _) = accept_with-Ends t f (some p) x v k.registry k.calls tt o

      refused : AcceptEnded args none (with_error s)
      refused =
          ([], nothing_left, record { owned = o.owned; raised = refl }, same-Restored s.registry v)
