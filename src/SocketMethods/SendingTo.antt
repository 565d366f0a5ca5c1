-- ===== src/SocketMethods/SendingTo.antt =====
-- `sendto`, which submits a new payload with an address.
use uringio.Base.{
  ℕ, ◌%◌, ◌^◌, ℤ, pos, ◌≡◌, ◌∙◌, ◌⊎◌, inl, inr, refl, Bool, true, false, Option, none, some, List,
  [], ◌∷◌, ◌++◌, arith,
}
use uringio.Enums.{oneshot, Opcode}
use uringio.Uring.{M}
use uringio.Timer.{TimeoutParams}
use uringio.Payload.{LinearBuffer, BufferPayload}
use uringio.Registry.{Request}
use uringio.Registry.Invariant.{IsValid}
use uringio.Buffers.Heap.{Resource, reference, block, give_back, log, got, back}
use uringio.Buffers.Rules.{Has}
use uringio.Buffers.Free.{owned}
use uringio.Buffers.Create.{has_linear}
use uringio.Buffers.Create.Contract.{Reads, IsReady}
use uringio.Ops.Sockets.Creation.{is_supported}
use uringio.Ops.Sockets.Requests.{SocketOp, submit_socket}
use uringio.Methods.{Caller, Site, ◌>>◌, raise, pure, free_payload_at, refuse}
use uringio.Methods.Rules.{
  Ends, Ends-weaken, bind-Ends, same-Restored, Restored, Registered, Registered-from, payload,
  nothing, free_payload-Ends,
}
use uringio.Methods.Laws.{Unsubmitted, Checked, send_request-Ends}
use uringio.Methods.Plain.{with_error, with_future, create_future-Ends}
use uringio.SocketMethods.{
  Net, SockAddr, free_block, serialize_address, get_socket_size, check_sockets_result,
  socket_request,
}
use uringio.SocketMethods.Calls.{freeing}
use uringio.SocketMethods.Transfers.{SendtoArgs, sendto_and_free, sendto_payload}
use uringio.SocketMethods.Rules.{Asked, freeing-Ends, socket-Checked-Ends}

module _ (site : Site) (net : Net) where
  -- What `sendto` submits for a buffer and the memory of an address.
  abbrev pub sendto_op : SendtoArgs → LinearBuffer → (addr : ℕ) → SocketOp
  sendto_op a l addr =
      SocketOp.sendto site.fd l.buffer (l.len % 2 ^ 32) addr (get_socket_size site net a.domain)
        a.is_poll_first

  sendto_and_free-freeing :
      (a : SendtoArgs) (t : TimeoutParams) (p addr : ℕ) (idx : ℤ) (b : BufferPayload)
      (l : LinearBuffer) (u : Caller)
      → u.payloads p ≡ some b
      → b.linear ≡ some l
      → sendto_and_free site net a t p addr idx u
        ≡ freeing addr (submit_socket site.liburing (sendto_op a l addr) idx t) u
  unfolding submit_socket
  sendto_and_free-freeing a t p addr idx b l u there e = rw (there, e) refl

  module _ (s : Caller) (rs : List Resource) where
    abbrev request : ℕ → Request
    request f = socket_request site net f none oneshot Opcode.sendmsg none none

    -- What NULL leaves: nothing, with an exception unless the domain is neither AF_INET nor
    -- AF_INET6; or, when the operation was run and did not succeed, with an exception, its payload.
    abbrev pub Leaves : Option (SendtoArgs × Option TimeoutParams) → Caller → Type 0
    Leaves args u =
        ((e : Bool) × Has rs e u.heap
          × (e ≡ false
              → (a : SendtoArgs) × (t : Option TimeoutParams) × (args ≡ some (a, t))
                × (is_supported site.liburing a.domain ≡ false)))
        ⊎ ((p : ℕ) × (b : BufferPayload) × (l : LinearBuffer) × (addr : ℕ) × (a : SendtoArgs)
            × (t : TimeoutParams) × (args ≡ some (a, some t))
            × (b.linear ≡ some l)
            × IsReady has_linear b
            × Unsubmitted s (λ idx. submit_socket site.liburing (sendto_op a l addr) idx t)
            × Has (owned p b ++ rs) true u.heap)

    -- The address is what `_serialize_address` makes of the arguments.
    abbrev pub Addressed : SendtoArgs → (addr : ℕ) → Type 0
    Addressed a addr =
        (sockaddr : SockAddr) × (u : Caller) × (serialize_address site net (some a.host) a.port
            a.domain s
          ≡ some (some (addr, sockaddr), u))

    abbrev pub SendtoEnded : Option (SendtoArgs × Option TimeoutParams) → Option ℕ → Caller → Type 0
    SendtoEnded args none u = Leaves args u × Restored s.registry u.registry
    SendtoEnded args (some f) u =
        (p : ℕ) × (b : BufferPayload) × (l : LinearBuffer) × (addr : ℕ) × (a : SendtoArgs)
        × (t : TimeoutParams) × (args ≡ some (a, some t))
        × (u.payloads p ≡ some b)
        × (b.linear ≡ some l)
        × Reads site.host a.from b
        × (is_supported site.liburing a.domain ≡ true)
        × Addressed a addr
        × Registered s u (owned p b ++ rs) [] (request f)
            (λ idx. submit_socket site.liburing (sendto_op a l addr) idx t)

    -- The address and the payload are there.
    module _ (a : SendtoArgs) (t : TimeoutParams) (u : Caller) (p addr : ℕ) (b : BufferPayload)
        (l : LinearBuffer) (there : u.payloads p ≡ some b) (ready : IsReady has_linear b)
        (has : b.linear ≡ some l) (same : u.registry ≡ s.registry) (calls : u.calls ≡ s.calls)
        (memory : Reads site.host a.from b) (good : is_supported site.liburing a.domain ≡ true)
        (addressed : Addressed a addr) (v : IsValid s.registry) where
      abbrev Q : Option ℕ → Caller → Type 0
      Q = SendtoEnded (some (a, some t))

      abbrev submit : ℤ → M ℤ
      submit idx = submit_socket site.liburing (sendto_op a l addr) idx t

      -- Both are given back.
      undo-Ends :
          (e : Bool) (x : Caller)
          → x.payloads ≡ u.payloads
          → x.registry ≡ u.registry
          → Has (block addr ∷ (owned p b ++ rs)) e x.heap
          → Ends
              ((free_block addr >> free_payload_at p false) x)
              (λ _ y. Has rs e y.heap × (y.registry ≡ s.registry))
      unfolding give_back
      undo-Ends e x k r o =
          Ends-weaken (λ _ y. Has rs e y.heap × (y.registry ≡ x.registry)) _
            (free_payload_at p false (record x { heap = log (back (block addr)) x.heap }))
            (free_payload-Ends u (record x { heap = log (back (block addr)) x.heap }) (some p)
              (owned p b) rs e (payload p b there ready.whole ready.normal) k
              (record { owned = λ w. omega (arith, o.owned w); raised = o.raised }))
            (λ _ y (h, q). (h, q ∙ (r ∙ same)))

      given-Ended : (x : Caller) → x.registry ≡ s.registry → Has rs true x.heap → Q none x
      given-Ended x e o = (inl (true, o, λ k. cc k), rw e (same-Restored s.registry v))

      sent-Ends :
          (f : ℕ) (r : Option ℕ) (w x : Caller)
          → Checked (with_future u f) (owned p b ++ rs) [] (request f) [] submit w r x
          → w.payloads ≡ u.payloads
          → Q r x
      sent-Ends f none w x ((o, k), (n, free, un)) e = (
        inr (p, b, l, addr, a, t, refl, has, ready, (n, rw same at free, rw calls at un), o),
        rw same at k,
      )
      sent-Ends f (some g) w x (h, k, q) e = (
        p,
        b,
        l,
        addr,
        a,
        t,
        refl,
        rw (q, e) there,
        has,
        memory,
        good,
        addressed,
        rw k (
            Registered-from (with_future u f) s (owned p b ++ rs) [] (request f) submit x same calls
              h),
      )

      pub sendto_payload-Ends :
          Has (block addr ∷ (owned p b ++ rs)) false u.heap
          → Ends (sendto_payload site net a t addr p u) Q
      unfolding give_back
      sendto_payload-Ends o =
          create_future-Ends site u rs Q _
            (bind-Ends (λ _ y. Has rs true y.heap × (y.registry ≡ s.registry)) Q
              (free_block addr >> free_payload_at p false) (λ _. pure none) (with_error u)
              (undo-Ends true (with_error u) refl refl (record { owned = o.owned; raised = refl }))
              (λ _ y (h, e). given-Ended y e h))
            (λ f.
              let mine : Has (reference f ∷ (block addr ∷ (owned p b ++ rs))) false
                  (with_future u f).heap =
                record { owned = λ w. omega (arith, o.owned w); raised = o.raised } in
              send_request-Ends (with_future u f) (block addr ∷ (owned p b ++ rs)) [] (request f)
                site Q (refuse site f (free_block addr >> free_payload_at p false))
                (sendto_and_free site net a t p addr) (check_sockets_result site net) (rw same v)
                nothing mine
                (bind-Ends (λ _ y. Has rs false y.heap × (y.registry ≡ s.registry)) Q
                  (free_block addr >> free_payload_at p false) (λ _. raise) (dropped f)
                  (undo-Ends false (dropped f) refl refl
                    (record { owned = λ w. omega (arith, o.owned w); raised = o.raised }))
                  (λ _ y (h, e).
                    given-Ended (with_error y) e (record { owned = h.owned; raised = refl })))
                (λ n x y.
                  bind-Ends
                    (Asked (with_future u f) (owned p b ++ rs) [] (request f) (submit (pos n)) n) Q
                    (sendto_and_free site net a t p addr (pos n))
                    (λ result. check_sockets_result site net result (pos n) f) x
                    (rw
                      (sendto_and_free-freeing a t p addr (pos n) b l x
                        (rw (y.unsent.payloads) there) has)
                      (freeing-Ends (with_future u f) (owned p b ++ rs) [] (request f) addr n
                        (submit (pos n)) x y))
                    (λ result z (q, unsent, _).
                      Ends-weaken
                        (Checked (with_future u f) (owned p b ++ rs) [] (request f) [] submit z) Q
                        (check_sockets_result site net result (pos n) f z)
                        (socket-Checked-Ends (with_future u f) (owned p b ++ rs) [] (request f) site
                          net (sendto_op a l addr) t n z result q unsent)
                        (λ r c h. sent-Ends f r z c h unsent.payloads))))
        where
          dropped : ℕ → Caller
          dropped f = record u { heap = log (back (reference f)) (log (got (reference f)) u.heap) }
