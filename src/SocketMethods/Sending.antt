-- ===== src/SocketMethods/Sending.antt =====
-- `send`, which submits a new payload.
use uringio.Base.{
  ℕ, ◌%◌, ◌^◌, ℤ, pos, ◌≡◌, refl, Bool, true, false, Option, none, some, List, [], ◌∷◌, ◌++◌, arith,
}
use uringio.Enums.{TransferMode, normal_transfer, zero_copy, oneshot, Opcode, normal_buf}
use uringio.Uring.{M}
use uringio.Timer.{TimeoutParams}
use uringio.Payload.{LinearBuffer, BufferPayload}
use uringio.Registry.{Request}
use uringio.Registry.Invariant.{IsValid}
use uringio.Buffers.Heap.{Resource, reference, give_back, log, got, back}
use uringio.Buffers.Rules.{Has}
use uringio.Buffers.Free.{owned}
use uringio.Buffers.Create.{has_linear}
use uringio.Buffers.Create.Contract.{Reads, IsReady}
use uringio.Ops.Sockets.Requests.{SocketOp, submit_socket}
use uringio.Methods.{Caller, Site, in_ring, raise, pure, free_payload_at, or_null, refuse}
use uringio.Methods.Rules.{
  Ends, Ends-weaken, bind-Ends, same-Restored, Refused, Registered, Registered-from, payload,
  free_payload-Ends,
}
use uringio.Methods.Laws.{Checked, send_request-Ends}
use uringio.Methods.Plain.{with_error, with_future, create_future-Ends}
use uringio.SocketMethods.{Net, check_sockets_result, socket_request}
use uringio.SocketMethods.Dispatch.{send_dispatcher}
use uringio.SocketMethods.Transfers.{send_payload}
use uringio.SocketMethods.Rules.{Asked, in_ring-Stored-Ends, socket-Checked-Ends}

-- What `send` submits for a buffer.
abbrev pub send_op : TransferMode → (fd : ℤ) → LinearBuffer → (is_poll_first : Bool) → SocketOp
send_op normal_transfer fd l is_poll_first =
    SocketOp.send fd l.buffer (l.len % 2 ^ 32) is_poll_first
send_op zero_copy fd l is_poll_first = SocketOp.send_zc fd l.buffer l.len is_poll_first

-- A payload of mode NORMAL_BUF is sent from its buffer, also without copies.
send_dispatcher-normal :
    (site : Site) (transfer : TransferMode) (p : ℕ) (b : BufferPayload) (l : LinearBuffer) (idx : ℤ)
    (is_poll_first : Bool) (t : TimeoutParams) (u : Caller)
    → u.payloads p ≡ some b
    → b.mode ≡ normal_buf
    → b.linear ≡ some l
    → send_dispatcher site p transfer idx is_poll_first t u
      ≡ in_ring (submit_socket site.liburing (send_op transfer site.fd l is_poll_first) idx t) u
unfolding send_dispatcher submit_socket
send_dispatcher-normal site normal_transfer p b l idx is_poll_first t u there n e =
    rw (there, e) refl
send_dispatcher-normal site zero_copy p b l idx is_poll_first t u there n e = rw (there, n, e) refl

module _ (site : Site) (net : Net) (s : Caller) (rs : List Resource) where
  abbrev request : (p f : ℕ) → Request
  request p f = socket_request site net f (some p) oneshot Opcode.send none none

  -- A future of `send` stands for one send of the data's memory, under a new request that holds the
  -- payload with the loan of the data.
  abbrev pub SendEnded : Option (ℕ × Bool × Option TimeoutParams) → Option ℕ → Caller → Type 0
  SendEnded args none u = Refused s rs u
  SendEnded args (some f) u =
      (p : ℕ) × (b : BufferPayload) × (l : LinearBuffer) × (obj : ℕ) × (is_poll_first : Bool)
      × (t : TimeoutParams) × (args ≡ some (obj, is_poll_first, some t))
      × (u.payloads p ≡ some b)
      × (b.linear ≡ some l)
      × Reads site.host obj b
      × Registered s u rs (owned p b) (request p f) (λ idx.
        submit_socket site.liburing (send_op net.transfer_mode site.fd l is_poll_first) idx t)

  -- A payload that was made has its request sent.
  module _ (obj : ℕ) (is_poll_first : Bool) (t : TimeoutParams) (u : Caller) (p : ℕ)
      (b : BufferPayload) (l : LinearBuffer) (there : u.payloads p ≡ some b)
      (ready : IsReady has_linear b) (has : b.linear ≡ some l) (same : u.registry ≡ s.registry)
      (calls : u.calls ≡ s.calls) (memory : Reads site.host obj b) (v : IsValid s.registry) where
    abbrev Q : Option ℕ → Caller → Type 0
    Q = SendEnded (some (obj, is_poll_first, some t))

    abbrev submit : ℤ → M ℤ
    submit idx =
        submit_socket site.liburing (send_op net.transfer_mode site.fd l is_poll_first) idx t

    -- Without a future.
    no_future-Ends :
        Has (owned p b ++ rs) true (with_error u).heap
        → Ends
            (or_null site {A = ℕ} (free_payload_at p false) none (λ f. pure none) (with_error u))
            Q
    no_future-Ends o =
        bind-Ends (λ _ x. Has rs true x.heap × (x.registry ≡ u.registry)) Q
          (free_payload_at p false) (λ _. pure none) (with_error u)
          (free_payload-Ends u (with_error u) (some p) (owned p b) rs true
            (payload p b there ready.whole ready.normal) refl o)
          (λ _ x (o, e). (o, rw (e, same) (same-Restored s.registry v)))

    -- Without room in the registry.
    no_room-Ends :
        (f : ℕ)
        → Has (reference f ∷ (owned p b ++ rs)) false (with_future u f).heap
        → Ends (refuse site f (free_payload_at p false) (with_future u f)) Q
    unfolding give_back
    no_room-Ends f o =
        bind-Ends (λ _ x. Has rs false x.heap × (x.registry ≡ u.registry)) Q
          (free_payload_at p false) (λ _. raise) dropped
          (free_payload-Ends u dropped (some p) (owned p b) rs false
            (payload p b there ready.whole ready.normal) refl
            (record { owned = λ w. omega (arith, o.owned w); raised = o.raised }))
          (λ _ x (o, e).
            (record { owned = o.owned; raised = refl }, rw (e, same) (same-Restored s.registry v)))
      where
        dropped : Caller
        dropped = record u { heap = log (back (reference f)) (log (got (reference f)) u.heap) }

    sent-Ends :
        (f : ℕ) (r : Option ℕ) (w x : Caller)
        → w.payloads ≡ u.payloads
        → Checked (with_future u f) rs (owned p b) (request p f) [] submit w r x
        → Q r x
    sent-Ends f none w x e ((o, k), _) = (o, rw same at k)
    sent-Ends f (some g) w x e (h, k, q) = (
      p,
      b,
      l,
      obj,
      is_poll_first,
      t,
      refl,
      rw (q, e) there,
      has,
      memory,
      rw k (Registered-from (with_future u f) s rs (owned p b) (request p f) submit x same calls h),
    )

    pub send_payload-Ends :
        Has (owned p b ++ rs) false u.heap → Ends (send_payload site net is_poll_first t p u) Q
    unfolding send_dispatcher
    send_payload-Ends o =
        create_future-Ends site u rs Q _
          (no_future-Ends (record { owned = o.owned; raised = refl }))
          (λ f.
            let mine : Has (reference f ∷ (owned p b ++ rs)) false (with_future u f).heap = record {
              owned = λ w. omega (arith, o.owned w);
              raised = o.raised;
            } in
            send_request-Ends (with_future u f) rs (owned p b) (request p f) site Q
              (refuse site f (free_payload_at p false))
              (λ idx. send_dispatcher site p net.transfer_mode idx is_poll_first t)
              (check_sockets_result site net) (rw same v)
              (payload p b there ready.whole ready.normal) mine (no_room-Ends f mine)
              (λ n x y.
                bind-Ends (Asked (with_future u f) rs (owned p b) (request p f) (submit (pos n)) n)
                  Q (send_dispatcher site p net.transfer_mode (pos n) is_poll_first t)
                  (λ result. check_sockets_result site net result (pos n) f) x
                  (rw
                    (send_dispatcher-normal site net.transfer_mode p b l (pos n) is_poll_first t x
                      (rw (y.unsent.payloads) there) ready.normal has)
                    (in_ring-Stored-Ends (with_future u f) rs (owned p b) (request p f) n
                      (submit (pos n)) x y))
                  (λ result z (q, unsent, _).
                    Ends-weaken (Checked (with_future u f) rs (owned p b) (request p f) [] submit z)
                      Q (check_sockets_result site net result (pos n) f z)
                      (socket-Checked-Ends (with_future u f) rs (owned p b) (request p f) site net
                        (send_op net.transfer_mode site.fd l is_poll_first) t n z result q unsent)
                      (λ r c. sent-Ends f r z c unsent.payloads))))
