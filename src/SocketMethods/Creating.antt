-- ===== src/SocketMethods/Creating.antt =====
-- `Uringio_prep_socket`, which makes a new socket object and asks for its descriptor.
use uringio.Base.{
  ℕ, ℤ, pos, negsuc, eqb_ℤ, not, ◌||◌, ◌≡◌, ◌≢◌, refl, ap, true, false, Bool-cases, inl, inr, ◌⊎◌,
  Option, none, some, Option-cases, List, [], ◌∷◌, arith, ◌==◌, Bool, if◌then◌else◌,
}
use uringio.Uring.{M, Call}
use uringio.Timer.{TimeoutParams}
use uringio.Registry.Invariant.{IsValid}
use uringio.Buffers.Heap.{Resource, reference, got, back, log, give_back}
use uringio.Buffers.Rules.{Has}
use uringio.Ops.Sockets.{prep_socket}
use uringio.Ops.Sockets.Creation.{is_supported, Refused, prep_socket-Contract, prep_socket-Refused}
use uringio.Methods.{
  refuse_closing, raise, S, Socket, Caller, Site, update, ◌>>=◌, ◌>>◌, in_ring, create_future,
  or_null, send_request, drop_reference,
}
use uringio.Methods.Rules.{
  Ends, Ends-weaken, same-Restored, Restored, Registered, Registered-from, nothing,
}
use uringio.Methods.Laws.{
  Contract-cases, in_ring-Ends, IsFailure, GivesUp, Checks, Stored, called, Checked, Checked-Ends,
  send_request-Ends,
}
use uringio.Methods.Plain.{with_error, create_future-Ends}
use uringio.SocketMethods.{Net, socket_of}
use uringio.SocketMethods.Calls.{
  loop_guarded, set_domain, prep_request, with_socket_args, check_prep, refuse_socket,
  uringio_prep_socket,
}

-- A result with which `Uringio_prep_socket` answers NULL.
abbrev IsBad : ℤ → Type 0
IsBad result = (result ≡ negsuc 0) ⊎ ((result ≡ negsuc 1) ⊎ (result ≡ pos 0))

bad_not_one : (result : ℤ) → IsBad result → result ≢ pos 1
bad_not_one result (inl e) q = cc (e, q)
bad_not_one result (inr (inl e)) q = cc (e, q)
bad_not_one result (inr (inr e)) q = cc (e, q)

module _ (site : Site) (net : Net) where
  refused-IsBad :
      (t : TimeoutParams) (h : List Call) (r : ℤ × List Call)
      → Refused site.liburing t h r
      → IsBad r.0
  refused-IsBad t h r (Refused.no_sqe e q) = inl (ap (λ (r : ℤ × List Call). r.0) q)
  refused-IsBad t h r (Refused.taken sqe before e a q) =
      inr (inl (ap (λ (r : ℤ × List Call). r.0) q))
  refused-IsBad t h r (Refused.no_timeout sqe e m q) = inl (ap (λ (r : ℤ × List Call). r.0) q)

  failure-IsBad :
      (result : ℤ) → IsFailure result ⊎ (result ≡ pos 1) → IsBad result ⊎ (result ≡ pos 1)
  failure-IsBad result (inl (inl e)) = inl (inl e)
  failure-IsBad result (inl (inr e)) = inl (inr (inr e))
  failure-IsBad result (inr e) = inr e

  prep_socket-cases :
      (idx domain type : ℤ) (t : TimeoutParams) (h : List Call)
      → IsBad (prep_socket site.liburing idx domain type t h).0
        ⊎ ((prep_socket site.liburing idx domain type t h).0 ≡ pos 1)
  prep_socket-cases idx domain type t h = elim (Bool-cases (is_supported site.liburing domain)) [
    | inl good ↦
        failure-IsBad _
          (Contract-cases (prep_socket-Contract site.liburing domain type idx t h good))
    | inr bad ↦
        inl (refused-IsBad t h _ (prep_socket-Refused site.liburing domain type idx t h bad))
  ]

  -- The state in which an exception is set and the reference to the new socket is dropped.
  abbrev given : ℕ → Caller → Caller
  given sock t = record t { heap = log (back (reference sock)) (record t.heap { error = true }) }

  gave :
      (sock : ℕ) (t : Caller) (os : List Resource)
      → Has (reference sock ∷ os) false t.heap
      → Has os true (given sock t).heap
  gave sock t os o = record { owned = λ w. omega (arith, o.owned w); raised = refl }

  check_prep-Checks :
      (sock : ℕ) → Checks site IsBad (reference sock ∷ []) (check_prep site net sock)
  unfolding give_back
  check_prep-Checks sock = record {
    failed = λ result idx f t os bad o.
        elim bad as (λ _. GivesUp site idx f t os (check_prep site net sock result idx f t)) [
          | inl e ↦ (given sock t, rw e refl, gave sock t os o, refl, refl)
          | inr (inl e) ↦ (given sock t, rw e refl, gave sock t os o, refl, refl)
          | inr (inr e) ↦ (given sock t, rw e refl, gave sock t os o, refl, refl)
        ];
    fails = bad_not_one;
    passed = λ idx f t. refl;
  }

  module _ (s : Caller) (rs : List Resource) where
    -- How the method ends: what a future stands for, by the arguments.
    abbrev pub PrepEnded : Option (ℤ × ℤ × Option TimeoutParams) → Option ℕ → Caller → Type 0
    PrepEnded args none u = Has rs true u.heap × Restored s.registry u.registry
    PrepEnded args (some f) u =
        (sock : ℕ) × (domain : ℤ) × (type : ℤ) × (t : TimeoutParams) × (args
          ≡ some (domain, type, some t))
        × Registered s u (reference sock ∷ rs) [] (prep_request sock f)
            (λ idx. prep_socket site.liburing idx domain type t)
        × (socket_of u sock ≡ record { closed = false; domain = domain })

    -- The sockets with the new one, and then with its domain.
    abbrev opened : ℕ → ℕ → Socket
    opened sock = update s.sockets sock (record (s.sockets sock) { closed = false })

    abbrev named : ℕ → ℤ → ℕ → Socket
    named sock domain = update (opened sock) sock (record (opened sock sock) { domain = domain })

    named_self :
        (sock : ℕ) (domain : ℤ)
        → named sock domain sock ≡ record { closed = false; domain = domain }
    named_self sock domain = go (sock == sock) (ground arith)
      where
        go :
            (b : Bool)
            → b ≡ true
            → (if b
                then record {
                  closed =
                      (if b
                        then record (s.sockets sock) { closed = false }
                        else s.sockets sock).closed;
                  domain = domain;
                }
                else opened sock sock)
              ≡ record { closed = false; domain = domain }
        go b e = rw e refl

    -- The state in which the new socket and its future are there.
    abbrev with_socket : (sock f : ℕ) → ℤ → Caller
    with_socket sock f domain = record s {
      heap = log (got (reference f)) (log (got (reference sock)) s.heap);
      sockets = named sock domain;
    }

    -- From the answer that was checked.
    done-PrepEnded :
        (sock f : ℕ) (domain type : ℤ) (t : TimeoutParams) (v : Caller)
        → v.sockets ≡ named sock domain
        → (a : Option ℕ) (u : Caller)
        → Checked
            (with_socket sock f domain)
            rs
            []
            (prep_request sock f)
            (reference sock ∷ [])
            (λ idx. prep_socket site.liburing idx domain type t)
            v
            a
            u
        → PrepEnded (some (domain, type, some t)) a u
    done-PrepEnded sock f domain type t v same none u h = h.0
    done-PrepEnded sock f domain type t v same (some g) u (h, e, k) = (
      sock,
      domain,
      type,
      t,
      refl,
      rw e (
          Registered-from (with_socket sock f domain) s (reference sock ∷ rs) []
            (prep_request sock f) (λ idx. prep_socket site.liburing idx domain type t) u refl refl
            h),
      rw (k, same) (named_self sock domain),
    )

    sent-PrepEnded :
        (sock f : ℕ) (domain type : ℤ) (t : TimeoutParams)
        → IsValid s.registry
        → Has rs false s.heap
        → Ends
            (send_request site
              (prep_request sock f)
              (refuse_socket site net sock f)
              (λ idx. in_ring (prep_socket site.liburing idx domain type t))
              (check_prep site net sock)
              (with_socket sock f domain))
            (PrepEnded (some (domain, type, some t)))
    unfolding give_back
    sent-PrepEnded sock f domain type t v o =
        send_request-Ends (with_socket sock f domain) (reference sock ∷ rs) [] (prep_request sock f)
          site Q (refuse_socket site net sock f) (λ idx. in_ring (prep idx))
          (check_prep site net sock) v nothing
          (record { owned = λ w. omega (arith, o.owned w); raised = o.raised })
          (
            record { owned = λ w. omega (arith, o.owned w); raised = refl },
            same-Restored s.registry v,
          )
          (λ n t' x.
            in_ring-Ends Q (prep (pos n)) (λ result. check_prep site net sock result (pos n) f) t'
              (λ result calls q. told n t' x result calls (rw (x.calls) at q)))
      where
        Q : Option ℕ → Caller → Type 0
        Q = PrepEnded (some (domain, type, some t))

        prep : ℤ → M ℤ
        prep idx = prep_socket site.liburing idx domain type t

        told :
            (n : ℕ) (t' : Caller)
            (x : Stored
              (with_socket sock f domain)
              (reference sock ∷ rs)
              []
              (prep_request sock f)
              n
              t')
            (result : ℤ) (calls : List Call)
            → prep (pos n) s.calls ≡ (result, calls)
            → Ends (check_prep site net sock result (pos n) f (record t' { calls = calls })) Q
        told n t' x result calls q =
            Ends-weaken
              (Checked (with_socket sock f domain) rs [] (prep_request sock f) (reference sock ∷ [])
                prep (record t' { calls = calls }))
              Q (check_prep site net sock result (pos n) f (record t' { calls = calls }))
              (Checked-Ends (with_socket sock f domain) rs [] (prep_request sock f) site IsBad
                (check_prep site net sock) (reference sock ∷ []) prep n
                (record t' { calls = calls }) result (check_prep-Checks sock)
                (called (with_socket sock f domain) (reference sock ∷ rs) [] (prep_request sock f) n
                  t' x calls)
                q (rw q at (prep_socket-cases (pos n) domain type t s.calls)))
              (done-PrepEnded sock f domain type t (record t' { calls = calls }) x.sockets)

    -- The state in which the new socket is there.
    abbrev with_new : ℕ → Caller
    with_new sock = record s { heap = log (got (reference sock)) s.heap; sockets = opened sock }

    -- From the new socket on.
    made-PrepEnded :
        (args : Option (ℤ × ℤ × Option TimeoutParams)) (sock : ℕ)
        → IsValid s.registry
        → Has rs false s.heap
        → Ends
            (with_socket_args site net sock args
              (λ (domain, type, timeout). with_socket_args site net sock timeout (λ t.
                create_future site >>= λ future.
                or_null site (drop_reference site sock) future (λ f.
                  set_domain sock domain
                  >> send_request site
                      (prep_request sock f)
                      (refuse_socket site net sock f)
                      (λ idx. in_ring (prep_socket site.liburing idx domain type t))
                      (check_prep site net sock))))
              (with_new sock))
            (PrepEnded args)
    unfolding give_back
    made-PrepEnded none sock v o = (
      record { owned = λ w. omega (arith, o.owned w); raised = refl },
      same-Restored s.registry v,
    )
    made-PrepEnded (some (domain, type, none)) sock v o = (
      record { owned = λ w. omega (arith, o.owned w); raised = refl },
      same-Restored s.registry v,
    )
    made-PrepEnded (some (domain, type, some t)) sock v o =
        create_future-Ends site (with_new sock) rs (PrepEnded (some (domain, type, some t))) _
          (
            record { owned = λ w. omega (arith, o.owned w); raised = refl },
            same-Restored s.registry v,
          )
          (λ f. sent-PrepEnded sock f domain type t v o)

    -- A future is answered only if the running loop is a `UringioLoop`, to its own thread, while it
    -- is not closing.
    abbrev pub Admitted : Option ℕ → Type 0
    Admitted none = Unit
    Admitted (some f) =
        (net.is_uringio ≡ true)
        × (eqb_ℤ site.loop_tid site.gettid ≡ true)
        × (site.is_closing ≡ some false)

    loop_guarded-Ends :
        (Q : Option ℕ → Caller → Type 0) (c : Bool)
        → site.is_closing ≡ some c
        → Q none (with_error s)
        → (body : S (Option ℕ)) → Ends (body s) Q
        → Ends (loop_guarded site net body s) (λ r u. Q r u × Admitted r)
    loop_guarded-Ends Q c known refused body h =
        tested (not net.is_uringio || not (eqb_ℤ site.loop_tid site.gettid)) site.is_closing refl
          refl known
      where
        admitted :
            not net.is_uringio || not (eqb_ℤ site.loop_tid site.gettid) ≡ false
            → site.is_closing ≡ some false
            → (r : Option ℕ) → Admitted r
        admitted e k none = tt
        admitted e k (some f) = (ground arith, ground arith, k)

        tested :
            (stranger : Bool) (closing : Option Bool)
            → not net.is_uringio || not (eqb_ℤ site.loop_tid site.gettid) ≡ stranger
            → site.is_closing ≡ closing
            → closing ≡ some c
            → Ends
                ((if stranger then raise else refuse_closing site closing body) s)
                (λ r u. Q r u × Admitted r)
        tested true closing e k there = (refused, tt)
        tested false none e k there = absurd (cc there)
        tested false (some true) e k there = (refused, tt)
        tested false (some false) e k there =
            Ends-weaken Q (λ r u. Q r u × Admitted r) (body s) h (λ r u q. (q, admitted e k r))

    -- When the loop has the attribute `_closed`, `Uringio_prep_socket`, on every path and for every
    -- domain: when it answers NULL, an exception is set, the registry has the requests in flight
    -- that it had, and every reference is given back, that to the new socket included; the ring's
    -- queue is not looked at. When it answers a future, the running loop is a `UringioLoop` that is
    -- not closing and the calling thread is its own; the arguments were parsed, one new request is
    -- in flight, in a slot that was free, with that future and the new socket; a socket of the
    -- domain and the type was asked for once, under its index; the new socket is open and has the
    -- domain; and what is held more are the references of the answer, of the request's future and
    -- socket, and the function's own to the socket, which it keeps.
    pub uringio_prep_socket-PrepEnded :
        (args : Option (ℤ × ℤ × Option TimeoutParams))
        → (c : Bool) → site.is_closing ≡ some c
        → IsValid s.registry
        → Has rs false s.heap
        → Ends (uringio_prep_socket site net args s) (λ r u. PrepEnded args r u × Admitted r)
    unfolding uringio_prep_socket
    uringio_prep_socket-PrepEnded args c known v o =
        loop_guarded-Ends (PrepEnded args) c known refused _
          (elim (Option-cases (net.new_socket s.heap.steps)) [
            | inl n ↦ rw n refused
            | inr (sock, n) ↦ rw n (made-PrepEnded args sock v o)
          ])
      where
        refused : PrepEnded args none (with_error s)
        refused = (record { owned = o.owned; raised = refl }, same-Restored s.registry v)
