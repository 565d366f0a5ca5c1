-- ===== src/SocketMethods/Addresses.antt =====
-- What `_serialize_address` makes of a host and a port.
use uringio.Base.{
  ℕ, ℤ, ◌≡◌, refl, Bool, true, false, Bool-cases, inl, inr, Option, none, some, List, ◌∷◌, arith,
}
use uringio.Buffers.Heap
use uringio.Buffers.Heap.{Resource, block, bytes, give_back, log, back, got_block, refused}
use uringio.Buffers.Rules.{Has}
use uringio.Ops.Sockets.Creation.{is_supported}
use uringio.Methods.{Caller, Site, on_heap}
use uringio.Methods.Rules.{Ends, bind-Ends}
use uringio.SocketMethods.{
  Net, SockAddr, htons, allocate, resolved, addressed, filled_address, serialize_address,
}

-- Memory apart, the state is as before.
pub record Same (s u : Caller) : Type 0 where
  pub registry : u.registry ≡ s.registry
  pub payloads : u.payloads ≡ s.payloads
  pub calls : u.calls ≡ s.calls
  pub sockets : u.sockets ≡ s.sockets

-- A block, or NULL without an exception.
pub allocate-Ends :
    (site : Site) (size : ℤ) (s : Caller) (rs : List Resource) (Q : Option ℕ → Caller → Type 0)
    → Has rs false s.heap
    → ((u : Caller)
        → Same s u
        → Has rs false u.heap
        → site.host.malloc (bytes size) s.heap.steps ≡ none
        → Q none u)
    → ((p : ℕ) (u : Caller) → Same s u → Has (block p ∷ rs) false u.heap → Q (some p) u)
    → Ends (allocate site.host size s) Q
unfolding Heap.malloc
allocate-Ends site size s rs Q o without more = go (site.host.malloc (bytes size) s.heap.steps) refl
  where
    go :
        (r : Option ℕ)
        → site.host.malloc (bytes size) s.heap.steps ≡ r
        → Ends (on_heap (got_block r s.heap) s) Q
    go none e =
        without (record s { heap = log refused s.heap })
          (record { registry = refl; payloads = refl; calls = refl; sockets = refl })
          (record { owned = o.owned; raised = o.raised }) e
    go (some p) e =
        more p (record s { heap = log (Heap.got (block p)) s.heap })
          (record { registry = refl; payloads = refl; calls = refl; sockets = refl })
          (record { owned = λ w. omega (arith, o.owned w); raised = o.raised })

module _ (site : Site) (net : Net) (host : Option ℕ) (port domain : ℤ) where
  -- The address that `inet_pton` reads, if there is a host.
  abbrev pub Addresses : Option ℕ → Option ℕ → Type 0
  Addresses none a = a ≡ none
  Addresses (some h) none = ⊥
  Addresses (some h) (some a) = net.inet_pton domain h ≡ some a

  -- NULL leaves nothing, with an exception unless the domain is neither AF_INET nor AF_INET6; an
  -- answer has the family, the port in network order, and the address.
  abbrev pub Serialized : Caller → List Resource → Option (ℕ × SockAddr) → Caller → Type 0
  Serialized s rs none u =
      (e : Bool) × Has rs e u.heap
      × Same s u
      × (e ≡ false → is_supported site.liburing domain ≡ false)
  Serialized s rs (some (p, a)) u =
      Has (block p ∷ rs) false u.heap
      × Same s u
      × (is_supported site.liburing domain ≡ true)
      × (a.family ≡ domain)
      × (a.port ≡ htons port)
      × Addresses host a.address

  addressed-Ends :
      (p : ℕ) (s u : Caller) (rs : List Resource) (h : Option ℕ)
      → h ≡ host
      → Same s u
      → Has (block p ∷ rs) false u.heap
      → is_supported site.liburing domain ≡ true
      → Ends
          (addressed site net p (record { family = domain; port = htons port; address = none }) h u)
          (Serialized s rs)
  unfolding give_back
  addressed-Ends p s u rs none e x o good = (o, x, good, refl, refl, rw (← e) refl)
  addressed-Ends p s u rs (some h) e x o good = go (net.inet_pton domain h) refl
    where
      go :
          (r : Option ℕ)
          → net.inet_pton domain h ≡ r
          → Ends
              (resolved site net p
                (record { family = domain; port = htons port; address = none })
                r
                u)
              (Serialized s rs)
      go none q = (
        true,
        record { owned = λ w. omega (arith, o.owned w); raised = refl },
        record {
          registry = x.registry;
          payloads = x.payloads;
          calls = x.calls;
          sockets = x.sockets;
        },
        λ k. cc k,
      )
      go (some a) q = (o, x, good, refl, refl, rw (← e) q)

  -- `_serialize_address`, on every path: when it answers NULL it has freed what it allocated, and
  -- an exception is set unless the domain is neither AF_INET nor AF_INET6; when it answers an
  -- address, the domain is one of the two, and the address has the domain as its family, the port
  -- in network order, and what `inet_pton` reads from the host, if there is one. Nothing else
  -- changes.
  pub serialize_address-Serialized :
      (s : Caller) (rs : List Resource)
      → Has rs false s.heap
      → Ends (serialize_address site net host port domain s) (Serialized s rs)
  unfolding serialize_address give_back
  serialize_address-Serialized s rs o =
      bind-Ends (λ r u. Allocated r u) (Serialized s rs)
        (allocate site.host net.sizeof_sockaddr_storage) (filled_address site net host port domain)
        s
        (allocate-Ends site net.sizeof_sockaddr_storage s rs (λ r u. Allocated r u) o
          (λ u x o e. (x, o)) (λ p u x o. (x, o)))
        filled
    where
      Allocated : Option ℕ → Caller → Type 0
      Allocated none u = Same s u × Has rs false u.heap
      Allocated (some p) u = Same s u × Has (block p ∷ rs) false u.heap

      filled :
          (r : Option ℕ) (u : Caller)
          → Allocated r u
          → Ends (filled_address site net host port domain r u) (Serialized s rs)
      filled none u (x, o) = (
        true,
        record { owned = o.owned; raised = refl },
        record {
          registry = x.registry;
          payloads = x.payloads;
          calls = x.calls;
          sockets = x.sockets;
        },
        λ k. cc k,
      )
      filled (some p) u (x, o) = elim (Bool-cases (is_supported site.liburing domain)) [
        | inl good ↦ rw good (addressed-Ends p s u rs host refl x o good)
        | inr bad ↦ rw bad (
          false,
          record { owned = λ w. omega (arith, o.owned w); raised = o.raised },
          record {
            registry = x.registry;
            payloads = x.payloads;
            calls = x.calls;
            sockets = x.sockets;
          },
          λ k. bad,
        )
      ]
