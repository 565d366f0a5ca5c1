-- ===== src/SocketMethods/Calls.antt =====
-- src/python_api/ops/sockets/sockets.c: the methods of sockets that transfer no data. An answer is
-- the future, `none` for NULL; the arguments are parsed, as for files.
use uringio.Base.{
  ℕ, ℤ, pos, negsuc, ltb_ℤ, eqb_ℤ, true, false, not, ◌||◌, Option, none, some, if◌then◌else◌,
}
use uringio.Enums.{oneshot, Opcode}
use uringio.Timer.{TimeoutParams}
use uringio.Registry.{Request}
use uringio.Uring.{M}
use uringio.Buffers.Heap
use uringio.Buffers.Heap.{reference, got, give_back, log}
use uringio.Ops.Sockets.{
  prep_socket, uringio_bind, uringio_connect, uringio_listen, uringio_close_socket,
}
use uringio.Methods.{
  refuse_closing, Site, S, pure, ◌>>=◌, ◌>>◌, in_ring, set_error, raise, update, create_future,
  with_args, or_null, drop_reference, cancel_request, refuse, send_request,
}
use uringio.SocketMethods.{
  Net, SockAddr, socket_of, set_closed, allocate, free_block, serialize_address, get_socket_size,
  check_sockets_result, guarded, socket_request,
}
use uringio.SocketMethods.Dispatch.{accept_dispatcher}

-- NULL, as a C function gets it.
abbrev pub address_of : Option ℕ → ℕ
address_of none = 0
address_of (some p) = p

-- The operation, and then the address is freed.
abbrev pub freeing : ℕ → M ℤ → S ℤ
freeing p op = do result ← in_ring op; free_block p; pure result

-- The fields of a new socket.
abbrev pub got_socket : Option ℕ → S (Option ℕ)
got_socket none s = (set_error >> pure none) s
got_socket (some x) s = some (
  some x,
  record s {
    heap = log (got (reference x)) s.heap;
    sockets = update s.sockets x (record (s.sockets x) { closed = false });
  },
)

abbrev pub set_domain : ℕ → ℤ → S (Unit {0})
set_domain x domain s =
    some (tt, record s { sockets = update s.sockets x (record (s.sockets x) { domain = domain }) })

-- The request of `Uringio_prep_socket` names the new socket.
abbrev pub prep_request : (sock future : ℕ) → Request
prep_request sock f = record {
  future = f;
  buffer_payload = none;
  stream_strategy = oneshot;
  opcode = Opcode.socket;
  file = none;
  socket = some sock;
  sockaddr = none;
  msghdr = none;
}

module _ (site : Site) (net : Net) where
  -- `bind` and `connect` from the address to the end, but for the branch of a full registry.
  abbrev pub with_address :
      Opcode
      → (ℕ → ℕ → S (Option ℕ))
      → (ℤ → (addr addrlen : ℕ) → M ℤ)
      → ℤ
      → Option (ℕ × SockAddr)
      → S (Option ℕ)
  with_address opcode full op domain none = pure none
  with_address opcode full op domain (some (p, addr)) = do
    future ← create_future site
    or_null site (free_block p) future λ f.
        send_request site (socket_request site net f none oneshot opcode none none) (full f p)
          (λ idx. freeing p (op idx p (get_socket_size site net domain)))
          (check_sockets_result site net)

  -- A full registry, in `bind` and in `connect`.
  abbrev pub refuse_bind : (future addr : ℕ) → S (Option ℕ)
  refuse_bind f p = refuse site f (free_block p)

  abbrev pub refuse_connect : (future addr : ℕ) → S (Option ℕ)
  refuse_connect f p = do drop_reference site f; set_error; free_block p; pure none

  -- `self->domain`
  abbrev pub with_domain : (ℤ → S (Option ℕ)) → S (Option ℕ)
  with_domain body s = body (socket_of s site.self).domain s

  unfoldable pub uringio_socket_bind : Option (ℕ × ℤ × Option TimeoutParams) → S (Option ℕ)
  unfolding serialize_address get_socket_size uringio_bind send_request check_sockets_result
      give_back
  uringio_socket_bind args = guarded site net (
      with_args site args λ (host, port, timeout). with_args site timeout λ t. with_domain λ domain.
        do
          addr ← serialize_address site net (some host) port domain
          with_address Opcode.bind refuse_bind
              (λ idx p len. uringio_bind site.liburing idx site.fd p len t) domain addr)

  unfoldable pub uringio_socket_connect : Option (ℕ × ℤ × Option TimeoutParams) → S (Option ℕ)
  unfolding serialize_address get_socket_size uringio_connect send_request check_sockets_result
      give_back
  uringio_socket_connect args = guarded site net (
      with_args site args λ (host, port, timeout). with_args site timeout λ t. with_domain λ domain.
        do
          addr ← serialize_address site net (some host) port domain
          with_address Opcode.connect refuse_connect
              (λ idx p len. uringio_connect site.liburing idx site.fd p len t) domain addr)

  unfoldable pub uringio_socket_listen : Option (ℤ × Option TimeoutParams) → S (Option ℕ)
  unfolding uringio_listen send_request check_sockets_result
  uringio_socket_listen args = guarded site net (
      with_args site args λ (backlog, timeout). with_args site timeout λ t. do
        future ← create_future site
        or_null site (pure tt) future λ f.
            send_request site (socket_request site net f none oneshot Opcode.listen none none)
              (refuse site f (pure tt))
              (λ idx. in_ring (uringio_listen site.liburing idx site.fd backlog t))
              (check_sockets_result site net))

  -- The submission of `close`, and what follows: the socket is closed unless it fails.
  abbrev pub close_and_submit : TimeoutParams → ℤ → S ℤ
  close_and_submit t idx = do
    set_closed site.self true
    in_ring (uringio_close_socket site.liburing idx site.fd t)

  abbrev pub reopened : Option ℕ → S (Option ℕ)
  reopened none = do set_closed site.self false; pure none
  reopened (some f) = pure (some f)

  abbrev pub check_close : ℤ → ℤ → ℕ → S (Option ℕ)
  check_close result idx f = do
    validated_result ← check_sockets_result site net result idx f
    reopened validated_result

  unfoldable pub uringio_socket_close : Option (Option TimeoutParams) → S (Option ℕ)
  unfolding uringio_close_socket send_request check_sockets_result
  uringio_socket_close args = guarded site net (
      with_args site args λ timeout. with_args site timeout λ t. do
        future ← create_future site
        or_null site (pure tt) future λ f.
            send_request site (socket_request site net f none oneshot Opcode.close none none)
              (refuse site f (pure tt)) (close_and_submit t) check_close)

  -- `accept` once it has a future; without memory for `addrlen` the future stays.
  abbrev pub accept_with : TimeoutParams → ℕ → Option ℕ → S (Option ℕ)
  accept_with t f none = raise
  accept_with t f (some addrlen) = do
    peer_addr ← allocate site.host net.sizeof_sockaddr_storage
    send_request site
        (socket_request site net f none site.stream_strategy Opcode.accept peer_addr none)
        (refuse site f (free_block addrlen))
        (λ idx. accept_dispatcher site site.stream_strategy idx (address_of peer_addr) addrlen t)
        (check_sockets_result site net)

  unfoldable pub uringio_socket_accept : Option (Option TimeoutParams) → S (Option ℕ)
  unfolding Heap.malloc accept_dispatcher send_request check_sockets_result give_back
  uringio_socket_accept args = guarded site net (
      with_args site args λ timeout. with_args site timeout λ t. do
        future ← create_future site
        or_null site (pure tt) future
            λ f. do addrlen ← allocate site.host net.sizeof_socklen; accept_with t f addrlen)

  abbrev pub new_socket : S (Option ℕ)
  new_socket s = got_socket (net.new_socket s.heap.steps) s

  -- A failure of the parsing drops the new socket.
  abbrev pub with_socket_args : {A : Type 0} → ℕ → Option A → (A → S (Option ℕ)) → S (Option ℕ)
  with_socket_args sock none body = do set_error; drop_reference site sock; pure none
  with_socket_args sock (some a) body = body a

  abbrev pub check_prep : ℕ → ℤ → ℤ → ℕ → S (Option ℕ)
  check_prep sock result request_idx future =
      if ltb_ℤ result (pos 1)
      then (do
        if eqb_ℤ result (negsuc 0) || (eqb_ℤ result (negsuc 1) || eqb_ℤ result (pos 0))
            then set_error
            else pure tt
        drop_reference site sock
        drop_reference site future
        cancel_request request_idx
        pure none)
      else pure (some future)

  -- ASSERT_LOOP_IS_URINGIO, ASSERT_LOOP_THREAD and ASSERT_RING_LOOP_IS_CLOSING
  abbrev pub loop_guarded : S (Option ℕ) → S (Option ℕ)
  loop_guarded body =
      if not net.is_uringio || not (eqb_ℤ site.loop_tid site.gettid)
      then raise
      else refuse_closing site site.is_closing body

  abbrev pub refuse_socket : (sock future : ℕ) → S (Option ℕ)
  refuse_socket sock f = do drop_reference site sock; drop_reference site f; raise

  unfoldable pub uringio_prep_socket : Option (ℤ × ℤ × Option TimeoutParams) → S (Option ℕ)
  unfolding prep_socket send_request cancel_request give_back
  uringio_prep_socket args = loop_guarded (do
    socket ← new_socket
    or_null site (pure tt) socket λ sock. with_socket_args sock args λ (domain, socktype, timeout).
        with_socket_args sock timeout λ t. do
          future ← create_future site
          or_null site (drop_reference site sock) future λ f. do
            set_domain sock domain
            send_request site (prep_request sock f) (refuse_socket sock f)
                (λ idx. in_ring (prep_socket site.liburing idx domain socktype t))
                (check_prep sock))
