-- ===== src/SocketMethods.antt =====
-- The methods of sockets of src/python_api/ops/sockets: what they share, of _helpers.c.
use uringio.Base.{
  ℕ, ℤ, pos, negsuc, to_u16, ltb_ℤ, eqb_ℤ, Bool, true, false, not, ◌||◌, ◌/◌, ◌%◌, ◌==◌, Option,
  none, some, List, if◌then◌else◌,
}
use uringio.Enums.{StreamStrategy, TransferMode, Opcode}
use uringio.Registry.{Request}
use uringio.Buffers.Heap
use uringio.Buffers.Heap.{block, bytes, Step, Host, give_back}
use uringio.Methods.{
  refuse_closing, Socket, Caller, Site, S, pure, ◌>>=◌, ◌>>◌, in_heap, set_error, raise, update,
  drop_reference, cancel_request, with_args, create_future, send_request,
}
pub mod Dispatch
pub mod Calls
pub mod Transfers
pub mod Messages
pub mod Rules
pub mod Addresses
pub mod Plain
pub mod Sending
pub mod SendingTo
pub mod Accepting
pub mod Creating
mod Tests

-- The rest of what a method of a socket is called with: the transfer mode of the execution context,
-- whether the running loop is a `UringioLoop`, a new socket object (`none` for NULL), `inet_pton`
-- (`none` unless it answers 1), and sizes of C types.
pub record Net : Type 0 where
  pub transfer_mode : TransferMode
  pub is_uringio : Bool
  pub new_socket : List Step → Option ℕ
  pub inet_pton : (family : ℤ) → (host : ℕ) → Option ℕ
  pub sizeof_sockaddr_storage : ℤ
  pub sizeof_sockaddr_in : ℕ
  pub sizeof_sockaddr_in6 : ℕ
  pub sizeof_socklen : ℤ
  pub sizeof_msghdr : ℤ
  pub sizeof_msghdr_iovec : ℤ

-- What is written to a `struct sockaddr_storage`; the port is in network order, high byte first,
-- and the address is that of `inet_pton`, or zero.
pub record SockAddr : Type 0 where
  pub family : ℤ
  pub port : ℕ × ℕ
  pub address : Option ℕ

-- `htons((uint16_t)port)`
abbrev pub htons : ℤ → ℕ × ℕ
htons port = (to_u16 port / 256, to_u16 port % 256)

abbrev pub socket_of : Caller → ℕ → Socket
socket_of s self = s.sockets self

abbrev pub set_closed : ℕ → Bool → S (Unit {0})
set_closed self closed s =
    some (
      tt,
      record s { sockets = update s.sockets self (record (s.sockets self) { closed = closed }) },
    )

-- `malloc` and `calloc` of `size` bytes, which set no exception
abbrev pub allocate : Host → ℤ → S (Option ℕ)
allocate host size = in_heap (Heap.malloc host (bytes size))

abbrev pub free_block : ℕ → S (Unit {0})
free_block p = in_heap (give_back (block p))

abbrev pub free_maybe : Option ℕ → S (Unit {0})
free_maybe none = pure tt
free_maybe (some p) = free_block p

module _ (site : Site) (net : Net) where
  -- The answer of `inet_pton`, if it is asked.
  abbrev pub resolved : (p : ℕ) → SockAddr → Option ℕ → S (Option (ℕ × SockAddr))
  resolved p a none = do free_block p; set_error; pure none
  resolved p a (some n) = pure (some (p, record a { address = some n }))

  abbrev pub addressed : (p : ℕ) → SockAddr → (host : Option ℕ) → S (Option (ℕ × SockAddr))
  addressed p a none = pure (some (p, a))
  addressed p a (some host) = resolved p a (net.inet_pton a.family host)

  -- The address once its memory is there. Any other domain is refused without an exception.
  abbrev pub filled_address :
      (host : Option ℕ) → (port domain : ℤ) → Option ℕ → S (Option (ℕ × SockAddr))
  filled_address host port domain none = do set_error; pure none
  filled_address host port domain (some p) =
      if eqb_ℤ domain site.liburing.af_inet || eqb_ℤ domain site.liburing.af_inet6
      then addressed p (record { family = domain; port = htons port; address = none }) host
      else (do free_block p; pure none)

  unfoldable pub serialize_address :
      (host : Option ℕ) → (port domain : ℤ) → S (Option (ℕ × SockAddr))
  unfolding Heap.malloc give_back
  serialize_address host port domain = do
    addr ← allocate site.host net.sizeof_sockaddr_storage
    filled_address host port domain addr

  unfoldable pub get_socket_size : (domain : ℤ) → ℕ
  get_socket_size domain =
      if eqb_ℤ domain site.liburing.af_inet6
      then net.sizeof_sockaddr_in6
      else net.sizeof_sockaddr_in

  unfoldable pub check_sockets_result : ℤ → ℤ → ℕ → S (Option ℕ)
  unfolding cancel_request give_back
  check_sockets_result result request_idx future =
      if ltb_ℤ result (pos 1)
      then (do
        if eqb_ℤ result (negsuc 0) || (eqb_ℤ result (negsuc 1) || eqb_ℤ result (pos 0))
            then set_error
            else pure tt
        drop_reference site future
        cancel_request request_idx
        pure none)
      else pure (some future)

  -- ASSERT_LOOP_THREAD, ASSERT_RING_LOOP_IS_CLOSING and the test of `self->closed`
  abbrev pub guarded : S (Option ℕ) → S (Option ℕ)
  guarded body s =
      (if not (eqb_ℤ site.loop_tid site.gettid)
          then raise
          else refuse_closing site site.is_closing
              (if (socket_of s site.self).closed then raise else body))
        s

  abbrev pub socket_request :
      (future : ℕ)
      → (payload : Option ℕ) → StreamStrategy
      → Opcode
      → (sockaddr msghdr : Option ℕ) → Request
  socket_request future payload stream opcode sockaddr msghdr = record {
    future = future;
    buffer_payload = payload;
    stream_strategy = stream;
    opcode = opcode;
    file = none;
    socket = some site.self;
    sockaddr = sockaddr;
    msghdr = msghdr;
  }
