-- ===== src/Reader/SocketCases.antt =====
-- The cases of the switch of `on_uring_ready` for sockets, but for RECVMSG.
use uringio.Base.{ℕ, ℤ, pos, eqb_ℤ, false, Option, none, some, [], ◌∷◌, if◌then◌else◌}
use uringio.Registry.{RequestSlot, incref}
use uringio.Reader.State.{
  Cqe, new_bytes, new_socket, print_error, effect, seen, Env, R, pure, ◌>>=◌, ◌>>◌, deref, emit,
  create, modify, update, payload_at, update_slot, without_payload, release_if_fixed,
}
use uringio.Reader.Results.{
  Next, complete, skip, free_slot_payload, complete_long, bytes_from, emit_free,
}

module _ (env : Env) (index : ℤ) (slot : RequestSlot) (cqe : Cqe) where
  on_new_socket : Option ℕ → R Next
  on_new_socket none = pure (complete none)
  on_new_socket (some k) = do
    modify
        λ s. record s { sockets = update s.sockets k (record (s.sockets k) { sock_fd = cqe.res }) }
    pure (complete (some k))

  unfoldable pub on_socket : R Next
  unfolding on_new_socket
  on_socket = on_new_socket slot.socket

  -- BIND, CONNECT and LISTEN: `if (slot->socket) result = PyLong_FromLong(cqe->res);`
  long_of_socket : Option ℕ → R Next
  unfolding complete_long
  long_of_socket none = pure (complete none)
  long_of_socket (some k) = complete_long env cqe

  unfoldable pub on_socket_call : R Next
  unfolding long_of_socket
  on_socket_call = long_of_socket slot.socket

  -- ACCEPT with the listening socket `k`, and the new socket object.
  accepted : ℕ → Option ℕ → R Next
  unfolding emit_free update_slot
  accepted k none = do emit print_error; emit_free slot.addr; emit (seen cqe); pure skip
  accepted k (some conn) = do
    modify λ s. record s {
      sockets = update s.sockets conn (record {
        sock_fd = cqe.res;
        closed = false;
        domain = (s.sockets k).domain;
        loop = (s.sockets k).loop;
        addr = slot.addr;
      });
      events = effect (incref (s.sockets k).loop) ∷ s.events;
    }
    update_slot index without_payload
    pure (complete (some conn))

  accept_on : Option ℕ → R Next
  unfolding accepted
  accept_on none = pure (complete none)
  accept_on (some k) = do conn ← create env new_socket; accepted k conn

  unfoldable pub on_accept : R Next
  unfolding accept_on
  on_accept = accept_on slot.socket

  -- RECV: nothing was received, or `cqe->res` bytes lie in the payload's buffer.
  received : R (Option ℕ)
  unfolding bytes_from
  received = if eqb_ℤ cqe.res (pos 0) then create env (new_bytes (pos 0) []) else do
    payload ← payload_at slot.buffer_payload
    linear ← deref payload.linear
    bytes_from env cqe linear.buffer

  unfoldable pub recv_on : Option ℕ → R Next
  unfolding received free_slot_payload release_if_fixed
  recv_on none = pure (complete none)
  recv_on (some k) = do
    result ← received
    payload ← payload_at slot.buffer_payload
    release_if_fixed payload
    free_slot_payload index slot false
    pure (complete result)

  unfoldable pub on_recv : R Next
  unfolding recv_on
  on_recv = recv_on slot.socket

  -- SEND and SENDMSG
  unfoldable pub sent_payload : Option ℕ → R (Unit {0})
  unfolding free_slot_payload release_if_fixed
  sent_payload none = pure tt
  sent_payload (some p) = do
    payload ← payload_at (some p)
    release_if_fixed payload
    free_slot_payload index slot false

  unfoldable pub on_send : R Next
  unfolding sent_payload complete_long
  on_send = do sent_payload slot.buffer_payload; complete_long env cqe
