-- ===== src/Reader/MessageCases.antt =====
-- The case RECVMSG of the switch of `on_uring_ready`, and its multishot form.
use uringio.Base.{
  ℕ, ◌+◌, ◌*◌, ◌/◌, ◌^◌, ℤ, pos, Bool, false, not, Option, none, some, [], if◌then◌else◌,
}
use uringio.Timer.{TimeoutParams}
use uringio.Ops.Sockets.{uringio_recvmsg_multishot}
use uringio.Payload.{LinearBuffer, BufferPayload}
use uringio.Registry.{RequestSlot}
use uringio.Reader.Gather.{bytes_at}
use uringio.Reader.State.{
  UringioSocket, Cqe, new_bytes, print_error, Env, fault, R, pure, ◌>>=◌, ◌>>◌, deref, emit, create,
  modify, payload_at, update_slot, release_if_fixed,
}
use uringio.Reader.Results.{
  Next, complete, free_slot_payload, is_linear, is_multishot, bytes_from, gathered, emit_free,
}

module _ (env : Env) (index : ℤ) (slot : RequestSlot) (cqe : Cqe) where
  -- `is_uringio_recvmsg_multishot_resubmit_required`
  unfoldable pub is_uringio_recvmsg_multishot_resubmit_required : Bool
  is_uringio_recvmsg_multishot_resubmit_required = not (env.cqe_f_more cqe.flags)

  -- `TimeoutParams timeout_params = {0};`
  abbrev pub no_timeout : TimeoutParams
  no_timeout = record { sec = pos 0; nsec = pos 0; is_required = false }

  abbrev address : Option ℕ → ℕ
  address none = 0
  address (some p) = p

  -- The request is submitted again for the same slot; the result of the call is not used.
  resubmit : BufferPayload → UringioSocket → R (Unit {0})
  resubmit payload sock = modify λ s. record s {
    calls =
        (uringio_recvmsg_multishot env.liburing index sock.sock_fd payload.bgid false
          (address slot.msghdr) no_timeout s.calls).1;
  }

  resubmit_on : BufferPayload → Option ℕ → R (Unit {0})
  unfolding resubmit uringio_recvmsg_multishot
  resubmit_on payload none s = fault
  resubmit_on payload (some k) s = resubmit payload (s.sockets k) s

  resubmit_if_required : BufferPayload → R (Unit {0})
  unfolding resubmit_on is_uringio_recvmsg_multishot_resubmit_required
  resubmit_if_required payload =
      if is_uringio_recvmsg_multishot_resubmit_required
      then resubmit_on payload slot.socket
      else pure tt

  -- What `uringio_recvmsg_validate_multishot` finds in the buffer that the flags name.
  found : BufferPayload → LinearBuffer → Option (ℕ × ℕ)
  found payload linear =
      env.recvmsg_validate (linear.buffer + cqe.flags / 2 ^ env.cqe_buffer_shift * linear.len)
        cqe.res slot.msghdr

  report_invalid : Option (ℕ × ℕ) → R (Unit {0})
  report_invalid none = emit print_error
  report_invalid (some out) = pure tt

  message_bytes : Option (ℕ × ℕ) → R (Option ℕ)
  message_bytes none = create env (new_bytes (pos 0) [])
  message_bytes (some (p, len)) = create env (new_bytes (pos len) (bytes_at env.memory p len))

  recvmsg_multishot : BufferPayload → R Next
  unfolding resubmit_if_required found report_invalid message_bytes
  recvmsg_multishot payload = do
    linear ← deref payload.linear
    report_invalid (found payload linear)
    resubmit_if_required payload
    result ← message_bytes (found payload linear)
    pure (complete result)

  recvmsg_linear : BufferPayload → R (Option ℕ)
  unfolding bytes_from emit_free update_slot
  recvmsg_linear payload = do
    linear ← deref payload.linear
    result ← bytes_from env cqe linear.buffer
    emit_free slot.addr
    update_slot index λ s. record s { addr = none }
    pure result

  recvmsg_vector : BufferPayload → R (Option ℕ)
  unfolding gathered
  recvmsg_vector payload = do vec ← deref payload.vector; gathered env cqe vec

  recvmsg_oneshot : BufferPayload → R Next
  unfolding recvmsg_linear recvmsg_vector free_slot_payload
  recvmsg_oneshot payload = do
    result ←
        (if is_linear payload.payload_type then recvmsg_linear payload else recvmsg_vector payload)
    free_slot_payload index slot false
    pure (complete result)

  unfoldable pub on_recvmsg : R Next
  unfolding recvmsg_multishot recvmsg_oneshot release_if_fixed
  on_recvmsg = do
    payload ← payload_at slot.buffer_payload
    release_if_fixed payload
    if is_multishot slot.stream_strategy then recvmsg_multishot payload else recvmsg_oneshot payload
