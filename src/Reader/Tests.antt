-- ===== src/Reader/Tests.antt =====
-- The copy loop and the handling of completions at concrete data.
use uringio.Reader.Gather.{gather, contents, gather-take}
use uringio.Base.{take, ◌≡◌, refl, ℤ, pos, negsuc, true, false, none, some, List, [], ◌∷◌, arith}
use uringio.Enums.{oneshot, fixed, payload_linear, payload_runtime, Opcode}
use uringio.Uring.{Liburing, Iovec}
use uringio.Ring.{wakeup_fd_tag}
use uringio.Payload.{LinearBuffer, BufferPayload}
use uringio.Registry
use uringio.Registry.{RequestSlot, Request, registry_add, registry_get}
use uringio.Registry.Invariant.{slot, fresh-IsValid, add-IsValid}
use uringio.BufferControllers.Index
use uringio.BufferControllers.Index.{get_buffer_idx}
use uringio.Reader.State.{Cqe, new_bytes, new_long, Env, UringioLoop, ok}
use uringio.Reader.Ready.{is_failure, on_cqe}
use uringio.Reader.Events.{made}
use uringio.Reader.Removal.{PayloadThere}
use uringio.Reader.Found.{Awaited}
use uringio.Reader.Stale.{only_seen, on_cqe-wakeup}
use uringio.Reader.Failure.{Failed, on_cqe-Failed}
use uringio.Reader.Success.{Completed}
use uringio.Reader.Reads.{Pays, Returned, on_cqe-read}
use uringio.Reader.Writes.{on_cqe-write}

abbrev vectors : List Iovec
vectors = record { iov_base = 10; iov_len = 2 } ∷ record { iov_base = 20; iov_len = 3 } ∷ []

gather_crosses : gather (λ a. a) vectors 4 ≡ 10 ∷ 11 ∷ 20 ∷ 21 ∷ []
unfolding gather
gather_crosses = refl

gather-take_example : gather (λ a. a) vectors 4 ≡ take 4 (contents (λ a. a) vectors)
gather-take_example = gather-take (λ a. a) vectors 4

-- Runs of the reader, in a loop with one request in flight, in slot 1.

abbrev liburing : Liburing
liburing = record {
  io_uring_get_sqe = λ h. some 1000;
  io_uring_submit = λ h. pos 1;
  io_uring_queue_init = λ h. pos 0;
  io_uring_register_buffers = λ h. pos 0;
  io_uring_unregister_buffers = λ h. pos 0;
  io_uring_setup_buf_ring = λ h. none;
  io_uring_buf_ring_mask = λ n. pos 0;
  iosqe_io_link = 4;
  iosqe_buffer_select = 32;
  ioring_recvsend_poll_first = pos 1;
  ioring_recvsend_fixed_buf = 4;
  ioring_fsync_datasync = 1;
  ioring_timeout_multishot = 64;
  ioring_async_cancel_any = 4;
  rwf_nowait = pos 8;
  o_rdwr_o_creat = pos 66;
  af_inet = pos 2;
  af_inet6 = pos 10;
}

-- Every new object is at 50, and every byte is 65.
abbrev env : Env
env = record {
  liburing = liburing;
  new_object = λ es. some 50;
  py_none = 1;
  memory = λ a. 65;
  recvmsg_validate = λ buf len msg. none;
  etime = pos 62;
  cqe_f_more = λ flags. false;
  cqe_buffer_shift = 16;
}

abbrev request : Opcode → Request
request opcode = record {
  future = 9;
  buffer_payload = some 5;
  stream_strategy = oneshot;
  opcode = opcode;
  file = none;
  socket = some 8;
  sockaddr = none;
  msghdr = none;
}

-- The registered buffer 2, at 4096.
abbrev buffer : LinearBuffer
buffer = record { buffer = 4096; len = 1024; others = []; views = none; address = 4000 }

abbrev payload : BufferPayload
payload = record {
  payload_type = payload_linear;
  payload_origin = payload_runtime;
  mode = fixed;
  amount = pos 1;
  linear = some buffer;
  vector = none;
  idx_registry = 3;
  buf_idx = pos 2;
  bgid = pos 0;
  buf_ring = none;
}

abbrev loop : Opcode → UringioLoop
loop opcode = record {
  registry = (registry_add (Registry.fresh 2) (request opcode)).1;
  payloads = λ p. some payload;
  pools = λ p. (get_buffer_idx (Index.fresh 3)).1;
  files = λ f. record { fd = pos 3; closed = false };
  sockets = λ k. record { sock_fd = pos 4; closed = false; domain = pos 2; loop = 6; addr = none };
  calls = [];
  events = [];
  wakeup_fd = pos 7;
  wakeup_buf = 2000;
}

abbrev cqe : ℤ → Cqe
cqe res = record { user_data = 1; res = res; flags = 0 }

loop-Awaited : (opcode : Opcode) (res : ℤ) → Awaited (loop opcode) 1 9 (cqe res)
unfolding registry_add Registry.fresh
loop-Awaited opcode res = record {
  valid =
      add-IsValid (Registry.fresh 2) (request opcode) (fresh-IsValid 2 (omega arith) (omega arith));
  waiting = refl;
  tagged = refl;
}

loop-Pays : (opcode : Opcode) → Pays (loop opcode) 1 5 payload
unfolding registry_add Registry.fresh
loop-Pays opcode = record { points = refl; there = refl }

loop-opcode : (opcode : Opcode) → (slot (loop opcode).registry 1).opcode ≡ opcode
unfolding registry_add Registry.fresh
loop-opcode opcode = refl

loop-socket : (opcode : Opcode) → (slot (loop opcode).registry 1).socket ≡ some 8
unfolding registry_add Registry.fresh
loop-socket opcode = refl

-- The request that failed had a fixed buffer.
loop-there :
    (opcode : Opcode) → PayloadThere (loop opcode) (slot (loop opcode).registry 1).buffer_payload
unfolding registry_add Registry.fresh
loop-there opcode = (payload, refl)

read-is_failure : is_failure env (slot (loop Opcode.read).registry 1).opcode (negsuc 4) ≡ true
unfolding registry_add Registry.fresh
read-is_failure = refl

on_cqe-wakeup_example :
    on_cqe env (record { user_data = wakeup_fd_tag; res = pos 8; flags = 0 }) (loop Opcode.read)
    ≡ ok (
      tt,
      only_seen (record { user_data = wakeup_fd_tag; res = pos 8; flags = 0 }) (loop Opcode.read),
    )
on_cqe-wakeup_example = on_cqe-wakeup env (pos 8) 0 (loop Opcode.read)

on_cqe-Failed_example :
    (s' : UringioLoop) × (on_cqe env (cqe (negsuc 4)) (loop Opcode.read) ≡ ok (tt, s'))
    × Failed (loop Opcode.read) 1 9 50 (cqe (negsuc 4)) s'
on_cqe-Failed_example =
    on_cqe-Failed env (loop Opcode.read) 1 9 50 (cqe (negsuc 4))
      (loop-Awaited Opcode.read (negsuc 4)) (loop-there Opcode.read) read-is_failure refl

on_cqe-read_example :
    (s' : UringioLoop) × (on_cqe env (cqe (pos 3)) (loop Opcode.read) ≡ ok (tt, s'))
    × Completed (loop Opcode.read) 1 9 50 (cqe (pos 3)) s'
    × Returned (loop Opcode.read) 5 payload false s'
    × (made s'.events ≡ new_bytes (pos 3) (65 ∷ 65 ∷ 65 ∷ []) ∷ [])
on_cqe-read_example =
    on_cqe-read env (loop Opcode.read) 1 9 50 5 (cqe (pos 3)) payload buffer
      (loop-Awaited Opcode.read (pos 3)) (loop-opcode Opcode.read) (loop-Pays Opcode.read) refl
      (omega arith) refl refl

on_cqe-write_example :
    (s' : UringioLoop) × (on_cqe env (cqe (pos 3)) (loop Opcode.write) ≡ ok (tt, s'))
    × Completed (loop Opcode.write) 1 9 50 (cqe (pos 3)) s'
    × Returned (loop Opcode.write) 5 payload true s'
    × (made s'.events ≡ new_long (pos 3) ∷ [])
on_cqe-write_example =
    on_cqe-write env (loop Opcode.write) 1 9 50 5 (cqe (pos 3)) payload
      (loop-Awaited Opcode.write (pos 3)) (loop-opcode Opcode.write) (loop-Pays Opcode.write) refl
      refl
