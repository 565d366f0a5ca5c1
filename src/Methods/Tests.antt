-- ===== src/Methods/Tests.antt =====
-- The methods of files at concrete calls.
use uringio.Base.{◌+◌, ◌*◌, ◌≡◌, refl, ℤ, pos, true, false, none, some, [], length, arith}
use uringio.Enums.{oneshot}
use uringio.Uring.{Liburing}
use uringio.Timer.{TimeoutParams}
use uringio.Registry
use uringio.Registry.Invariant.{IsValid, fresh-IsValid}
use uringio.BufferControllers.Index
use uringio.Buffers.Heap.{Host}
use uringio.Buffers.Rules.{Has}
use uringio.Buffers.Create.{zeroed}
use uringio.Methods.{Caller, Site}
use uringio.Methods.Files.{SpliceArgs, uringio_file_fsync}
use uringio.Methods.Rules.{Ends}
use uringio.Methods.Plain.{Admits, splice, call_unbuffered, CallEnded, call_unbuffered-Ends}

abbrev pub liburing : Liburing
liburing = record {
  io_uring_get_sqe = λ h. some 1000;
  io_uring_submit = λ h. pos 1;
  io_uring_queue_init = λ h. pos 0;
  io_uring_register_buffers = λ h. pos 0;
  io_uring_unregister_buffers = λ h. pos 0;
  io_uring_setup_buf_ring = λ h. none;
  io_uring_buf_ring_mask = λ n. pos 0;
  iosqe_io_link = 4;
  iosqe_buffer_select = 32;
  ioring_recvsend_poll_first = pos 1;
  ioring_recvsend_fixed_buf = 4;
  ioring_fsync_datasync = 1;
  ioring_timeout_multishot = 64;
  ioring_async_cancel_any = 4;
  rwf_nowait = pos 8;
  o_rdwr_o_creat = pos 66;
  af_inet = pos 2;
  af_inet6 = pos 10;
}

-- Every object has three bytes, at ten times its number; a block is at ten times the number of
-- steps.
abbrev pub host : Host
host = record {
  malloc = λ b steps. some (10 * length steps);
  get_item = λ obj i steps. some (10 * obj + i);
  fast = λ obj steps. some (obj, []);
  get_buffer = λ obj steps. some (record { buf = 10 * obj; len = 3 });
  uninitialised = zeroed;
}

-- The future is 9, the file is 8, with the descriptor 3; the loop runs in the thread 1.
abbrev pub called_from : ℤ → Site
called_from tid = record {
  host = host;
  liburing = liburing;
  create_future = λ steps. some 9;
  gettid = tid;
  loop_tid = pos 1;
  is_closing = some false;
  context_payload = none;
  stream_strategy = oneshot;
  self = 8;
  fd = pos 3;
  closed = false;
}

abbrev pub start : Caller
start = record {
  registry = Registry.fresh 2;
  heap = record { steps = []; error = false };
  payloads = λ p. none;
  pools = λ p. Index.fresh 1;
  calls = [];
  sockets = λ p. record { closed = false; domain = pos 2 };
}

pub start-IsValid : IsValid start.registry
start-IsValid = fresh-IsValid 2 (omega arith) (omega arith)

pub start-Has : Has [] false start.heap
start-Has = record { owned = λ w. refl; raised = refl }

abbrev pub no_timeout : TimeoutParams
no_timeout = record { sec = pos 0; nsec = pos 0; is_required = false }

abbrev ten_bytes : SpliceArgs
ten_bytes = record {
  src = pos 4;
  dst = pos 5;
  count = pos 10;
  offset_src = pos 0;
  offset_dst = pos 0;
  flag = pos 0;
}

-- Called from another thread, a method sets an exception and does nothing else.
fsync_elsewhere :
    uringio_file_fsync (called_from (pos 2)) (some (some no_timeout)) start
    ≡ some (none, record start { heap = record { steps = []; error = true } })
unfolding uringio_file_fsync
fsync_elsewhere = refl

call_unbuffered-Ends_example :
    Ends
      (call_unbuffered (called_from (pos 1)) (splice (some (ten_bytes, some no_timeout))) start)
      (λ r u.
        CallEnded (called_from (pos 1)) start [] (splice (some (ten_bytes, some no_timeout))) r u
        × Admits (called_from (pos 1)) r)
call_unbuffered-Ends_example =
    call_unbuffered-Ends (called_from (pos 1)) start [] (splice (some (ten_bytes, some no_timeout)))
      false refl start-IsValid start-Has
