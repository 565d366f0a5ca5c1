-- ===== src/Ops/Tests.antt =====
-- The operations at concrete requests, over a ring that always has an sqe.
use uringio.Base.{◌≡◌, refl, pos, negsuc, false, true, none, some, [], ◌∷◌, ◌-◌, ◌^◌}
use uringio.Uring.{Prep, get_sqe, prep, set_data, submit, Liburing}
use uringio.Timer.{TimeoutParams, timeout}
use uringio.Ops.Contract.{Contract}
use uringio.Ops.Files.{uringio_read}
use uringio.Ops.Files.Laws.{FileOp, submit_file, submit_file-Contract}
use uringio.Ops.Sockets.{prep_socket}
use uringio.Ops.Sockets.Creation.{Refused, prep_socket-Refused}
use uringio.Ops.Sockets.Requests.{SocketOp, submit_socket}
use uringio.Ops.Sockets.Laws.{submit_socket-Contract}
use uringio.Ops.Files.Laws
use uringio.Ops.Sockets.Requests as SocketRequests

-- The n-th sqe is at the address 1000.
abbrev sample : Liburing
sample = record {
  io_uring_get_sqe = λ h. some 1000;
  io_uring_submit = λ h. pos 1;
  io_uring_queue_init = λ h. pos 0;
  io_uring_register_buffers = λ h. pos 0;
  io_uring_unregister_buffers = λ h. pos 0;
  io_uring_setup_buf_ring = λ h. none;
  io_uring_buf_ring_mask = λ n. pos 0;
  iosqe_io_link = 4;
  iosqe_buffer_select = 32;
  ioring_recvsend_poll_first = pos 1;
  ioring_recvsend_fixed_buf = 4;
  ioring_fsync_datasync = 1;
  ioring_timeout_multishot = 64;
  ioring_async_cancel_any = 4;
  rwf_nowait = pos 8;
  o_rdwr_o_creat = pos 66;
  af_inet = pos 2;
  af_inet6 = pos 10;
}

abbrev unset : TimeoutParams
unset = record { sec = pos 0; nsec = pos 0; is_required = false }

abbrev one_second : TimeoutParams
one_second = record { sec = pos 1; nsec = pos 0; is_required = true }

-- A read at the offset -1 of 1024 bytes into the buffer at 4096.
read_calls : uringio_read sample (pos 3) (pos 5) 4096 1024 (negsuc 0) unset [] ≡ (
  pos 1,
  submit ∷ set_data 1000 3 ∷ prep 1000 (Prep.read (pos 5) 4096 1024 (2 ^ 64 - 1)) ∷ get_sqe ∷ [],
)
unfolding uringio_read timeout
read_calls = refl

submit_file-Contract_example :
    Contract sample
      (Laws.Fits sample (FileOp.read_buffer_select (pos 5) 1024 (negsuc 0) (pos 7)))
      one_second
      (pos 3)
      []
      (submit_file sample
        (FileOp.read_buffer_select (pos 5) 1024 (negsuc 0) (pos 7))
        (pos 3)
        one_second
        [])
submit_file-Contract_example =
    submit_file-Contract sample (FileOp.read_buffer_select (pos 5) 1024 (negsuc 0) (pos 7)) (pos 3)
      one_second []

submit_socket-Contract_example :
    Contract sample
      (SocketRequests.Fits sample (SocketOp.recv_fixed (pos 5) 4096 100 false (pos 2)))
      one_second
      (pos 3)
      []
      (submit_socket sample
        (SocketOp.recv_fixed (pos 5) 4096 100 false (pos 2))
        (pos 3)
        one_second
        [])
submit_socket-Contract_example =
    submit_socket-Contract sample (SocketOp.recv_fixed (pos 5) 4096 100 false (pos 2)) (pos 3)
      one_second []

-- AF_UNIX
prep_socket-Refused_example :
    Refused sample unset [] (prep_socket sample (pos 3) (pos 1) (pos 1) unset [])
prep_socket-Refused_example = prep_socket-Refused sample (pos 1) (pos 1) (pos 3) unset [] refl
