-- ===== src/Reader/Cases.antt =====
-- The switch of `on_uring_ready`: what a completion that is no error yields.
use uringio.Base.{ℤ}
use uringio.Enums.{Opcode}
use uringio.Registry.{RequestSlot}
use uringio.Reader.State.{Cqe, Env, R}
use uringio.Reader.Results.{Next, complete_long}
use uringio.Reader.FileCases.{
  on_read, on_readv, on_write, on_writev, on_openat2, on_close, on_timeout,
}
use uringio.Reader.SocketCases.{on_socket, on_socket_call, on_accept, on_recv, on_send}
use uringio.Reader.MessageCases.{on_recvmsg}

module _ (env : Env) (index : ℤ) (slot : RequestSlot) (cqe : Cqe) where
  -- `switch (slot->opcode)`
  unfoldable pub on_opcode : Opcode → R Next
  on_opcode Opcode.read = on_read env index slot cqe
  on_opcode Opcode.readv = on_readv env index slot cqe
  on_opcode Opcode.write = on_write env index slot cqe
  on_opcode Opcode.writev = on_writev env index slot cqe
  on_opcode Opcode.openat2 = on_openat2 env index slot cqe
  on_opcode Opcode.socket = on_socket env index slot cqe
  on_opcode Opcode.bind = on_socket_call env index slot cqe
  on_opcode Opcode.connect = on_socket_call env index slot cqe
  on_opcode Opcode.listen = on_socket_call env index slot cqe
  on_opcode Opcode.accept = on_accept env index slot cqe
  on_opcode Opcode.recv = on_recv env index slot cqe
  on_opcode Opcode.recvmsg = on_recvmsg env index slot cqe
  on_opcode Opcode.send = on_send env index slot cqe
  on_opcode Opcode.sendmsg = on_send env index slot cqe
  on_opcode Opcode.close = on_close env index slot cqe
  on_opcode Opcode.timeout = on_timeout env index slot cqe
  on_opcode _ = complete_long env cqe
