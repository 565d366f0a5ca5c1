-- ===== src/Enums.antt =====
-- The enumerations of execution_context_enums.h and buffers.h, and the values of the kernel's
-- `enum io_uring_op` that the program names.

pub data StreamStrategy : Type 0 where
  oneshot multishot : StreamStrategy

pub data TransferMode : Type 0 where
  normal_transfer zero_copy : TransferMode

pub data BufferMode : Type 0 where
  normal_buf fixed provided buf_ring buf_no_val : BufferMode

pub data PayloadOrigin : Type 0 where
  payload_user payload_runtime origin_no_val : PayloadOrigin

pub data PayloadType : Type 0 where
  payload_linear payload_iovec payload_linear_and_iovec payload_type_no_val : PayloadType

-- `nop` is 0.
pub data Opcode : Type 0 where
  nop read readv write writev openat2 socket bind connect listen accept recv recvmsg send sendmsg :
      Opcode
  close timeout fsync splice : Opcode
