-- ===== src/Lib.antt =====
-- Verification library of uringio, an asyncio event loop and file and socket operations for Python
-- on Linux's io_uring. It models the C code below the Python methods:
--
-- Registry.antt: src/registry/registry.c. A slot for each request in flight, and a stack of the
-- free slots' indices. The index of a slot is the user data of the request's sqe. `RequestSlot`
-- and `RequestRegistry` are the structs; registry_new, registry_add, registry_get,
-- registry_remove and registry_destroy have the same names. What they do to other objects, the
-- reference counts and the frees, is a list of `Effect`s; Registry/Releases has what removing a
-- request is to give back. `abort` is `none`.
-- BufferControllers/Index.antt: src/buffer_controllers/buffer_index.c, the stack of the free
-- registered buffers. BufferControllers/Modes.antt: src/buffer_controllers/buffer_modes.c, how
-- buffers are given to the ring.
-- Ring.antt: src/ring. Timer.antt: src/timer. Ops.antt: src/macroses.h and the tail that the
-- operations share; Ops/Files.antt: src/ops/files; Ops/Sockets.antt: src/ops/sockets. A function
-- of the program takes the list of the liburing calls made so far, newest first, and answers its
-- C result and the list with its own calls (Uring.antt).
-- Payload.antt and Enums.antt: the types of src/python_api/buffers/buffers.h and of
-- src/python_api/execution_context/execution_context_enums.h, and the kernel's opcodes.
-- Reader.antt: src/python_api/reader/on_ready.c, the loop that takes completions. It finds the
-- slot by the user data, makes the result by the opcode, completes the future, gives back the
-- payload and a fixed buffer's index, and removes the request from the registry. Reader/State has
-- the state; Results, FileCases, SocketCases, MessageCases and Cases have the switch; Ready has
-- the loop. Events, Removal, Found and Success have the lemmas, Stale, Failure, Reads and Writes the
-- theorems about completions.
--
-- Buffers.antt: src/python_api/buffers/buffers.c, on memory whose every block, loan and reference is
-- accounted for (Buffers/Heap, Rules and Arrays). Linear and Vectored have the arrays, Create the
-- payloads that the methods make, Free the freeing; a Contract beside each says what it holds.
-- Methods.antt: the methods of src/python_api/ops/files/files.c, on the registry, the ring and that
-- memory. Methods/Dispatch has file_ops_dispatcher.c, Methods/Files the methods UringioFile_read,
-- readv, readv_raw, write, writev, writev_raw, close, fsync, fdatasync and splice, each from its
-- guards to `_check_file_result`. Rules, Unsent, Laws and Submission have what every path of a method
-- shares; Plain and Buffered have the theorems about whole methods. `send_request` is the end that the
-- methods of files and of sockets share, from registry_add on.
-- SocketMethods.antt: src/python_api/ops/sockets/_helpers.c, and the methods of sockets.c on the same
-- state. SocketMethods/Dispatch has socket_ops_dispatcher.c; Calls has Uringio_prep_socket,
-- UringioSocket_bind, connect, listen, accept and close, Transfers send, recv, sendto and recvfrom,
-- Messages sendmsg and recvmsg. Rules and Addresses have what the paths share; Plain, Sending,
-- SendingTo, Accepting and Creating the theorems about whole methods.
-- ExecutionContext.antt: src/python_api/execution_context/contextvar.c and the getters of
-- execution_context.c, on contexts and capsules with their addresses. ExecutionContext/Contexts has
-- `enter` and `exit` of the four context managers, Modes their switches over the buffer mode. Laws has
-- what one manager does, Nesting nested `with` blocks, Failure the failures.
--
-- Loop.antt: src/python_api/loop/helpers.c (compute_timeout, promote_scheduled, drain_ready) and
-- graceful_shutdown of src/python_api/loop/shutdown.c. Loop/Timers, Ready and Shutdown have the
-- theorems.
--
-- How the parts interact: a Python method adds a request to the registry, and calls an operation of
-- src/ops with the index that it got; the operation tags an sqe with the index and submits it; the
-- reader gets the index back with the completion.
--
-- Base.antt has the numbers, lists and stacks. An `int` is an integer, a pointer or an unsigned is
-- a number, and each cast is written out (to_int, to_u16, to_u32, to_u64). A NULL pointer is `none`
-- or 0. The registries are taken with less than 2^31 entries, so that an `int` holds every index.
-- Every loop is a structural recursion, on a list or on the number of rounds left, but that of
-- promote_scheduled, whose fuel is one more than the number of timers: a theorem says that it is
-- enough.
--
-- liburing, the kernel, CPython and the allocator are not part of the repository: `Liburing`
-- (Uring.antt), `Env` (Reader/State.antt), `Host` (Buffers/Heap.antt), `Site` (Methods.antt), `Net`
-- (SocketMethods.antt) and `Python` (ExecutionContext.antt) have what they answer, as functions of
-- the calls made before; asyncio's callbacks, heapq and C's doubles are parameters of Loop.antt. A
-- law of them is assumed where a theorem names it: that a list of buffers has fewer than 2^31 items
-- (Buffers/Rules; this is an assumption on what is passed), that the loop has asyncio's attribute
-- `_closed` (Methods/Plain and the theorems on whole methods), `IsHeapq` and `IsDoubles`
-- (Loop/Timers), and `Behaves` (ExecutionContext/Laws): that `set` of the context variable does not
-- fail, that `reset` with the token of the current value does not fail, restores the value before
-- it and takes the last reference from no other capsule than that value, that `get` answers the
-- capsule that was set, and that an allocator answers no address in use.
--
-- Not modelled: the references that context managers and tokens hold, the messages on stderr and
-- the texts of exceptions, the lifetime of objects on the C stack, the memory model of the rings
-- that are shared with the kernel, the parsing of a method's arguments (its outcome is an input),
-- create_buffer_payload with make_buffers and serialize_buffers, Uringio_open, the asynchronous
-- context managers of files and sockets, the methods of timers, the methods of the loop that make
-- context managers, and the creation and the rounds of the loop object (src/python_api); signals,
-- and the module's tables.
pub mod Base
pub mod Buffers
pub mod Enums
pub mod Uring
pub mod Ring
pub mod Timer
pub mod Loop
pub mod Methods
pub mod SocketMethods
pub mod ExecutionContext
pub mod Ops
pub mod BufferControllers
pub mod Registry
pub mod Payload
pub mod Reader
