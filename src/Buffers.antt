-- ===== src/Buffers.antt =====
-- src/python_api/buffers/buffers.c: the buffers of a request, made and freed.
pub mod Heap
pub mod Free
pub mod Linear
pub mod Vectored
pub mod Create
pub mod Rules
pub mod Arrays
mod Tests
