-- ===== src/BufferControllers.antt =====
-- src/buffer_controllers: the free list of registered buffers, and the calls that give buffers to
-- the ring and take them back.
pub mod Index
pub mod Modes
