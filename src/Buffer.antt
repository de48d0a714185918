-- ===== src/Buffer.antt =====
-- The byte queues that a connection reads from: the interface of uv/include/PacketBuffer.hpp and
-- its two implementations, uv/CycleBuffer.cpp and uv/ListBuffer.cpp.
pub mod Interface
pub mod Cycle
pub mod ListBuffer
pub mod Instances
pub mod Any
pub mod Config
