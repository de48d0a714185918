-- ===== src/Buffer/Config.antt =====
-- uv/GlobalConfig.cpp and the choice of a buffer in the constructor of uv/TcpConnection.cpp. A
-- `PacketBufferPtr` is a buffer of one of the two kinds, or null.
use uv_cpp.Prelude.{ℕ, ◌*◌, ◌^◌, Option, none, some, Bytes}
use uv_cpp.Buffer.Cycle
use uv_cpp.Buffer.Cycle.{CycleBuffer}
use uv_cpp.Buffer.ListBuffer.{ListBuffer, new_list_buffer}

pub data BufferMode : Type 0 where
  no_buffer cycle_buffer list_buffer : BufferMode

pub data AnyBuffer : Type 0 where
  cycle : CycleBuffer → AnyBuffer
  list : ListBuffer → AnyBuffer

abbrev pub default_mode : BufferMode
default_mode = no_buffer

-- `1024 << 5`
abbrev pub cycle_buffer_size : ℕ
cycle_buffer_size = 1024 * 2 ^ 5

-- `storage` is the array that a CycleBuffer is given, which nothing has been written to.
pub new_buffer : BufferMode → Bytes → Option AnyBuffer
new_buffer no_buffer storage = none
new_buffer cycle_buffer storage = some (cycle (Cycle.create storage))
new_buffer list_buffer storage = some (list new_list_buffer)
