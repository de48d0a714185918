-- ===== src/Packet.antt =====
-- uv/Packet.cpp and uv/include/Packet.hpp: frames of a head byte, a size in two bytes, the data and
-- an end byte, and how a reader finds them in a byte queue. The static members HeadByte, EndByte
-- and Mode, which a program may assign, are the record Format.
pub mod Num
pub mod Frame
pub mod Read
pub mod Stream
pub mod Stale
pub mod Receive
mod Tests
use uv_cpp.Prelude.{
  ℕ, zero, suc, ◌+◌, ◌*◌, ◌/◌, ◌%◌, ◌^◌, Bool, true, false, not, Bytes, [], ◌∷◌, ◌++◌, length, take,
  drop, get_or, ltb, ◌==◌, if◌then◌else◌, Option, none, some, sub64, Code, ok, failed,
}
use uv_cpp.Buffer.Interface.{PacketBuffer}

pub data DataMode : Type 0 where
  big_endian little_endian : DataMode

pub record Format : Type 0 where
  pub head_byte : ℕ
  pub end_byte : ℕ
  pub mode : DataMode

-- The initial values of the static members.
abbrev pub default_format : Format
default_format = record { head_byte = 0x7e; end_byte = 0xe7; mode = little_endian }

pub record Packet : Type 0 where
  pub buffer : Bytes
  pub data_size : ℕ

abbrev pub empty_packet : Packet
empty_packet = record { buffer = []; data_size = 0 }

pub packet_min_size : ℕ
packet_min_size = 4

-- The `size` bytes that the loop of PackNum writes from the first place on.
pub pack_little : ℕ → ℕ → Bytes
pack_little zero num = []
pack_little (suc size) num = num % 256 ∷ pack_little size (num / 256)

-- Here the loop writes from the last place down: `written` stands behind what is still to come.
pub pack_big : ℕ → ℕ → Bytes → Bytes
pack_big zero num written = written
pack_big (suc size) num written = pack_big size (num / 256) (num % 256 ∷ written)

pub pack_num : DataMode → ℕ → ℕ → Bytes
unfolding pack_little pack_big
pack_num big_endian size num = pack_big size num []
pack_num little_endian size num = pack_little size num

-- `num <<= 8; num |= byte` in a type of `width` values: the low byte is 0 before the `|=`.
pub unpack_big : ℕ → Bytes → ℕ → ℕ
unpack_big width [] num = num
unpack_big width (x ∷ xs) num = unpack_big width xs (num * 256 % width + x)

-- The loop runs from the last byte down.
pub unpack_little : ℕ → Bytes → ℕ
unpack_little width [] = 0
unpack_little width (x ∷ xs) = unpack_little width xs * 256 % width + x

pub unpack_num : DataMode → ℕ → Bytes → ℕ
unfolding unpack_big unpack_little
unpack_num big_endian size bytes = unpack_big (256 ^ size) (take size bytes) 0
unpack_num little_endian size bytes = unpack_little (256 ^ size) (take size bytes)

-- `size` is a `uint16_t`; `bytes` are what the pointer reaches, at least `size` of them.
unfoldable pub pack : Format → Bytes → ℕ → Packet
unfolding pack_num
pack fmt bytes size = record {
  buffer = fmt.head_byte ∷ (pack_num fmt.mode 2 size ++ (take size bytes ++ fmt.end_byte ∷ []));
  data_size = size;
}

-- What the pointer reaches.
pub get_data : Packet → Bytes
get_data p = drop 3 p.buffer

unfoldable pub packet_size : Packet → ℕ
packet_size p = length p.buffer % 2 ^ 32

-- The packet takes the string, and the string takes the packet's old bytes.
pub swap : Packet → Bytes → Packet × Bytes
unfolding packet_min_size
swap p str =
    (record { buffer = str; data_size = sub64 (length str) packet_min_size % 2 ^ 16 }, p.buffer)

-- `data.back()`
abbrev pub last_or : Bytes → ℕ → ℕ
last_or [] d = d
last_or (x ∷ xs) d = last_or xs x

module _ (P : PacketBuffer) (fmt : Format) where
  open P use {Buffer, read_buffer_n, clear_buffer_n, read_size}

  -- A round of the loop of readFromBuffer; `bytes` is the string that the rounds share. `none` means
  -- that the fuel ran out.
  pub read_loop : ℕ → Bytes → Buffer → Packet → Option (Code × Packet × Buffer)
  read_loop zero bytes b out = none
  read_loop (suc fuel) bytes b out =
      let size = read_size b in
      let header = (read_buffer_n b bytes 3).1 in
      let skip = read_loop fuel [] (clear_buffer_n b 1).1 out in
      let data_size = unpack_num fmt.mode 2 (drop 1 header) in
      let msgsize = (data_size + packet_min_size) % 2 ^ 16 in
      let b' = (clear_buffer_n b 3).1 in
      let frame = (read_buffer_n b' header (data_size + 1)).1 in
      let again = read_loop fuel frame b' out in
      let done = (clear_buffer_n b' (data_size + 1)).1 in
      if ltb size packet_min_size
      then some (failed, out, b)
      else if not (get_or header 0 0 == fmt.head_byte)
      then skip
      else if ltb size msgsize
      then some (failed, out, b)
      else if last_or frame 0 == fmt.end_byte
      then some (ok, (swap out frame).0, done)
      else again

  pub read_from_buffer : Buffer → Packet → Option (Code × Packet × Buffer)
  read_from_buffer b out = read_loop (suc (read_size b)) [] b out
