-- ===== src/Buffer/Cycle.antt =====
-- uv/CycleBuffer.cpp: a byte queue over an array that is used round and round. The array is
-- `cap` bytes long, the global GlobalConfig::CycleBufferSize, which is a parameter here.
pub mod Array
pub mod Inv
pub mod Contents
pub mod Append
pub mod Read
pub mod Trace
pub mod View
mod Tests
use uv_cpp.Prelude.{
  ℕ, ◌-◌, Bytes, length, take, drop, ltb, leb, ◌==◌, ◌++◌, if◌then◌else◌, add64, sub64, Code, ok,
  failed,
}
use Array.{copy, range}

pub record CycleBuffer : Type 0 where
  pub buffer : Bytes
  pub write_index : ℕ
  pub read_index : ℕ

pub record SizeInfo : Type 0 where
  pub size : ℕ
  pub part1 : ℕ
  pub part2 : ℕ

-- The constructor: `new uint8_t[]` leaves the bytes as the allocator gave them.
pub create : Bytes → CycleBuffer
create storage = record { buffer = storage; write_index = 0; read_index = 0 }

pub clear : CycleBuffer → Code × CycleBuffer
clear b = (ok, record b { write_index = 0; read_index = 0 })

with_size : ℕ → ℕ → SizeInfo
with_size p1 p2 = record { size = add64 p1 p2; part1 = p1; part2 = p2 }

module _ (cap : ℕ) where
  pub usable_size : CycleBuffer → ℕ
  usable_size b =
      if ltb write_index read_index
      then sub64 (sub64 read_index write_index) 1
      else sub64 (sub64 (add64 cap read_index) write_index) 1
    where
      open b use {write_index, read_index}

  pub usable_size_info : CycleBuffer → SizeInfo
  unfolding with_size
  usable_size_info b =
      let read_is_zero = 0 == read_index in
      if ltb write_index read_index
      then with_size (sub64 (sub64 read_index write_index) 1) 0
      else with_size
          (if read_is_zero then sub64 (sub64 cap write_index) 1 else sub64 cap write_index)
          (if read_is_zero then 0 else sub64 read_index 1)
    where
      open b use {write_index, read_index}

  pub read_size_info : CycleBuffer → SizeInfo
  unfolding with_size
  read_size_info b =
      if leb read_index write_index
      then with_size (sub64 write_index read_index) 0
      else with_size (sub64 cap read_index) write_index
    where
      open b use {write_index, read_index}

  pub read_size : CycleBuffer → ℕ
  unfolding read_size_info
  read_size b = (read_size_info b).size

  -- The part of `addWriteIndex` and of `addReadIndex` after the guard.
  pub advance : ℕ → ℕ → ℕ
  advance index size =
      let moved = add64 index size in if leb cap moved then sub64 moved cap else moved

  pub add_write_index : CycleBuffer → ℕ → Code × CycleBuffer
  add_write_index b size =
      if ltb cap size
      then (failed, b)
      else (ok, record b { write_index = advance b.write_index size })

  pub add_read_index : CycleBuffer → ℕ → Code × CycleBuffer
  add_read_index b size =
      if ltb cap size
      then (failed, b)
      else (ok, record b { read_index = advance b.read_index size })

  -- `size` is the length of `bytes`.
  pub append : CycleBuffer → Bytes → Code × CycleBuffer
  append b bytes =
      let info = usable_size_info b in
      let at_once = copy bytes b.write_index b.buffer in
      let in_two =
        copy (drop info.part1 bytes) 0 (copy (take info.part1 bytes) b.write_index b.buffer) in
      if ltb info.size (length bytes) then (failed, b) else (
        ok,
        (add_write_index
            (record b { buffer = if leb (length bytes) info.part1 then at_once else in_two })
            (length bytes)).1,
      )

  -- Appends to the string `out`; `-1` leaves it as it was.
  pub read_buffer_n : CycleBuffer → Bytes → ℕ → Code × Bytes
  read_buffer_n b out n =
      let info = read_size_info b in
      if ltb (read_size b) n
      then (failed, out)
      else if leb n info.part1
      then (ok, out ++ range b.buffer b.read_index n)
      else (
        ok,
        out
            ++ (range b.buffer b.read_index (cap - b.read_index)
                ++ range b.buffer 0 (sub64 n info.part1)),
      )

  pub clear_buffer_n : CycleBuffer → ℕ → Code × CycleBuffer
  clear_buffer_n b n = (ok, (add_read_index b (if ltb (read_size b) n then read_size b else n)).1)
