-- ===== src/Buffer/Cycle/Contents.antt =====
-- The bytes that a CycleBuffer holds, oldest first: its abstract view as a queue.
use uv_cpp.Prelude.{
  ℕ, ◌+◌, ◌-◌, ◌<◌, ◌≡◌, Bytes, ◌++◌, length, get_or, ltb, leb, if◌then◌else◌, arith, length-append,
  get_or-append_left, get_or-append_right,
}
use uv_cpp.Buffer.Cycle.Array.{range, length-range, get_or-range}
use uv_cpp.Buffer.Cycle.{CycleBuffer}
use uv_cpp.Buffer.Cycle.Inv.{IsValid, held}

abbrev pub contents : ℕ → CycleBuffer → Bytes
contents cap b =
    if leb b.read_index b.write_index
    then range b.buffer b.read_index (b.write_index - b.read_index)
    else range b.buffer b.read_index (cap - b.read_index) ++ range b.buffer 0 b.write_index

-- The place in the array `k` steps after the index `i`.
abbrev pub place : ℕ → ℕ → ℕ → ℕ
place cap i k = if ltb (i + k) cap then i + k else i + k - cap

pub length-contents : (cap : ℕ) (b : CycleBuffer) → length (contents cap b) ≡ held cap b
length-contents cap b = ground (
  arith,
  length-range b.buffer b.read_index (b.write_index - b.read_index),
  length-append (range b.buffer b.read_index (cap - b.read_index)) (range b.buffer 0 b.write_index),
  length-range b.buffer b.read_index (cap - b.read_index),
  length-range b.buffer 0 b.write_index,
)

pub get_or-contents :
    {cap : ℕ} {b : CycleBuffer} (k : ℕ)
    → IsValid cap b
    → k < held cap b
    → get_or (contents cap b) k 0 ≡ get_or b.buffer (place cap b.read_index k) 0
get_or-contents {cap} {b} k v h =
    let front = range b.buffer b.read_index (cap - b.read_index) in
    let back = range b.buffer 0 b.write_index in
    ground (
      arith,
      length-range b.buffer b.read_index (cap - b.read_index),
      get_or-range b.buffer b.read_index (b.write_index - b.read_index) k (b.read_index + k),
      get_or-range b.buffer b.read_index (cap - b.read_index) k (b.read_index + k),
      get_or-range b.buffer 0 b.write_index (b.read_index + k - cap) (b.read_index + k - cap),
      get_or-append_left front back k 0,
      get_or-append_right front back k (b.read_index + k - cap) 0,
    )
