-- ===== src/Buffer/Cycle/Inv.antt =====
-- uv/CycleBuffer.cpp: the representation invariant, and the sizes and fields after each operation.
use uv_cpp.Prelude.{
  ℕ, ◌+◌, ◌-◌, ◌^◌, ◌≤◌, ◌<◌, ◌≡◌, refl, Bytes, length, take, drop, ltb, leb, ge→ltb, Bool-cases,
  inl, inr, if◌then◌else◌, ok, failed, arith,
}
use uv_cpp.Buffer.Cycle.Array.{copy, length-copy}
use uv_cpp.Buffer.Cycle.{
  CycleBuffer, create, clear, usable_size, usable_size_info, read_size, advance, add_write_index,
  add_read_index, append, clear_buffer_n,
}

pub record IsValid (cap : ℕ) (b : CycleBuffer) : Type 0 where
  pub storage : length b.buffer ≡ cap
  pub not_empty : 0 < cap
  pub small : cap ≤ 2 ^ 63
  pub write_in : b.write_index < cap
  pub read_in : b.read_index < cap

-- How many bytes are held, with no machine arithmetic.
abbrev pub held : ℕ → CycleBuffer → ℕ
held cap b =
    if leb b.read_index b.write_index
    then b.write_index - b.read_index
    else cap - b.read_index + b.write_index

-- How many bytes still fit, with no machine arithmetic: one place stays free.
abbrev pub free : ℕ → CycleBuffer → ℕ
free cap b = cap - 1 - held cap b

pub read_size-held : {cap : ℕ} {b : CycleBuffer} → IsValid cap b → read_size cap b ≡ held cap b
unfolding read_size
read_size-held v = ground arith

pub usable_size-free : {cap : ℕ} {b : CycleBuffer} → IsValid cap b → usable_size cap b ≡ free cap b
unfolding usable_size
usable_size-free v = ground arith

-- On a valid buffer the size that `usableSizeInfo` gives is the free space with one place kept
-- back, with no wrap-around; its two parts add up to it, and the first does not go past the end of
-- the array.
pub usable_size_info-free :
    {cap : ℕ} {b : CycleBuffer}
    → IsValid cap b
    → ((usable_size_info cap b).size ≡ free cap b)
      × ((usable_size_info cap b).part1 + (usable_size_info cap b).part2 ≡ free cap b)
      × (b.write_index + (usable_size_info cap b).part1 ≤ cap)
unfolding usable_size_info
usable_size_info-free v = ground arith

-- Where the bytes go that do not fit behind the write index.
pub usable_part1 :
    {cap : ℕ} {b : CycleBuffer}
    → IsValid cap b
    → (usable_size_info cap b).part1 ≡ (
        if ltb b.write_index b.read_index
        then b.read_index - b.write_index - 1
        else cap - b.write_index - (1 - b.read_index))
unfolding usable_size_info
usable_part1 v = ground arith

pub create-IsValid :
    (storage : Bytes)
    → 0 < length storage
    → length storage ≤ 2 ^ 63
    → IsValid (length storage) (create storage)
unfolding create
create-IsValid storage h k = ground arith

pub clear-IsValid : {cap : ℕ} {b : CycleBuffer} → IsValid cap b → IsValid cap (clear b).1
unfolding clear
clear-IsValid v = ground arith

advance_lem :
    (cap index n : ℕ)
    → cap ≤ 2 ^ 63
    → index < cap
    → n ≤ cap
    → advance cap index n ≡ (if ltb (index + n) cap then index + n else index + n - cap)
unfolding advance
advance_lem cap index n h i k = ground arith

-- `addWriteIndex` never returns -1 to its one caller, which ignores the result.
add_write_index_lem :
    (cap : ℕ) (b : CycleBuffer) (n : ℕ)
    → n ≤ cap
    → add_write_index cap b n ≡ (ok, record b { write_index = advance cap b.write_index n })
unfolding add_write_index
add_write_index_lem cap b n h = ground arith

add_read_index_lem :
    (cap : ℕ) (b : CycleBuffer) (n : ℕ)
    → n ≤ cap
    → add_read_index cap b n ≡ (ok, record b { read_index = advance cap b.read_index n })
unfolding add_read_index
add_read_index_lem cap b n h = ground arith

-- What a successful `append` leaves in each field.
pub append_fields :
    {cap : ℕ} {b : CycleBuffer} (bytes : Bytes)
    → IsValid cap b
    → length bytes ≤ free cap b
    → let info = usable_size_info cap b in
      let two =
        copy (drop info.part1 bytes) 0 (copy (take info.part1 bytes) b.write_index b.buffer) in
      ((append cap b bytes).0 ≡ ok)
      × ((append cap b bytes).1.buffer
          ≡ (if leb (length bytes) info.part1 then copy bytes b.write_index b.buffer else two))
      × ((append cap b bytes).1.write_index ≡ (
          if ltb (b.write_index + length bytes) cap
          then b.write_index + length bytes
          else b.write_index + length bytes - cap))
      × ((append cap b bytes).1.read_index ≡ b.read_index)
unfolding append
append_fields {cap} {b} bytes v h =
    let info = usable_size_info cap b in
    let two =
      copy (drop info.part1 bytes) 0 (copy (take info.part1 bytes) b.write_index b.buffer) in
    let one = copy bytes b.write_index b.buffer in
    rw (ge→ltb info.size (length bytes) (omega (arith, usable_size_info-free v))) (
      rw
        (add_write_index_lem cap
          (record b { buffer = if leb (length bytes) info.part1 then one else two }) (length bytes)
          (omega arith))
        (
          refl,
          refl,
          advance_lem cap b.write_index (length bytes) v.small v.write_in (omega arith),
          refl,
        ))

pub append_failed :
    {cap : ℕ} {b : CycleBuffer} (bytes : Bytes)
    → IsValid cap b
    → free cap b < length bytes
    → append cap b bytes ≡ (failed, b)
unfolding append
append_failed {cap} {b} bytes v h = ground (arith, usable_size_info-free v)

pub append-IsValid :
    {cap : ℕ} {b : CycleBuffer} (bytes : Bytes) → IsValid cap b → IsValid cap (append cap b bytes).1
append-IsValid {cap} {b} bytes v = elim (Bool-cases (ltb (free cap b) (length bytes))) [
  | inl full ↦ rw (append_failed bytes v (ground arith)) v
  | inr fits ↦
      let (_, e, w, r) = append_fields bytes v (ground arith) in
      let part1 = (usable_size_info cap b).part1 in
      ground (
        arith,
        e,
        w,
        r,
        length-copy bytes b.write_index b.buffer,
        length-copy (drop part1 bytes) 0 (copy (take part1 bytes) b.write_index b.buffer),
        length-copy (take part1 bytes) b.write_index b.buffer,
      )
]

pub clear_buffer_n_fields :
    {cap : ℕ} {b : CycleBuffer} (n : ℕ)
    → IsValid cap b
    → let k = if ltb (held cap b) n then held cap b else n in
      ((clear_buffer_n cap b n).1.read_index
        ≡ (if ltb (b.read_index + k) cap then b.read_index + k else b.read_index + k - cap))
      × ((clear_buffer_n cap b n).1.write_index ≡ b.write_index)
      × ((clear_buffer_n cap b n).1.buffer ≡ b.buffer)
unfolding clear_buffer_n
clear_buffer_n_fields {cap} {b} n v =
    let k = if ltb (held cap b) n then held cap b else n in
    rw (read_size-held v) (
      rw (add_read_index_lem cap b k (ground arith))
        (advance_lem cap b.read_index k v.small v.read_in (ground arith), refl, refl))

pub clear_buffer_n-IsValid :
    {cap : ℕ} {b : CycleBuffer} (n : ℕ) → IsValid cap b → IsValid cap (clear_buffer_n cap b n).1
clear_buffer_n-IsValid {cap} {b} n v =
    let (r, w, e) = clear_buffer_n_fields n v in
    let k = if ltb (held cap b) n then held cap b else n in
    let bound : k ≤ held cap b = ground arith in ground (arith, r, w, e)
