-- ===== src/Buffer/Cycle/Read.antt =====
-- uv/CycleBuffer.cpp: `readBufferN`, `clearBufferN` and `clear`, and the view of the buffer as a
-- queue.
use uv_cpp.Prelude.{
  [], ◌∷◌, ℕ, ◌+◌, ◌-◌, ◌≤◌, ◌<◌, ◌≡◌, refl, ap, sym, ◌∙◌, Bytes, ◌++◌, sub64, length, take, drop,
  get_or, ltb, leb, if◌then◌else◌, ok, failed, arith, length-take, length-drop, length-append, ext,
  get_or-append_left, get_or-append_right, get_or-take, get_or-drop,
}
use uv_cpp.Buffer.Cycle.Array.{range, length-range, get_or-range}
use uv_cpp.Buffer.Cycle.{CycleBuffer, clear, read_size_info, read_buffer_n, clear_buffer_n}
use uv_cpp.Buffer.Cycle.Inv.{
  IsValid, held, read_size-held, clear_buffer_n_fields, clear_buffer_n-IsValid,
}
use uv_cpp.Buffer.Cycle.Contents.{contents, place, length-contents, get_or-contents}

module _ {cap : ℕ} {b : CycleBuffer} (v : IsValid cap b) where
  read_at_once :
      (n : ℕ)
      → n ≤ held cap b
      → n ≤ (read_size_info cap b).part1
      → range b.buffer b.read_index n ≡ take n (contents cap b)
  unfolding read_size_info
  read_at_once n h one =
      let r = length-range b.buffer b.read_index n in
      ext (range b.buffer b.read_index n) (take n (contents cap b)) 0
        (omega (arith, r, length-take n (contents cap b), length-contents cap b))
        λ i lt. ground (
          arith,
          r,
          get_or-range b.buffer b.read_index n i (b.read_index + i),
          get_or-take n i (contents cap b) 0,
          get_or-contents i v,
        )

  split_byte :
      (n k m i : ℕ)
      → n ≤ held cap b
      → i < n
      → n ≡ k + m
      → k ≡ cap - b.read_index
      → get_or (range b.buffer b.read_index k ++ range b.buffer 0 m) i 0
        ≡ get_or (take n (contents cap b)) i 0
  split_byte n k m i h lt em ek =
      let front = range b.buffer b.read_index k in
      let back = range b.buffer 0 m in
      ground (
        arith,
        length-range b.buffer b.read_index k,
        get_or-range b.buffer b.read_index k i (b.read_index + i),
        get_or-range b.buffer 0 m (i - k) (i - k),
        get_or-append_left front back i 0,
        get_or-append_right front back i (i - k) 0,
        get_or-take n i (contents cap b) 0,
        get_or-contents i v,
      )

  read_in_two :
      (n : ℕ)
      → n ≤ held cap b
      → (read_size_info cap b).part1 < n
      → range b.buffer b.read_index (cap - b.read_index)
          ++ range b.buffer 0 (sub64 n (read_size_info cap b).part1)
        ≡ take n (contents cap b)
  unfolding read_size_info
  read_in_two n h two =
      let k = cap - b.read_index in
      let m = sub64 n (read_size_info cap b).part1 in
      let wraps : b.write_index < b.read_index = ground arith in
      let em : n ≡ k + m = ground arith in
      let front = range b.buffer b.read_index k in
      let back = range b.buffer 0 m in
      let lf = length-range b.buffer b.read_index k in
      let lb = length-range b.buffer 0 m in
      ext (front ++ back) (take n (contents cap b)) 0
        (omega (
          arith,
          lf,
          lb,
          em,
          length-append front back,
          length-take n (contents cap b),
          length-contents cap b,
        ))
        λ i lt.
          let lt' : i < n = omega (arith, lf, lb, em, length-append front back) in
          split_byte n k m i h lt' em refl

  -- A read of what is held gives the oldest bytes, and more is refused.
  pub read_buffer_n_lem :
      (out : Bytes) (n : ℕ)
      → read_buffer_n cap b out n
        ≡ (if leb n (held cap b) then (ok, out ++ take n (contents cap b)) else (failed, out))
  unfolding read_buffer_n
  read_buffer_n_lem out n = rw (read_size-held v) (ground (arith, read_at_once n, read_in_two n))

  pub contents-clear_buffer_n :
      (n : ℕ) → contents cap (clear_buffer_n cap b n).1 ≡ drop n (contents cap b)
  contents-clear_buffer_n n =
      let b' = (clear_buffer_n cap b n).1 in
      let (r, w, e) = clear_buffer_n_fields n v in
      let v' = clear_buffer_n-IsValid n v in
      let k = if ltb (held cap b) n then held cap b else n in
      let m : held cap b' ≡ held cap b - n = ground (arith, r, w) in
      let c = length-contents cap b' in
      ext (contents cap b') (drop n (contents cap b)) 0
        (omega (arith, c, m, length-contents cap b, length-drop n (contents cap b)))
        λ i lt.
          let small : i < held cap b' = omega (arith, c) in
          let big : n + i < held cap b = omega (arith, m) in
          let ke : k ≡ n = ground arith in
          let same : place cap b'.read_index i ≡ place cap b.read_index (n + i) =
            ground (arith, r) in
          get_or-contents i v' small
          ∙ (ap (λ (x : Bytes). get_or x (place cap b'.read_index i) 0) e
              ∙ (ap (λ x. get_or b.buffer x 0) same
                  ∙ (sym (get_or-contents (n + i) v big)
                      ∙ sym (get_or-drop n i (n + i) (contents cap b) 0 refl))))

pub contents-clear : {cap : ℕ} {b : CycleBuffer} → IsValid cap b → contents cap (clear b).1 ≡ []
unfolding clear
contents-clear {cap} {b} v = length_zero _ (length-range b.buffer 0 0)
  where
    length_zero : (xs : Bytes) → length xs ≡ 0 → xs ≡ []
    length_zero [] e = refl
    length_zero (x ∷ xs) e = absurd (omega arith)

-- On a valid buffer `readBufferN` appends the `n` oldest bytes to the string and returns 0 when so
-- many are held, and otherwise returns -1 and leaves the string.
pub read_buffer_n_queue :
    {cap : ℕ} {b : CycleBuffer} (out : Bytes) (n : ℕ)
    → IsValid cap b
    → read_buffer_n cap b out n ≡ (
        if leb n (length (contents cap b))
        then (ok, out ++ take n (contents cap b))
        else (failed, out))
read_buffer_n_queue {cap} {b} out n v = rw (length-contents cap b) (read_buffer_n_lem v out n)

-- On a valid buffer `clearBufferN` returns 0 and drops the `n` oldest bytes, or all if fewer are
-- held, and the buffer is valid after it.
pub clear_buffer_n_queue :
    {cap : ℕ} {b : CycleBuffer} (n : ℕ)
    → IsValid cap b
    → let r = clear_buffer_n cap b n in
      (r.0 ≡ ok) × (contents cap r.1 ≡ drop n (contents cap b)) × IsValid cap r.1
unfolding clear_buffer_n
clear_buffer_n_queue n v = (refl, contents-clear_buffer_n v n, clear_buffer_n-IsValid n v)
