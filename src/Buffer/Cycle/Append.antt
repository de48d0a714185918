-- ===== src/Buffer/Cycle/Append.antt =====
-- uv/CycleBuffer.cpp: `append` and the view of the buffer as a queue.
use uv_cpp.Prelude.{
  ℕ, ◌+◌, ◌-◌, ◌≤◌, ◌<◌, ◌≡◌, ap, sym, ◌∙◌, Bytes, ◌++◌, length, take, drop, get_or, ltb, leb,
  Bool-cases, inl, inr, if◌then◌else◌, ok, failed, arith, length-take, length-drop, length-append,
  ext, get_or-append_left, get_or-append_right, get_or-take, get_or-drop,
}
use uv_cpp.Buffer.Cycle.Array.{copy, length-copy, get_or-copy_in, get_or-copy_out}
use uv_cpp.Buffer.Cycle.{CycleBuffer, usable_size_info, append}
use uv_cpp.Buffer.Cycle.Inv.{IsValid, held, free, usable_part1, append_fields, append-IsValid}
use uv_cpp.Buffer.Cycle.Inv.{append_failed}
use uv_cpp.Buffer.Cycle.Contents.{contents, place, length-contents, get_or-contents}

module _ {cap : ℕ} {b : CycleBuffer} (bytes : Bytes) (v : IsValid cap b)
    (fits : length bytes ≤ free cap b) where
  abbrev part1 : ℕ
  part1 = (usable_size_info cap b).part1

  abbrev first : Bytes
  first = copy (take part1 bytes) b.write_index b.buffer

  abbrev both : Bytes
  both = copy (drop part1 bytes) 0 first

  -- The new bytes stand behind the write index, going round.
  written :
      (k : ℕ)
      → k < length bytes
      → get_or (append cap b bytes).1.buffer (place cap b.write_index k) 0 ≡ get_or bytes k 0
  written k h =
      let (_, e, _, _) = append_fields bytes v fits in
      let w = b.write_index in
      rw e (elim (Bool-cases (leb (length bytes) part1)) [
        | inl whole ↦
            rw whole
              (ground (arith, usable_part1 v, get_or-copy_in bytes w b.buffer (place cap w k) k))
        | inr split ↦ rw split (
            ground (
              arith,
              usable_part1 v,
              length-take part1 bytes,
              length-drop part1 bytes,
              length-copy (take part1 bytes) w b.buffer,
              get_or-copy_in (take part1 bytes) w b.buffer (place cap w k) k,
              get_or-take part1 k bytes 0,
              get_or-copy_out (drop part1 bytes) 0 first (place cap w k),
              get_or-copy_in (drop part1 bytes) 0 first (place cap w k) (k - part1),
              get_or-drop part1 (k - part1) k bytes 0,
            ))
      ])

  -- The bytes held before are not overwritten.
  kept :
      (k : ℕ)
      → k < held cap b
      → get_or (append cap b bytes).1.buffer (place cap b.read_index k) 0
        ≡ get_or b.buffer (place cap b.read_index k) 0
  kept k h =
      let (_, e, _, _) = append_fields bytes v fits in
      let w = b.write_index in
      let j = place cap b.read_index k in
      rw e (elim (Bool-cases (leb (length bytes) part1)) [
        | inl whole ↦ rw whole (ground (arith, usable_part1 v, get_or-copy_out bytes w b.buffer j))
        | inr split ↦ rw split (
            ground (
              arith,
              usable_part1 v,
              length-take part1 bytes,
              length-drop part1 bytes,
              get_or-copy_out (take part1 bytes) w b.buffer j,
              get_or-copy_out (drop part1 bytes) 0 first j,
            ))
      ])

  held-append : held cap (append cap b bytes).1 ≡ held cap b + length bytes
  held-append = let (_, _, w, r) = append_fields bytes v fits in ground (arith, w, r)

  valid : IsValid cap (append cap b bytes).1
  valid = append-IsValid bytes v

  appended_byte :
      (i : ℕ)
      → i < held cap (append cap b bytes).1
      → get_or (contents cap (append cap b bytes).1) i 0 ≡ get_or (contents cap b ++ bytes) i 0
  appended_byte i h =
      let (_, _, _, r) = append_fields bytes v fits in
      let n = length-contents cap b in
      let at = get_or-contents i valid h in
      elim (Bool-cases (ltb i (held cap b))) [
        | inl old ↦
            let lt : i < held cap b = ground arith in
            at
            ∙ (ap (λ m. get_or (append cap b bytes).1.buffer (place cap m i) 0) r
                ∙ (kept i lt
                    ∙ (sym (get_or-contents i v lt)
                        ∙ sym (get_or-append_left (contents cap b) bytes i 0 (omega (arith, n))))))
        | inr new ↦
            let k = i - held cap b in
            let e : i ≡ held cap b + k = ground arith in
            let lt : k < length bytes = omega (arith, held-append) in
            let same : place cap b.read_index i ≡ place cap b.write_index k = ground arith in
            at
            ∙ (ap (λ m. get_or (append cap b bytes).1.buffer (place cap m i) 0) r
                ∙ (ap (λ m. get_or (append cap b bytes).1.buffer m 0) same
                    ∙ (written k lt
                        ∙ sym
                            (get_or-append_right (contents cap b) bytes i k 0 (omega (arith, n))))))
      ]

  -- What fits is appended to the contents.
  pub contents-append : contents cap (append cap b bytes).1 ≡ contents cap b ++ bytes
  contents-append =
      let b' = (append cap b bytes).1 in
      let n = length-contents cap b' in
      ext (contents cap b') (contents cap b ++ bytes) 0
        (omega (arith, n, held-append, length-contents cap b, length-append (contents cap b) bytes))
        (λ i h. appended_byte i (omega (arith, n)))

-- On a valid buffer `append` takes the bytes just when they fit beside what is held with one place
-- left free: then it returns 0 and the contents are followed by them; else it returns -1 and the
-- contents stay. In both cases the buffer is valid after it and the contents leave a place free.
pub append_queue :
    {cap : ℕ} {b : CycleBuffer} (bytes : Bytes)
    → IsValid cap b
    → let r = append cap b bytes in
      let fits = ltb (length (contents cap b) + length bytes) cap in
      (r.0 ≡ (if fits then ok else failed))
      × (contents cap r.1 ≡ (if fits then contents cap b ++ bytes else contents cap b))
      × (length (contents cap r.1) < cap)
      × IsValid cap r.1
append_queue {cap} {b} bytes v =
    let r = append cap b bytes in
    let n = length-contents cap b in
    let v' = append-IsValid bytes v in
    let bound : length (contents cap r.1) < cap = ground (arith, length-contents cap r.1, v') in
    elim (Bool-cases (ltb (length (contents cap b) + length bytes) cap)) [
      | inl room ↦
          let h : length bytes ≤ free cap b = ground (arith, n) in
          rw room ((append_fields bytes v h).0, contents-append bytes v h, bound, v')
      | inr full ↦
          let e = append_failed bytes v (ground (arith, n)) in
          rw full (ap (λ x. x.0) e, ap (λ x. contents cap x.1) e, bound, v')
    ]
