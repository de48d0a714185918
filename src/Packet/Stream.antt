-- ===== src/Packet/Stream.antt =====
-- uv/Packet.cpp: `readFromBuffer` on a frame behind other bytes, and on a part of a frame.
use uv_cpp.Prelude.{
  ℕ, zero, suc, ◌+◌, ◌≤◌, ◌<◌, ◌≡◌, ◌≢◌, refl, ap, sym, ◌∙◌, Bytes, [], ◌∷◌, ◌++◌, length, drop,
  Option, some, Code, ok, failed, arith, length-append, append_assoc, Lacks,
}
use uv_cpp.Buffer.Interface.{PacketBuffer}
use uv_cpp.Packet.{Format, Packet, pack, swap, unpack_num, read_loop, read_from_buffer}
use uv_cpp.Packet.Frame.{pack-HasFrame, length-pack, swap-pack}
use uv_cpp.Packet.Read.{read_loop_short, read_loop_skip, read_loop_part, read_loop_frame}

module _ (P : PacketBuffer) (fmt : Format) where
  open P use {
    Buffer, IsValid, contents, clear_buffer_n, read_size, read_size-contents,
    contents-clear_buffer_n, clear_buffer_n-IsValid,
  }

  skip :
      (fuel : ℕ) (out : Packet) {b : Buffer} (x : ℕ) (more : Bytes)
      → IsValid b
      → contents b ≡ x ∷ more
      → 3 ≤ length more
      → x ≢ fmt.head_byte
      → read_loop P fmt (suc fuel) [] b out ≡ read_loop P fmt fuel [] (clear_buffer_n b 1).1 out
  skip fuel out x [] v e h ne = absurd (omega arith)
  skip fuel out x (y ∷ []) v e h ne = absurd (omega arith)
  skip fuel out x (y ∷ z ∷ tail) v e h ne =
      read_loop_skip P fmt v x y z tail e fuel out ne (omega arith)

  -- The outcome of a call that takes the frame of `bytes` and leaves `rest`.
  abbrev pub Receives : Bytes → Bytes → Option (Code × Packet × Buffer) → Type 0
  Receives bytes rest r =
      (b' : Buffer) × (r ≡ some (ok, pack fmt bytes (length bytes), b'))
      × (contents b' ≡ rest)
      × IsValid b'

  module _ (bytes rest : Bytes) (h : length bytes < 65532) where
    abbrev frame : Bytes
    frame = (pack fmt bytes (length bytes)).buffer

    take_frame :
        (fuel : ℕ) (out : Packet) {b : Buffer}
        → IsValid b
        → contents b ≡ frame ++ rest
        → Receives bytes rest (read_loop P fmt (suc fuel) [] b out)
    take_frame fuel out {b} v e =
        let f = pack-HasFrame fmt bytes (omega arith) in
        let tail = bytes ++ (fmt.end_byte ∷ rest) in
        let shape : frame ++ rest ≡ fmt.head_byte ∷ f.lo ∷ f.hi ∷ tail =
          ap (λ x. x ++ rest) f.layout
          ∙ ap (λ x. fmt.head_byte ∷ f.lo ∷ f.hi ∷ x)
              (append_assoc bytes (fmt.end_byte ∷ []) rest) in
        let (r, c) =
          read_loop_frame P fmt v fmt.head_byte f.lo f.hi tail (e ∙ shape) fuel out bytes rest refl
            (f.size_is []) refl h in
        let whole =
          ap (λ x. (swap out x).0) (sym f.layout) ∙ swap-pack fmt bytes out (omega arith) in
        let b' = (clear_buffer_n (clear_buffer_n b 3).1 (length bytes + 1)).1 in
        (
          b',
          r ∙ ap (λ p. some (ok, p, b')) whole,
          c,
          clear_buffer_n-IsValid (length bytes + 1) (clear_buffer_n-IsValid 3 v),
        )

    skip_junk :
        (junk : Bytes) (fuel : ℕ) (out : Packet) {b : Buffer}
        → Lacks fmt.head_byte junk
        → IsValid b
        → contents b ≡ junk ++ (frame ++ rest)
        → length junk < fuel
        → Receives bytes rest (read_loop P fmt fuel [] b out)
    skip_junk junk zero out l v e lt = absurd (omega arith)
    skip_junk [] (suc fuel) out l v e lt = take_frame fuel out v e
    skip_junk (x ∷ junk) (suc fuel) out {b} l v e lt =
        let more = junk ++ (frame ++ rest) in
        let long : 3 ≤ length more = omega (
          arith,
          length-append junk (frame ++ rest),
          length-append frame rest,
          length-pack fmt bytes (length bytes) (omega arith),
        ) in
        let next = contents-clear_buffer_n 1 v ∙ ap (drop 1) e in
        rw (skip fuel out x more v e long l.0)
          (skip_junk junk fuel out l.1 (clear_buffer_n-IsValid 1 v) next (omega arith))

    -- In a valid buffer of any kind that holds some bytes without the head byte, then the frame
    -- that `pack` makes of fewer than 65532 bytes, and then any rest, `readFromBuffer` returns 0
    -- with the packet that was packed, and leaves a valid buffer that holds the rest.
    pub read_from_buffer-pack :
        (junk : Bytes) (out : Packet) {b : Buffer}
        → Lacks fmt.head_byte junk
        → IsValid b
        → contents b ≡ junk ++ (frame ++ rest)
        → Receives bytes rest (read_from_buffer P fmt b out)
    unfolding read_from_buffer
    read_from_buffer-pack junk out {b} l v e =
        skip_junk junk (suc (read_size b)) out l v e
          (omega (arith, read_size-contents v, ap length e, length-append junk (frame ++ rest)))

  part :
      (fuel : ℕ) (out : Packet) (bytes more cs : Bytes) {b : Buffer}
      → length bytes < 65532
      → IsValid b
      → contents b ≡ cs
      → more ≢ []
      → (pack fmt bytes (length bytes)).buffer ≡ cs ++ more
      → read_loop P fmt (suc fuel) [] b out ≡ some (failed, out, b)
  part fuel out bytes [] cs h v e ne split = absurd (ne refl)
  part fuel out bytes (m ∷ more) [] h v e ne split =
      read_loop_short P fmt fuel [] out v (rw e (omega arith))
  part fuel out bytes (m ∷ more) (x ∷ []) h v e ne split =
      read_loop_short P fmt fuel [] out v (rw e (omega arith))
  part fuel out bytes (m ∷ more) (x ∷ y ∷ []) h v e ne split =
      read_loop_short P fmt fuel [] out v (rw e (omega arith))
  part fuel out bytes (m ∷ more) (x ∷ y ∷ z ∷ []) h v e ne split =
      read_loop_short P fmt fuel [] out v (rw e (omega arith))
  part fuel out bytes (m ∷ more) (x ∷ y ∷ z ∷ w ∷ cs) h v e ne split =
      let f = pack-HasFrame fmt bytes (omega arith) in
      let all = sym f.layout ∙ split in
      let hx : x ≡ fmt.head_byte = cc all in
      let hy : f.lo ≡ y = cc all in
      let hz : f.hi ≡ z = cc all in
      let size : unpack_num fmt.mode 2 (y ∷ z ∷ []) ≡ length bytes =
        ap (λ k. unpack_num fmt.mode 2 (k ∷ z ∷ [])) (sym hy)
        ∙ ap (λ k. unpack_num fmt.mode 2 (f.lo ∷ k ∷ [])) (sym hz)
        ∙ f.size_is [] in
      let total = length-pack fmt bytes (length bytes) (omega arith) in
      read_loop_part P fmt v x y z (w ∷ cs) e fuel out hx (omega arith)
        (rw size (omega (arith, total, ap length split, length-append cs (m ∷ more))))

  -- If a valid buffer of any kind holds a part, but not all, of the frame that `pack` makes of
  -- fewer than 65532 bytes, from its first byte on, then `readFromBuffer` returns -1 and leaves
  -- the packet and the buffer as they were.
  pub read_from_buffer_part :
      (bytes more : Bytes) (out : Packet) {b : Buffer}
      → length bytes < 65532
      → IsValid b
      → more ≢ []
      → (pack fmt bytes (length bytes)).buffer ≡ contents b ++ more
      → read_from_buffer P fmt b out ≡ some (failed, out, b)
  unfolding read_from_buffer
  read_from_buffer_part bytes more out {b} h v ne split =
      part (read_size b) out bytes more (contents b) h v refl ne split
