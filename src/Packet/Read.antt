-- ===== src/Packet/Read.antt =====
-- uv/Packet.cpp: one round of the loop of `readFromBuffer`, and its fuel.
use uv_cpp.Prelude.{
  ℕ, suc, ◌+◌, ◌-◌, ◌%◌, ◌^◌, ◌≤◌, ◌<◌, ◌≡◌, ◌≢◌, refl, ap, sym, ◌∙◌, Bytes, [], ◌∷◌, ◌++◌, length,
  some, ok, failed, arith, length-append, length-drop, append_assoc, take-append, drop-append,
}
use uv_cpp.Buffer.Interface.{PacketBuffer}
use uv_cpp.Packet.{Format, Packet, swap, packet_min_size, unpack_num, read_loop}
use uv_cpp.Packet.Frame.{last_or-concat}

module _ (P : PacketBuffer) (fmt : Format) where
  open P use {
    Buffer, IsValid, contents, read_buffer_n, clear_buffer_n, read_size, read_size-contents,
    read_buffer_n_ok, contents-clear_buffer_n, clear_buffer_n-IsValid,
  }

  -- What a removal of `n` bytes leaves to be read.
  pub read_size-clear_buffer_n :
      {b : Buffer} (n : ℕ) → IsValid b → read_size (clear_buffer_n b n).1 ≡ read_size b - n
  read_size-clear_buffer_n {b} n v = omega (
    arith,
    read_size-contents v,
    read_size-contents (clear_buffer_n-IsValid n v),
    ap length (contents-clear_buffer_n n v),
    length-drop n (contents b),
  )

  -- With fewer than four bytes there is nothing to do.
  pub read_loop_short :
      (fuel : ℕ) (bytes : Bytes) {b : Buffer} (out : Packet)
      → IsValid b
      → length (contents b) < 4
      → read_loop P fmt (suc fuel) bytes b out ≡ some (failed, out, b)
  unfolding read_loop packet_min_size
  read_loop_short fuel bytes {b} out v h = ground (arith, read_size-contents v)

  module _ {b : Buffer} (v : IsValid b) (x y z : ℕ) (tail : Bytes)
      (holds : contents b ≡ x ∷ y ∷ z ∷ tail) where
    pub header_is : (bytes : Bytes) → (read_buffer_n b bytes 3).1 ≡ bytes ++ x ∷ y ∷ z ∷ []
    header_is bytes = ap (λ r. r.1) (read_buffer_n_ok bytes 3 v (rw holds (omega arith))) ∙ rw holds

    pub size_is : read_size b ≡ 3 + length tail
    size_is = omega (arith, read_size-contents v, ap length holds)

    pub rest_is : contents (clear_buffer_n b 3).1 ≡ tail
    rest_is = contents-clear_buffer_n 3 v ∙ rw holds

    -- A byte that is no head byte is dropped, and the search starts again behind it.
    pub read_loop_skip :
        (fuel : ℕ) (out : Packet)
        → x ≢ fmt.head_byte
        → 0 < length tail
        → read_loop P fmt (suc fuel) [] b out ≡ read_loop P fmt fuel [] (clear_buffer_n b 1).1 out
    unfolding read_loop packet_min_size
    read_loop_skip fuel out ne h = ground (arith, header_is [], size_is)

    -- A head byte whose frame is not all there leaves the buffer as it is.
    pub read_loop_part :
        (fuel : ℕ) (out : Packet)
        → x ≡ fmt.head_byte
        → 0 < length tail
        → 3 + length tail < (unpack_num fmt.mode 2 (y ∷ z ∷ []) + 4) % 2 ^ 16
        → read_loop P fmt (suc fuel) [] b out ≡ some (failed, out, b)
    unfolding read_loop packet_min_size
    read_loop_part fuel out e h part = rw (header_is []) (ground (arith, size_is))

    frame_is :
        (bytes rest : Bytes) (n : ℕ)
        → tail ≡ bytes ++ (fmt.end_byte ∷ rest)
        → n ≡ length bytes + 1
        → ((read_buffer_n (clear_buffer_n b 3).1 (x ∷ y ∷ z ∷ []) n).1
            ≡ x ∷ y ∷ z ∷ (bytes ++ fmt.end_byte ∷ []))
          × (contents (clear_buffer_n (clear_buffer_n b 3).1 n).1 ≡ rest)
    frame_is bytes rest n t e =
        let v' = clear_buffer_n-IsValid 3 v in
        let whole = bytes ++ fmt.end_byte ∷ [] in
        let l : n ≡ length whole = omega (arith, length-append bytes (fmt.end_byte ∷ [])) in
        let c : contents (clear_buffer_n b 3).1 ≡ whole ++ rest =
          rest_is ∙ t ∙ sym (append_assoc bytes (fmt.end_byte ∷ []) rest) in
        let enough : n ≤ length (contents (clear_buffer_n b 3).1) =
          omega (arith, ap length c, length-append whole rest) in
        (
          ap (λ r. r.1) (read_buffer_n_ok (x ∷ y ∷ z ∷ []) n v' enough)
              ∙ rw c (ap (λ r. x ∷ y ∷ z ∷ r) (take-append n whole rest l)),
          contents-clear_buffer_n n v' ∙ rw c (drop-append n whole rest l),
        )

    -- A whole frame is taken.
    pub read_loop_frame :
        (fuel : ℕ) (out : Packet) (bytes rest : Bytes)
        → x ≡ fmt.head_byte
        → unpack_num fmt.mode 2 (y ∷ z ∷ []) ≡ length bytes
        → tail ≡ bytes ++ (fmt.end_byte ∷ rest)
        → length bytes < 65532
        → (read_loop P fmt (suc fuel) [] b out
            ≡ some (
              ok,
              (swap out (x ∷ y ∷ z ∷ (bytes ++ fmt.end_byte ∷ []))).0,
              (clear_buffer_n (clear_buffer_n b 3).1 (length bytes + 1)).1,
            ))
          × (contents (clear_buffer_n (clear_buffer_n b 3).1 (length bytes + 1)).1 ≡ rest)
    unfolding read_loop packet_min_size
    read_loop_frame fuel out bytes rest e u t h =
        let (f, r) = frame_is bytes rest (length bytes + 1) t refl in
        let l = last_or-concat bytes fmt.end_byte z in
        (
          rw (header_is []) (
              rw (u, f)
                (ground
                  (arith, size_is, ap length t, length-append bytes (fmt.end_byte ∷ rest), l))),
          r,
        )
