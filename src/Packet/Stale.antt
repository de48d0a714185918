-- ===== src/Packet/Stale.antt =====
-- uv/Packet.cpp: `readFromBuffer` after a frame with a wrong end byte.
use uv_cpp.Prelude.{
  ℕ, suc, ◌≡◌, ◌≢◌, refl, ap, ◌∙◌, Bytes, [], ◌∷◌, ◌++◌, length, drop, some, failed, arith,
}
use uv_cpp.Buffer.Interface.{PacketBuffer}
use uv_cpp.Packet.{
  Packet, default_format, pack, unpack_num, read_loop, read_from_buffer, packet_min_size,
}
use uv_cpp.Packet.Frame.{last_or-concat}
use uv_cpp.Packet.Read.{header_is, size_is, rest_is, read_loop_short}

module _ (P : PacketBuffer) where
  open P use {
    Buffer, IsValid, contents, read_buffer_n, clear_buffer_n, read_size, read_size-contents,
    read_buffer_n_ok, contents-clear_buffer_n, clear_buffer_n-IsValid,
  }

  -- A round whose header says that there is no data, and whose end byte is wrong.
  retry :
      {b : Buffer} (fuel : ℕ) (bytes header : Bytes) (out : Packet) (x y z t : ℕ) (tail : Bytes)
      → IsValid b
      → contents b ≡ x ∷ y ∷ z ∷ t ∷ tail
      → bytes ++ x ∷ y ∷ z ∷ [] ≡ 0x7e ∷ 0 ∷ 0 ∷ header
      → t ≢ 0xe7
      → read_loop P default_format (suc fuel) bytes b out
        ≡ read_loop P default_format fuel
            (0x7e ∷ 0 ∷ 0 ∷ (header ++ t ∷ []))
            (clear_buffer_n b 3).1
            out
  unfolding read_loop packet_min_size unpack_num
  retry {b} fuel bytes header out x y z t tail v e h ne =
      let v' = clear_buffer_n-IsValid 3 v in
      let head = header_is P default_format v x y z (t ∷ tail) e bytes ∙ h in
      let size = size_is P default_format v x y z (t ∷ tail) e in
      let rest = rest_is P default_format v x y z (t ∷ tail) e in
      let frame : (read_buffer_n (clear_buffer_n b 3).1 (0x7e ∷ 0 ∷ 0 ∷ header) 1).1
          ≡ 0x7e ∷ 0 ∷ 0 ∷ (header ++ t ∷ []) =
        ap (λ r. r.1) (read_buffer_n_ok (0x7e ∷ 0 ∷ 0 ∷ header) 1 v' (rw rest (omega arith)))
        ∙ rw rest in
      rw head (rw frame (ground (arith, size, last_or-concat header t 0)))

  -- If a valid buffer of any kind holds a frame without data and with a wrong end byte, and then a
  -- good frame of one byte, `readFromBuffer` (with the default head byte, end byte and byte order)
  -- returns -1 and leaves the packet, and the buffer has only the last three bytes of the good
  -- frame.
  pub read_from_buffer_stale :
      {b : Buffer} (bad c : ℕ) (out : Packet)
      → IsValid b
      → contents b ≡ 0x7e ∷ 0 ∷ 0 ∷ bad ∷ (pack default_format (c ∷ []) 1).buffer
      → bad ≢ 0xe7
      → (b' : Buffer) × (read_from_buffer P default_format b out ≡ some (failed, out, b'))
        × (contents b' ≡ 0 ∷ c ∷ 0xe7 ∷ [])
  unfolding read_from_buffer pack
  read_from_buffer_stale {b} bad c out v e ne =
      let b1 = (clear_buffer_n b 3).1 in
      let b2 = (clear_buffer_n b1 3).1 in
      let v1 = clear_buffer_n-IsValid 3 v in
      let v2 = clear_buffer_n-IsValid 3 v1 in
      let e1 : contents b1 ≡ bad ∷ 0x7e ∷ 1 ∷ 0 ∷ c ∷ 0xe7 ∷ [] =
        contents-clear_buffer_n 3 v ∙ ap (drop 3) e in
      let e2 : contents b2 ≡ 0 ∷ c ∷ 0xe7 ∷ [] = contents-clear_buffer_n 3 v1 ∙ ap (drop 3) e1 in
      let size : read_size b ≡ 9 = omega (arith, read_size-contents v, ap length e) in
      (
        b2,
        rw size (
            retry 9 [] [] out 0x7e 0 0 bad (0x7e ∷ 1 ∷ 0 ∷ c ∷ 0xe7 ∷ []) v e refl ne
            ∙ (retry 8 (0x7e ∷ 0 ∷ 0 ∷ bad ∷ []) (bad ∷ bad ∷ 0x7e ∷ 1 ∷ []) out bad 0x7e 1 0
                  (c ∷ 0xe7 ∷ []) v1 e1 refl (omega arith)
                ∙ read_loop_short P default_format 7 _ out v2 (rw e2 (omega arith)))),
        e2,
      )
