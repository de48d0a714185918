-- ===== src/Packet/Frame.antt =====
-- uv/Packet.cpp: the shape of a packed frame, byte by byte, and the accessors on it.
use uv_cpp.Prelude.{
  ℕ, ◌+◌, ◌^◌, ◌≤◌, ◌<◌, ◌≡◌, refl, ap, Bytes, [], ◌∷◌, ◌++◌, length, take, arith, length-append,
  length-take, take_all, take-append,
}
use uv_cpp.Packet.{
  Format, Packet, pack, pack_num, get_data, swap, packet_min_size, unpack_num, last_or,
}
use uv_cpp.Packet.Num.{length-pack_num, pack_num_two}

-- A frame of a `uint16_t` size is the head byte, two bytes that are read back as the size, the
-- data and the end byte.
pub record HasFrame (fmt : Format) (bytes frame : Bytes) : Type 0 where
  pub lo : ℕ
  pub hi : ℕ
  pub layout : frame ≡ fmt.head_byte ∷ lo ∷ hi ∷ (bytes ++ fmt.end_byte ∷ [])
  pub size_is : (rest : Bytes) → unpack_num fmt.mode 2 (lo ∷ hi ∷ rest) ≡ length bytes

pub pack-HasFrame :
    (fmt : Format) (bytes : Bytes)
    → length bytes < 2 ^ 16
    → HasFrame fmt bytes (pack fmt bytes (length bytes)).buffer
unfolding pack
pack-HasFrame fmt bytes h =
    let (x, y, e, u) = pack_num_two fmt.mode (length bytes) h in
    record {
      lo = x;
      hi = y;
      layout =
          rw (take_all (length bytes) bytes (omega arith))
            (ap (λ t. fmt.head_byte ∷ (t ++ (bytes ++ fmt.end_byte ∷ []))) e);
      size_is = u;
    }

pub length-pack :
    (fmt : Format) (bytes : Bytes) (size : ℕ)
    → size ≤ length bytes
    → length (pack fmt bytes size).buffer ≡ size + 4
unfolding pack
length-pack fmt bytes size h = omega (
  arith,
  length-append (pack_num fmt.mode 2 size) (take size bytes ++ fmt.end_byte ∷ []),
  length-pack_num fmt.mode 2 size,
  length-append (take size bytes) (fmt.end_byte ∷ []),
  length-take size bytes,
)

-- `getData` of a packed packet points at the data.
pub get_data-pack :
    (fmt : Format) (bytes : Bytes)
    → length bytes < 2 ^ 16
    → take (length bytes) (get_data (pack fmt bytes (length bytes))) ≡ bytes
unfolding get_data
get_data-pack fmt bytes h =
    let f = pack-HasFrame fmt bytes h in
    rw f.layout (take-append (length bytes) bytes (fmt.end_byte ∷ []) refl)

-- Taking over the bytes of a packed packet gives that packet.
pub swap-pack :
    (fmt : Format) (bytes : Bytes) (out : Packet)
    → length bytes < 2 ^ 16
    → (swap out (pack fmt bytes (length bytes)).buffer).0 ≡ pack fmt bytes (length bytes)
unfolding swap
swap-pack fmt bytes out h =
    let l = length-pack fmt bytes (length bytes) (omega arith) in
    rw l (unfold pack packet_min_size in ground arith)

pub last_or-concat : (xs : Bytes) (x d : ℕ) → last_or (xs ++ x ∷ []) d ≡ x
last_or-concat [] x d = refl
last_or-concat (y ∷ xs) x d = last_or-concat xs x y
