-- ===== src/Packet/Num.antt =====
-- uv/include/Packet.hpp: `PackNum` and `UnpackNum`.
use native.Mathlib.Nat.{pow-suc, mod-eq_of_lt}
use uv_cpp.Prelude.{
  ℕ, zero, suc, ◌+◌, ◌*◌, ◌/◌, ◌%◌, ◌^◌, ◌≤◌, ◌<◌, ◌≡◌, refl, ap, ◌∙◌, Bytes, [], ◌∷◌, length,
  arith, take-append, sym, ◌++◌,
}
use uv_cpp.Packet.{
  DataMode, big_endian, little_endian, pack_little, pack_big, pack_num, unpack_big, unpack_little,
  unpack_num,
}

length-pack_little : (size num : ℕ) → length (pack_little size num) ≡ size
unfolding pack_little
length-pack_little zero num = refl
length-pack_little (suc size) num = ap suc (length-pack_little size (num / 256))

length-pack_big :
    (size num : ℕ) (written : Bytes) → length (pack_big size num written) ≡ size + length written
unfolding pack_big
length-pack_big zero num written = omega arith
length-pack_big (suc size) num written =
    omega (arith, length-pack_big size (num / 256) (num % 256 ∷ written))

pub length-pack_num : (mode : DataMode) (size num : ℕ) → length (pack_num mode size num) ≡ size
unfolding pack_num
length-pack_num big_endian size num = omega (arith, length-pack_big size num [])
length-pack_num little_endian size num = length-pack_little size num

-- One round of either loop: nothing is shifted out.
round :
    (width size num : ℕ)
    → num < 256 ^ suc size
    → 256 ^ suc size ≤ width
    → (num / 256 < 256 ^ size) × (256 ^ size ≤ width) × (num / 256 * 256 % width + num % 256 ≡ num)
round width size num h le =
    let e : 256 ^ suc size ≡ 256 ^ size * 256 = pow-suc 256 size in
    let m : num / 256 * 256 % width ≡ num / 256 * 256 = mod-eq_of_lt (omega (arith, e)) in
    (omega (arith, e), omega (arith, e), omega (arith, m))

unpack_little-pack_little :
    (width size num : ℕ)
    → num < 256 ^ size
    → 256 ^ size ≤ width
    → unpack_little width (pack_little size num) ≡ num
unfolding unpack_little pack_little
unpack_little-pack_little width zero num h le = omega arith
unpack_little-pack_little width (suc size) num h le =
    let (a, b, e) = round width size num h le in
    rw (unpack_little-pack_little width size (num / 256) a b) e

unpack_big-pack_big :
    (width size num : ℕ) (written : Bytes)
    → num < 256 ^ size
    → 256 ^ size ≤ width
    → unpack_big width (pack_big size num written) 0 ≡ unpack_big width written num
unfolding unpack_big pack_big
unpack_big-pack_big width zero num written h le =
    let e : 0 ≡ num = omega arith in ap (unpack_big width written) e
unpack_big-pack_big width (suc size) num written h le =
    let (a, b, e) = round width size num h le in
    unpack_big-pack_big width size (num / 256) (num % 256 ∷ written) a b
    ∙ ap (unpack_big width written) e

-- In both byte orders and for any width, a number that fits in that many bytes is read back by
-- `UnpackNum` from what `PackNum` writes, whatever stands behind it.
pub unpack_num-pack_num :
    (mode : DataMode) (size num : ℕ) (rest : Bytes)
    → num < 256 ^ size
    → unpack_num mode size (pack_num mode size num ++ rest) ≡ num
unfolding unpack_num pack_num
unpack_num-pack_num big_endian size num rest h =
    rw
      (take-append size (pack_num big_endian size num) rest
        (sym (length-pack_num big_endian size num)))
      (unpack_big-pack_big (256 ^ size) size num [] h (omega arith))
unpack_num-pack_num little_endian size num rest h =
    rw
      (take-append size (pack_num little_endian size num) rest
        (sym (length-pack_num little_endian size num)))
      (unpack_little-pack_little (256 ^ size) size num h (omega arith))

-- The two bytes of a `uint16_t`, and what they are read back as.
pub pack_num_two :
    (mode : DataMode) (num : ℕ)
    → num < 2 ^ 16
    → (x y : ℕ) × (pack_num mode 2 num ≡ x ∷ y ∷ [])
      × ((rest : Bytes) → unpack_num mode 2 (x ∷ y ∷ rest) ≡ num)
pack_num_two mode num h = two (pack_num mode 2 num) (length-pack_num mode 2 num) refl
  where
    two :
        (xs : Bytes)
        → length xs ≡ 2
        → pack_num mode 2 num ≡ xs
        → (x y : ℕ) × (pack_num mode 2 num ≡ x ∷ y ∷ [])
          × ((rest : Bytes) → unpack_num mode 2 (x ∷ y ∷ rest) ≡ num)
    two [] l e = absurd (omega arith)
    two (x ∷ []) l e = absurd (omega arith)
    two (x ∷ y ∷ []) l e = (x, y, e, λ rest. rw e at (unpack_num-pack_num mode 2 num rest h))
    two (x ∷ y ∷ z ∷ xs) l e = absurd (omega arith)
