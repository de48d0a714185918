-- ===== src/Buffer/Cycle/Array.antt =====
-- uv/CycleBuffer.cpp: `std::copy` into and out of the array. In the model a write out of bounds is
-- ignored and a read out of bounds gives 0.
use uv_cpp.Prelude.{
  ℕ, zero, suc, ◌+◌, ◌≤◌, ◌<◌, ◌≡◌, ◌⊎◌, refl, ap, ◌∙◌, Bytes, [], ◌∷◌, length, get_or, set, arith,
  length-set, get_or-set_self, get_or-set_ne,
}

-- `std::copy(src, src + n, dst + i)`
pub copy : Bytes → ℕ → Bytes → Bytes
copy [] i dst = dst
copy (x ∷ xs) i dst = copy xs (i + 1) (set dst i x)

-- the bytes `src[i..i+n)`
unfoldable pub range : Bytes → ℕ → ℕ → Bytes
range src i zero = []
range src i (suc n) = get_or src i 0 ∷ range src (i + 1) n

pub length-copy : (xs : Bytes) (i : ℕ) (dst : Bytes) → length (copy xs i dst) ≡ length dst
unfolding copy
length-copy [] i dst = refl
length-copy (x ∷ xs) i dst = length-copy xs (i + 1) (set dst i x) ∙ length-set dst i x

pub length-range : (src : Bytes) (i n : ℕ) → length (range src i n) ≡ n
unfolding range
length-range src i zero = refl
length-range src i (suc n) = ap suc (length-range src (i + 1) n)

pub get_or-range :
    (src : Bytes) (i n k j : ℕ) → k < n → j ≡ i + k → get_or (range src i n) k 0 ≡ get_or src j 0
unfolding range
get_or-range src i zero k j h e = absurd (omega arith)
get_or-range src i (suc n) zero j h e = let e' : i ≡ j = omega arith in ap (λ m. get_or src m 0) e'
get_or-range src i (suc n) (suc k) j h e =
    get_or-range src (i + 1) n k j (omega arith) (omega arith)

-- A copy leaves what lies before and behind it.
pub get_or-copy_out :
    (xs : Bytes) (i : ℕ) (dst : Bytes) (j : ℕ)
    → (j < i) ⊎ (i + length xs ≤ j)
    → get_or (copy xs i dst) j 0 ≡ get_or dst j 0
unfolding copy
get_or-copy_out [] i dst j h = refl
get_or-copy_out (x ∷ xs) i dst j h =
    get_or-copy_out xs (i + 1) (set dst i x) j (ground arith)
    ∙ get_or-set_ne dst i j x 0 (omega arith)

pub get_or-copy_in :
    (xs : Bytes) (i : ℕ) (dst : Bytes) (j k : ℕ)
    → i + length xs ≤ length dst
    → k < length xs
    → j ≡ i + k
    → get_or (copy xs i dst) j 0 ≡ get_or xs k 0
unfolding copy
get_or-copy_in [] i dst j k fits h e = absurd (omega arith)
get_or-copy_in (x ∷ xs) i dst j zero fits h e =
    get_or-copy_out xs (i + 1) (set dst i x) j (ground arith)
    ∙ (let e' : j ≡ i = omega arith in
        ap (λ m. get_or (set dst i x) m 0) e' ∙ get_or-set_self dst i x 0 (omega arith))
get_or-copy_in (x ∷ xs) i dst j (suc k) fits h e =
    get_or-copy_in xs (i + 1) (set dst i x) j k (omega (arith, length-set dst i x)) (omega arith)
      (omega arith)
