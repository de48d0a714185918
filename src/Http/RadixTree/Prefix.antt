-- ===== src/Http/RadixTree/Prefix.antt =====
-- The length of the common front of two texts.
use uv_cpp.Prelude.{
  ℕ, zero, suc, ◌-◌, ◌≤◌, ◌≡◌, ◌≢◌, refl, ap, false, true, Bytes, [], ◌∷◌, length, take, drop, min,
  arith,
}
use uv_cpp.Http.Text.{equal}
use uv_cpp.Http.Text.Find.{equal_iff}
use uv_cpp.Http.Common.{get_common_string_length}

abbrev pub common : Bytes → Bytes → ℕ
common a b = get_common_string_length a b

pub common-le : (a b : Bytes) → (common a b ≤ length a) × (common a b ≤ length b)
unfolding get_common_string_length
common-le [] b = (omega arith, omega arith)
common-le (x ∷ a) [] = (omega arith, omega arith)
common-le (x ∷ a) (y ∷ b) = ground (arith, common-le a b)

pub common-take : (m : ℕ) (a b : Bytes) → common (take m a) b ≡ min m (common a b)
unfolding get_common_string_length
common-take zero a b = omega arith
common-take (suc m) [] b = omega arith
common-take (suc m) (x ∷ a) [] = omega arith
common-take (suc m) (x ∷ a) (y ∷ b) = ground (arith, common-take m a b)

pub common-drop :
    (m : ℕ) (a b : Bytes) → m ≤ common a b → common (drop m a) (drop m b) ≡ common a b - m
unfolding get_common_string_length
common-drop zero a b h = omega arith
common-drop (suc m) [] b h = absurd (omega arith)
common-drop (suc m) (x ∷ a) [] h = absurd (omega arith)
common-drop (suc m) (x ∷ a) (y ∷ b) h = ground (arith, common-drop m a b)

-- Texts that share a front with a third are equal if what follows is.
pub equal-drop :
    (m : ℕ) (k a b : Bytes)
    → m ≤ common k a
    → m ≤ common k b
    → equal a b ≡ equal (drop m a) (drop m b)
unfolding get_common_string_length equal
equal-drop zero k a b h j = refl
equal-drop (suc m) [] a b h j = absurd (omega arith)
equal-drop (suc m) (x ∷ k) [] b h j = absurd (omega arith)
equal-drop (suc m) (x ∷ k) (y ∷ a) [] h j = absurd (omega arith)
equal-drop (suc m) (x ∷ k) (y ∷ a) (z ∷ b) h j = ground (arith, equal-drop m k a b)

-- Texts with fronts of other lengths in common with a third are not equal.
pub equal-false : (k a b : Bytes) → common k a ≢ common k b → equal a b ≡ false
equal-false k a b h = ground (arith, equal_iff a b, λ (e : a ≡ b). h (ap (common k) e))

pub equal-length : (a b : Bytes) → length a ≢ length b → equal a b ≡ false
equal-length a b h = ground (arith, equal_iff a b, λ (e : a ≡ b). h (ap length e))

-- A common front of full length is all of both.
pub common_whole : (k a : Bytes) → common k a ≡ length k → length a ≡ length k → k ≡ a
unfolding get_common_string_length
common_whole [] [] h l = refl
common_whole [] (y ∷ a) h l = absurd (omega arith)
common_whole (x ∷ k) [] h l = absurd (omega arith)
common_whole (x ∷ k) (y ∷ a) h l = ground (arith, common_whole k a)

pub equal-common :
    (a b : Bytes) → equal a b ≡ true → (common a b ≡ length a) × (length b ≡ length a)
unfolding get_common_string_length equal
equal-common [] [] h = (refl, refl)
equal-common [] (y ∷ b) h = cc
equal-common (x ∷ a) [] h = cc
equal-common (x ∷ a) (y ∷ b) h = ground (arith, equal-common a b)

pub common-equal : (k a : Bytes) → common k a ≡ length k → length a ≡ length k → equal k a ≡ true
common-equal k a h l = (equal_iff k a).1 (common_whole k a h l)
