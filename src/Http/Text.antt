-- ===== src/Http/Text.antt =====
-- What the source uses of `std::string`: search and substrings. A position is an index, and `none`
-- is `npos`.
pub mod Find
use uv_cpp.Prelude.{
  ℕ, ◌+◌, ◌-◌, Bool, true, false, ◌&&◌, Bytes, [], ◌∷◌, take, drop, ◌==◌, if◌then◌else◌, Option,
  none, some,
}

unfoldable pub starts_with : Bytes → Bytes → Bool
starts_with [] s = true
starts_with (c ∷ pat) [] = false
starts_with (c ∷ pat) (x ∷ s) = (x == c) && starts_with pat s

-- The first occurrence in a text that begins at position `pos`.
unfoldable pub index_of : Bytes → Bytes → ℕ → Option ℕ
index_of pat [] pos = if starts_with pat [] then some pos else none
index_of pat (x ∷ s) pos = if starts_with pat (x ∷ s) then some pos else index_of pat s (pos + 1)

-- `s.find(pat, pos)`
unfoldable pub find : Bytes → Bytes → ℕ → Option ℕ
find pat s pos = index_of pat (drop pos s) pos

-- `std::string(s, pos, n)`, with `pos` inside the text or at its end
abbrev pub sub : Bytes → ℕ → ℕ → Bytes
sub s pos n = take n (drop pos s)

unfoldable pub equal : Bytes → Bytes → Bool
equal [] [] = true
equal [] (y ∷ b) = false
equal (x ∷ a) [] = false
equal (x ∷ a) (y ∷ b) = (x == y) && equal a b

abbrev pub crlf : Bytes
crlf = b'\r' ∷ b'\n' ∷ []

abbrev pub blank_line : Bytes
blank_line = b'\r' ∷ b'\n' ∷ b'\r' ∷ b'\n' ∷ []
