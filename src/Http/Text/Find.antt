-- ===== src/Http/Text/Find.antt =====
-- Where a search succeeds, and where it goes on.
use uv_cpp.Prelude.{
  ℕ, zero, suc, ◌+◌, ◌≤◌, ◌<◌, ◌≡◌, ◌≢◌, ◌↔◌, refl, ap, sym, ◌∙◌, Bytes, [], ◌∷◌, ◌++◌, length,
  take, drop, true, none, some, arith, drop-append, drop-drop, take-append, Lacks, length-drop,
  length-take,
}
use uv_cpp.Http.Text.{starts_with, index_of, find, sub, equal, blank_line}

pub equal_iff : (a b : Bytes) → (equal a b ≡ true) ↔ (a ≡ b)
unfolding equal
equal_iff [] [] = ground arith
equal_iff [] (y ∷ b) = ground arith
equal_iff (x ∷ a) [] = ground arith
equal_iff (x ∷ a) (y ∷ b) = ground (arith, equal_iff a b)

pub starts_with-append : (pat s : Bytes) → starts_with pat (pat ++ s) ≡ true
unfolding starts_with
starts_with-append [] s = refl
starts_with-append (c ∷ pat) s = ground (arith, starts_with-append pat s)

-- Text without the first byte of the pattern is passed over.
pub index_of-append :
    (c : ℕ) (pat xs s : Bytes) (pos q : ℕ)
    → Lacks c xs
    → q ≡ pos + length xs
    → index_of (c ∷ pat) (xs ++ s) pos ≡ index_of (c ∷ pat) s q
unfolding index_of starts_with
index_of-append c pat [] s pos q h e =
    let e' : pos ≡ q = omega arith in ap (index_of (c ∷ pat) s) e'
index_of-append c pat (x ∷ xs) s pos q h e =
    ground (arith, index_of-append c pat xs s (pos + 1) q h.1)

pub index_of-here :
    (c : ℕ) (pat s : Bytes) (pos : ℕ) → index_of (c ∷ pat) (c ∷ (pat ++ s)) pos ≡ some pos
unfolding index_of starts_with
index_of-here c pat s pos = ground (arith, starts_with-append pat s)

pub index_of-none :
    (c : ℕ) (pat xs : Bytes) (pos : ℕ) → Lacks c xs → index_of (c ∷ pat) xs pos ≡ none
unfolding index_of starts_with
index_of-none c pat [] pos h = refl
index_of-none c pat (x ∷ xs) pos h = ground (arith, index_of-none c pat xs (pos + 1) h.1)

-- The first occurrence stands behind text that lacks the first byte of the pattern.
pub find-append :
    (c : ℕ) (pat s xs rest : Bytes) (pos q : ℕ)
    → drop pos s ≡ xs ++ (c ∷ (pat ++ rest))
    → Lacks c xs
    → q ≡ pos + length xs
    → find (c ∷ pat) s pos ≡ some q
unfolding find
find-append c pat s xs rest pos q e h eq =
    rw e (index_of-append c pat xs (c ∷ (pat ++ rest)) pos q h eq ∙ index_of-here c pat rest q)

pub find-none :
    (c : ℕ) (pat s : Bytes) (pos : ℕ) → Lacks c (drop pos s) → find (c ∷ pat) s pos ≡ none
unfolding find
find-none c pat s pos h = index_of-none c pat (drop pos s) pos h

-- A position that is found lies at or behind the start, and the pattern stands inside the text.
pub index_of_bounds :
    (c : ℕ) (pat s : Bytes) (pos p : ℕ)
    → index_of (c ∷ pat) s pos ≡ some p
    → (pos ≤ p) × (p < pos + length s)
unfolding index_of starts_with
index_of_bounds c pat [] pos p h = cc
index_of_bounds c pat (x ∷ s) pos p h = ground (arith, index_of_bounds c pat s (pos + 1) p)

pub find_bounds :
    (c : ℕ) (pat s : Bytes) (pos p : ℕ) → find (c ∷ pat) s pos ≡ some p → (pos ≤ p) × (p < length s)
unfolding find
find_bounds c pat s pos p h =
    omega (arith, index_of_bounds c pat (drop pos s) pos p h, length-drop pos s)

starts_with-take :
    (pat s : Bytes) (k : ℕ)
    → starts_with pat (take k s) ≡ true
    → (starts_with pat s ≡ true) × (length pat ≤ k)
unfolding starts_with
starts_with-take [] s k h = (refl, omega arith)
starts_with-take (c ∷ pat) [] zero h = cc
starts_with-take (c ∷ pat) [] (suc k) h = cc
starts_with-take (c ∷ pat) (x ∷ s) zero h = cc
starts_with-take (c ∷ pat) (x ∷ s) (suc k) h = ground (arith, starts_with-take pat s k)

starts_with-le : (pat s : Bytes) → starts_with pat s ≡ true → length pat ≤ length s
unfolding starts_with
starts_with-le [] s h = omega arith
starts_with-le (c ∷ pat) [] h = cc
starts_with-le (c ∷ pat) (x ∷ s) h = ground (arith, starts_with-le pat s)

index_of-short :
    (c : ℕ) (pat s : Bytes) (pos : ℕ) → length s ≤ length pat → index_of (c ∷ pat) s pos ≡ none
unfolding index_of
index_of-short c pat [] pos h = unfold starts_with in refl
index_of-short c pat (x ∷ s) pos h =
    ground (arith, starts_with-le (c ∷ pat) (x ∷ s), index_of-short c pat s (pos + 1))

-- Text that is cut off before the end of the first occurrence has none.
pub index_of-take :
    (c : ℕ) (pat s : Bytes) (pos p k : ℕ)
    → index_of (c ∷ pat) s pos ≡ some p
    → pos + k ≤ p + length pat
    → index_of (c ∷ pat) (take k s) pos ≡ none
unfolding index_of
index_of-take c pat s pos p zero h lt = unfold starts_with in refl
index_of-take c pat [] pos p (suc k) h lt = unfold starts_with in refl
index_of-take c pat (x ∷ s) pos p (suc k) h lt = ground (
  arith,
  starts_with-take (c ∷ pat) (x ∷ s) (suc k),
  index_of-take c pat s (pos + 1) p k,
  index_of-short c pat (take k s) (pos + 1),
  length-take k s,
)

-- The part of a text that begins at a known position, and what stands behind it.
pub sub-append :
    (str word rest : Bytes) (start n : ℕ)
    → drop start str ≡ word ++ rest
    → n ≡ length word
    → sub str start n ≡ word
sub-append str word rest start n e l = ap (take n) e ∙ take-append n word rest l

pub drop_next :
    (str word rest : Bytes) (start q : ℕ)
    → drop start str ≡ word ++ rest
    → q ≡ start + length word
    → drop q str ≡ rest
drop_next str word rest start q e l =
    sym (drop-drop start (length word) q str l)
    ∙ (ap (drop (length word)) e ∙ drop-append (length word) word rest refl)

-- A CRLF that another byte than CR follows is no blank line.
pub index_of_crlf :
    (x : ℕ) (s : Bytes) (pos q : ℕ)
    → x ≢ b'\r'
    → q ≡ pos + 2
    → index_of blank_line (b'\r' ∷ b'\n' ∷ x ∷ s) pos ≡ index_of blank_line (x ∷ s) q
unfolding index_of starts_with
index_of_crlf x s pos q ne e = let e' : q ≡ pos + 1 + 1 = omega arith in rw e' (ground arith)

pub find_zero : (pat s : Bytes) → find pat s 0 ≡ index_of pat s 0
unfolding find
find_zero pat s = refl
