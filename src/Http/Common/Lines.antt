-- ===== src/Http/Common/Lines.antt =====
-- The head of a message: lines that end in CRLF, and a blank line.
use uv_cpp.Prelude.{
  ℕ, zero, suc, ◌+◌, ◌-◌, ◌==◌, ◌<◌, ◌≡◌, ◌≢◌, true, false, refl, ap, sym, ◌∙◌, Bytes, List, [],
  ◌∷◌, ◌++◌, length, drop, some, arith, append_assoc, append-nil, drop-append, Lacks, length-append,
  All, lt→ltb, ge→ltb, ltb,
}
use uv_cpp.Http.Text.{index_of, find, crlf, blank_line}
use uv_cpp.Http.Text.Find.{
  index_of-append, index_of-here, index_of_crlf, find_zero, find-append, sub-append, drop_next,
}
use uv_cpp.Http.Common.{split_lines, split_http_of_crlf}

-- A line that the source can tell from a blank one.
abbrev pub IsLine : Bytes → Type 0
IsLine l = Lacks b'\r' l × (l ≢ [])

-- Each line behind a CRLF, and then `tail`.
abbrev pub with_lines : List Bytes → Bytes → Bytes
with_lines [] tail = tail
with_lines (l ∷ ls) tail = b'\r' ∷ b'\n' ∷ (l ++ with_lines ls tail)

-- The blank line is found behind the last line.
index_of-with_lines :
    (ls : List Bytes) (body : Bytes) (pos q : ℕ)
    → All IsLine ls
    → q ≡ pos + length (with_lines ls [])
    → index_of blank_line (with_lines ls (blank_line ++ body)) pos ≡ some q
index_of-with_lines [] body pos q h e =
    let e' : q ≡ pos = omega arith in
    rw e' (index_of-here b'\r' (b'\n' ∷ b'\r' ∷ b'\n' ∷ []) body pos)
index_of-with_lines ([] ∷ ls) body pos q h e = absurd (h.0.1 refl)
index_of-with_lines ((x ∷ l) ∷ ls) body pos q h e =
    let r = pos + 2 + length (x ∷ l) in
    let rest = with_lines ls (blank_line ++ body) in
    index_of_crlf x (l ++ rest) pos (pos + 2) h.0.0.0 refl
    ∙ index_of-append b'\r' (b'\n' ∷ b'\r' ∷ b'\n' ∷ []) (x ∷ l) rest (pos + 2) r h.0.0 refl
    ∙ index_of-with_lines ls body r q h.1 (omega (arith, length-append (x ∷ l) (with_lines ls [])))

-- The tail of a message begins with CR.
with_lines_cr :
    (ls : List Bytes) (body : Bytes)
    → (s : Bytes) × (with_lines ls (blank_line ++ body) ≡ b'\r' ∷ b'\n' ∷ s)
with_lines_cr [] body = (b'\r' ∷ b'\n' ∷ body, refl)
with_lines_cr (l ∷ ls) body = (l ++ with_lines ls (blank_line ++ body), refl)

-- The loop over the lines behind the first.
split_lines-with_lines :
    (ls : List Bytes) (fuel pos body_pos : ℕ) (str body : Bytes) (out : List Bytes)
    → All IsLine ls
    → 0 < pos
    → drop pos str ≡ with_lines ls (blank_line ++ body)
    → body_pos ≡ pos + length (with_lines ls [])
    → body_pos < pos + fuel
    → split_lines fuel str body_pos pos out ≡ out ++ ls
unfolding split_lines
split_lines-with_lines ls zero pos body_pos str body out h lt e b f = absurd (omega arith)
split_lines-with_lines [] (suc fuel) pos body_pos str body out h lt e b f =
    let stop : ltb pos body_pos ≡ false = ge→ltb pos body_pos (omega arith) in
    rw stop (sym (append-nil out))
split_lines-with_lines (l ∷ ls) (suc fuel) pos body_pos str body out h lt e b f =
    let p = pos + 2 + length l in
    let (rest, cr) = with_lines_cr ls body in
    let tail = with_lines ls (blank_line ++ body) in
    let go : ltb pos body_pos ≡ true = lt→ltb pos body_pos (omega arith) in
    let later : (pos == 0) ≡ false = ground arith in
    let e1 : drop (pos + 1) str ≡ b'\n' ∷ (l ++ tail) =
      drop_next str (b'\r' ∷ []) _ pos (pos + 1) e refl in
    let e2 : drop (pos + 2) str ≡ l ++ tail = drop_next str crlf _ pos (pos + 2) e refl in
    let e3 : drop p str ≡ tail = drop_next str l tail (pos + 2) p e2 refl in
    let found : find crlf str (pos + 1) ≡ some p =
      find-append b'\r' (b'\n' ∷ []) str (b'\n' ∷ l) rest (pos + 1) p
        (e1 ∙ ap (λ t. b'\n' ∷ (l ++ t)) cr) (omega arith, h.0.0) (omega arith) in
    let line = sub-append str l tail (pos + 2) (p - (pos + 2)) e2 (omega arith) in
    rw go (
      rw (found, split_lines)
        (rw later (
          rw line (
            split_lines-with_lines ls fuel p body_pos str body (out ++ l ∷ []) h.1 (omega arith) e3
              (omega (arith, length-append l (with_lines ls []))) (omega arith)
            ∙ append_assoc out (l ∷ []) ls))))

-- The first line has no CRLF before it.
split_lines_first :
    (l : Bytes) (ls : List Bytes) (fuel body_pos : ℕ) (body : Bytes)
    → All IsLine (l ∷ ls)
    → body_pos ≡ length (l ++ with_lines ls [])
    → body_pos < suc fuel
    → split_lines (suc fuel) (l ++ with_lines ls (blank_line ++ body)) body_pos 0 [] ≡ l ∷ ls
unfolding split_lines
split_lines_first [] ls fuel body_pos body h b f = absurd (h.0.1 refl)
split_lines_first (x ∷ l) ls fuel body_pos body h b f =
    let p = 1 + length l in
    let (rest, cr) = with_lines_cr ls body in
    let tail = with_lines ls (blank_line ++ body) in
    let str = x ∷ (l ++ tail) in
    let size = length-append l (with_lines ls []) in
    let go : ltb 0 body_pos ≡ true = lt→ltb 0 body_pos (omega arith) in
    let found : find crlf str 1 ≡ some p =
      find-append b'\r' (b'\n' ∷ []) str l rest 1 p (ap (λ t. l ++ t) cr) h.0.0.1 refl in
    let line = sub-append str (x ∷ l) tail 0 (p - 0) refl (omega arith) in
    let e3 : drop p str ≡ tail = drop_next str (x ∷ l) tail 0 p refl (omega arith) in
    rw go (
      rw (found, split_lines)
        (rw line (
          split_lines-with_lines ls fuel p body_pos str body ((x ∷ l) ∷ []) h.1 (omega arith) e3
            (omega (arith, size)) (omega arith))))

-- The blank line of a message stands behind its lines.
pub find-with_lines :
    (l : Bytes) (ls : List Bytes) (body : Bytes)
    → All IsLine (l ∷ ls)
    → find blank_line (l ++ with_lines ls (blank_line ++ body)) 0
      ≡ some (length (l ++ with_lines ls []))
find-with_lines l ls body h =
    find_zero blank_line (l ++ with_lines ls (blank_line ++ body))
    ∙ index_of-append b'\r' (b'\n' ∷ b'\r' ∷ b'\n' ∷ []) l _ 0 (length l) h.0.0 (omega arith)
    ∙ index_of-with_lines ls body (length l) (length (l ++ with_lines ls [])) h.1
        (length-append l (with_lines ls []))

-- Lines that are not empty and hold no CR are found again, however the body goes on.
pub split_http_of_crlf-append :
    (l : Bytes) (ls : List Bytes) (body : Bytes)
    → All IsLine (l ∷ ls)
    → split_http_of_crlf (l ++ with_lines ls (blank_line ++ body))
      ≡ some (length (l ++ with_lines ls []), l ∷ ls)
unfolding split_http_of_crlf
split_http_of_crlf-append l ls body h =
    let size = length (l ++ with_lines ls []) in
    rw (find-with_lines l ls body h, split_http_of_crlf)
      (ap (λ r. some (size, r)) (split_lines_first l ls size size body h refl (omega arith)))

with_lines-append : (ls : List Bytes) (tail : Bytes) → with_lines ls tail ≡ with_lines ls [] ++ tail
with_lines-append [] tail = refl
with_lines-append (l ∷ ls) tail =
    ap (λ r. crlf ++ r)
      (ap (λ r. l ++ r) (with_lines-append ls tail) ∙ sym (append_assoc l (with_lines ls []) tail))

-- A message is its lines, the blank line and its body.
pub with_lines-body :
    (l : Bytes) (ls : List Bytes) (body : Bytes)
    → l ++ with_lines ls (blank_line ++ body) ≡ ((l ++ with_lines ls []) ++ blank_line) ++ body
with_lines-body l ls body =
    ap (λ r. l ++ r) (with_lines-append ls (blank_line ++ body))
    ∙ (sym (append_assoc l (with_lines ls []) (blank_line ++ body))
        ∙ sym (append_assoc (l ++ with_lines ls []) blank_line body))

-- The body stands four bytes behind the position of the blank line.
pub drop-with_lines :
    (l : Bytes) (ls : List Bytes) (body : Bytes)
    → drop (length (l ++ with_lines ls []) + 4) (l ++ with_lines ls (blank_line ++ body)) ≡ body
drop-with_lines l ls body =
    let head = l ++ with_lines ls [] in
    rw (with_lines-body l ls body) (
      drop-append (length head + 4) (head ++ blank_line) body
        (omega (arith, length-append head blank_line)))
