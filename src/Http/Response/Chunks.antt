-- ===== src/Http/Response/Chunks.antt =====
-- uv/http/Response.cpp: `isCompletedChunked` on a body in chunks, as HTTP/1.1 has a sender write it.
use uv_cpp.Prelude.{
  ℕ, zero, suc, ◌+◌, ◌-◌, ◌^◌, ◌<◌, ◌≡◌, ◌≢◌, refl, ap, sym, ◌∙◌, Bytes, List, [], ◌∷◌, ◌++◌,
  length, take, drop, some, arith, Lacks, All, add64, length-append, take-append_right, drop-drop,
  length-drop,
}
use uv_cpp.Http.Text.{find, index_of, sub, crlf}
use uv_cpp.Http.Text.Find.{
  find-append, sub-append, drop_next, index_of-append, index_of-here, index_of-take,
}
use uv_cpp.Http.Number.{pos, to_u64, stoi}
use uv_cpp.Http.Number.Hex.{hex, hex_line, stoi-hex}
use uv_cpp.Http.Common.{success, fail}
use uv_cpp.Http.Response.{chunks}

-- The coding of RFC 7230, section 4.1: each chunk with its size in front, and the last one empty.
abbrev pub encode : List Bytes → Bytes
encode [] = hex 0 ++ (crlf ++ crlf)
encode (d ∷ ds) = hex (length d) ++ (crlf ++ (d ++ (crlf ++ encode ds)))

-- The size on the first line, and what stands behind that line.
abbrev pub size_of : List Bytes → ℕ
size_of [] = 0
size_of (d ∷ ds) = length d

abbrev pub behind : List Bytes → Bytes
behind [] = crlf
behind (d ∷ ds) = d ++ (crlf ++ encode ds)

pub encode-line : (ds : List Bytes) → encode ds ≡ hex (size_of ds) ++ (crlf ++ behind ds)
encode-line [] = refl
encode-line (d ∷ ds) = refl

-- A text begins with a line that `stoi` reads as `n`, and `tail` stands behind its CRLF. The search
-- for the CRLF passes over the first byte `x`.
pub record SizeLine (text : Bytes) (n : ℕ) (tail : Bytes) : Type 0 where
  pub x : ℕ
  pub l : Bytes
  pub text_is : text ≡ x ∷ (l ++ (crlf ++ tail))
  pub lacks : Lacks b'\r' l
  pub number : stoi 16 (x ∷ l) ≡ some (pos n)

pub first_line : (n : ℕ) (tail : Bytes) → n < 2 ^ 31 → SizeLine (hex n ++ (crlf ++ tail)) n tail
first_line n tail small =
    let (c, s, digits, lacks) = hex_line n in
    record {
      x = c;
      l = s;
      text_is = ap (λ t. t ++ (crlf ++ tail)) digits;
      lacks = lacks.1;
      number = ap (stoi 16) (sym digits) ∙ stoi-hex n small;
    }

-- From the second chunk on the line begins with the CRLF that ends the chunk before.
next_line :
    (n : ℕ) (tail : Bytes) → n < 2 ^ 31 → SizeLine (crlf ++ (hex n ++ (crlf ++ tail))) n tail
unfolding stoi
next_line n tail small =
    let (c, s, digits, lacks) = hex_line n in
    record {
      x = b'\r';
      l = b'\n' ∷ c ∷ s;
      text_is = ap (λ t. crlf ++ (t ++ (crlf ++ tail))) digits;
      lacks = (omega arith, lacks);
      number = ap (stoi 16) (sym digits) ∙ stoi-hex n small;
    }

-- One round of the loop.
module _ (fuel : ℕ) (content : Bytes) (p1 : ℕ) (temp text : Bytes) (n : ℕ) (tail : Bytes)
    (line : SizeLine text n tail) (here : drop p1 content ≡ text) (small : n < 2 ^ 31)
    (fits : length content < 2 ^ 63) where
  open line use {x, l, text_is, lacks, number}

  at : drop p1 content ≡ x ∷ (l ++ (crlf ++ tail))
  at = here ∙ text_is

  abbrev p2 : ℕ
  p2 = p1 + 1 + length l

  line_end : find crlf content (p1 + 1) ≡ some p2
  line_end =
      find-append b'\r' (b'\n' ∷ []) content l tail (p1 + 1) p2
        (drop_next content (x ∷ []) (l ++ (crlf ++ tail)) p1 (p1 + 1) at refl) lacks refl

  line_text : sub content p1 (p2 - p1) ≡ x ∷ l
  line_text = sub-append content (x ∷ l) (crlf ++ tail) p1 (p2 - p1) at (omega arith)

  whole_number : to_u64 (pos n) ≡ n
  unfolding to_u64
  whole_number = omega arith

  behind_line : drop (p2 + 2) content ≡ tail
  behind_line =
      drop_next content crlf tail p2 (p2 + 2)
        (drop_next content (x ∷ l) (crlf ++ tail) p1 p2 at (omega arith)) refl

  size : length content ≡ p2 + 2 + length tail
  size =
      let e : length (drop p1 content) ≡ 1 + (length l + (2 + length tail)) =
        ap length at ∙ omega (arith, length-append l (crlf ++ tail)) in
      omega (arith, e, length-drop p1 content)

  -- The empty chunk ends the loop.
  pub last_round : n ≡ 0 → chunks (suc fuel) content p1 temp ≡ some (success, temp)
  unfolding chunks
  last_round none_left =
      rw (line_end, chunks)
        (rw (line_text, chunks) (rw (number, chunks) (rw whole_number (ground arith))))

  -- A chunk that has not come in whole.
  pub part_round :
      n ≢ 0 → length tail < n → chunks (suc fuel) content p1 temp ≡ some (fail, content)
  unfolding chunks
  part_round ne short =
      rw (line_end, chunks)
        (rw (line_text, chunks) (rw (number, chunks) (rw whole_number (ground (arith, size)))))

  pub next_round :
      (d more : Bytes)
      → n ≢ 0
      → tail ≡ d ++ more
      → n ≡ length d
      → chunks (suc fuel) content p1 temp ≡ chunks fuel content (p2 + 2 + n) (temp ++ d)
  unfolding chunks
  next_round d more ne e len =
      let chunk : sub content (p2 + 2) n ≡ d =
        sub-append content d more (p2 + 2) n (behind_line ∙ e) len in
      let whole : length tail ≡ n + length more =
        ap length e ∙ omega (arith, length-append d more) in
      let no_wrap : add64 (p2 + 2) n ≡ p2 + 2 + n = omega (arith, size, whole) in
      rw (line_end, chunks)
        (rw (line_text, chunks)
          (rw (number, chunks)
            (rw whole_number (rw (no_wrap, chunk) (ground (arith, size, whole))))))

  pub after : (d more : Bytes) → tail ≡ d ++ more → n ≡ length d → drop (p2 + 2 + n) content ≡ more
  after d more e len =
      drop_next content d more (p2 + 2) (p2 + 2 + n) (behind_line ∙ e) (omega arith)

drop_one : (k x : ℕ) (s : Bytes) → drop 1 (take k (x ∷ s)) ≡ take (k - 1) s
drop_one zero x s = refl
drop_one (suc k) x s = let e : suc k - 1 ≡ k = omega arith in rw e refl

-- The line of a text that is cut off.
module _ {text : Bytes} {n : ℕ} {tail : Bytes} (line : SizeLine text n tail) (k : ℕ) where
  open line use {x, l, text_is, lacks}

  pub no_line :
      (fuel : ℕ) (content : Bytes) (p1 : ℕ) (temp : Bytes)
      → drop p1 content ≡ take k text
      → k < length l + 3
      → chunks (suc fuel) content p1 temp ≡ some (fail, content)
  unfolding chunks find
  no_line fuel content p1 temp here lt =
      let found : index_of crlf (l ++ (crlf ++ tail)) (p1 + 1) ≡ some (p1 + 1 + length l) =
        index_of-append b'\r' (b'\n' ∷ []) l (crlf ++ tail) (p1 + 1) _ lacks refl
        ∙ index_of-here b'\r' (b'\n' ∷ []) tail _ in
      let cut = index_of-take b'\r' (b'\n' ∷ []) _ (p1 + 1) _ (k - 1) found (omega arith) in
      let e : drop (p1 + 1) content ≡ take (k - 1) (l ++ (crlf ++ tail)) =
        sym (drop-drop p1 1 (p1 + 1) content refl)
        ∙ (ap (drop 1) (here ∙ ap (take k) text_is) ∙ drop_one k x (l ++ (crlf ++ tail))) in
      rw (e, chunks) (rw (cut, chunks) refl)

  pub length-line : length text ≡ length l + 3 + length tail
  length-line = ap length text_is ∙ omega (arith, length-append l (crlf ++ tail))

  pub cut_line : (j : ℕ) → k ≡ length l + 3 + j → SizeLine (take k text) n (take j tail)
  cut_line j e = record {
    x = x;
    l = l;
    text_is =
        ap (take k) text_is
        ∙ (take-append_right k (2 + j) (x ∷ l) (crlf ++ tail) (omega arith)
            ∙ ap (λ t. x ∷ (l ++ t)) (take-append_right (2 + j) j crlf tail refl));
    lacks = lacks;
    number = line.number;
  }

-- A chunk that is not the last one, and whose size an `int` holds.
abbrev pub IsChunk : Bytes → Type 0
IsChunk d = (length d ≢ 0) × (length d < 2 ^ 31)

pub size_of-lt : (ds : List Bytes) → All IsChunk ds → size_of ds < 2 ^ 31
size_of-lt [] h = omega arith
size_of-lt (d ∷ ds) h = h.0.1

pub line_behind :
    (ds : List Bytes) → All IsChunk ds → SizeLine (crlf ++ encode ds) (size_of ds) (behind ds)
line_behind ds h = rw (encode-line ds) (next_line (size_of ds) (behind ds) (size_of-lt ds h))
