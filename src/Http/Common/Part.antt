-- ===== src/Http/Common/Part.antt =====
-- What has come in of a message: a part of its head, or the head and a part of its body.
use uv_cpp.Prelude.{
  ℕ, ◌+◌, ◌<◌, ◌≡◌, refl, sym, ap, ◌∙◌, none, Bytes, List, [], ◌∷◌, ◌++◌, length, take, arith, All,
  length-append, take-append_right,
}
use uv_cpp.Http.Text.{blank_line}
use uv_cpp.Http.Text.Find.{find_zero, index_of-take}
use uv_cpp.Http.Common.{split_http_of_crlf}
use uv_cpp.Http.Common.Lines.{IsLine, with_lines, find-with_lines, with_lines-body}

module _ (l : Bytes) (ls : List Bytes) (body : Bytes) where
  -- The bytes before the body.
  abbrev pub head_size : ℕ
  head_size = length (l ++ with_lines ls []) + 4

  pub length-with_lines : length (l ++ with_lines ls (blank_line ++ body)) ≡ head_size + length body
  length-with_lines =
      let head = l ++ with_lines ls [] in
      ap length (with_lines-body l ls body)
      ∙ omega (arith, length-append (head ++ blank_line) body, length-append head blank_line)

  -- A part of the head has no blank line.
  pub split_http_of_crlf-take :
      (k : ℕ)
      → All IsLine (l ∷ ls)
      → k < head_size
      → split_http_of_crlf (take k (l ++ with_lines ls (blank_line ++ body))) ≡ none
  unfolding split_http_of_crlf
  split_http_of_crlf-take k h lt =
      let text = l ++ with_lines ls (blank_line ++ body) in
      let found = sym (find_zero blank_line text) ∙ find-with_lines l ls body h in
      let cut =
        find_zero blank_line (take k text)
        ∙ index_of-take b'\r' (b'\n' ∷ b'\r' ∷ b'\n' ∷ []) text 0 _ k found (omega arith) in
      rw (cut, split_http_of_crlf) refl

  -- Behind the head it is the body that is cut off.
  pub take-with_lines :
      (k j : ℕ)
      → k ≡ head_size + j
      → take k (l ++ with_lines ls (blank_line ++ body))
        ≡ l ++ with_lines ls (blank_line ++ take j body)
  take-with_lines k j e =
      let head = l ++ with_lines ls [] in
      let size = length-append head blank_line in
      ap (take k) (with_lines-body l ls body)
      ∙ (take-append_right k j (head ++ blank_line) body (omega (arith, size))
          ∙ sym (with_lines-body l ls (take j body)))
