-- ===== src/Http/Request/Part.antt =====
-- uv/http/Request.cpp: `unpackAndCompleted` on a part of what `pack` writes.
use native.Mathlib.Decide.{dec_lt}
use uv_cpp.Prelude.{
  ℕ, ◌+◌, ◌-◌, ◌<◌, ◌^◌, ◌≡◌, refl, ◌==◌, false, sym, ap, ◌∙◌, Bytes, List, codes, [], length, map,
  take, some, arith, length-take,
}
use uv_cpp.Http.Dict.{lookup}
use uv_cpp.Http.Number.{pos, to_string}
use uv_cpp.Http.Common.{fail}
use uv_cpp.Http.Common.Part.{head_size, length-with_lines, split_http_of_crlf-take, take-with_lines}
use uv_cpp.Http.Request.Unpack.{
  head_line, map-head_line, IsSendable, first_line, first_line_cr, pack-with_lines,
}
use uv_cpp.Http.Request.{Request, pack, pack_path_param, unpack, unpack_and_completed}
use uv_cpp.Http.Request.Complete.{unpack_and_completed-length}

module _ (r q : Request) (s : IsSendable r) (n : ℕ) (fresh : q.heads ≡ []) (small : n < 2 ^ 31)
    (announced : lookup (codes "Content-Length") r.heads ≡ some (to_string (pos n)))
    (complete : n ≡ length r.content) where
  abbrev ls : List Bytes
  ls = map head_line r.heads

  abbrev head_end : ℕ
  head_end = head_size (first_line r q s) ls r.content

  -- Before the blank line has come in.
  in_head : (k : ℕ) → k < head_end → unpack_and_completed q (take k (pack r)) ≡ some (fail, q)
  unfolding unpack_and_completed unpack
  in_head k lt =
      let none_yet =
        split_http_of_crlf-take (first_line r q s) ls r.content k
          (first_line_cr r q s, map-head_line r.heads s.heads) lt in
      rw (pack-with_lines r q s) (rw (none_yet, unpack_and_completed, unpack) refl)

  -- A message with a part of the body.
  abbrev with_part : ℕ → Request
  with_part j = record r { content = take j r.content }

  with_part-IsSendable : (j : ℕ) → IsSendable (with_part j)
  unfolding pack_path_param
  with_part-IsSendable j = record {
    methon = s.methon;
    version = s.version;
    target = record {
      slash = s.target.slash;
      path_colon = s.target.path_colon;
      path_question = s.target.path_question;
      params_colon = s.target.params_colon;
      params = s.target.params;
      sorted = s.target.sorted;
    };
    target_space = s.target_space;
    target_cr = s.target_cr;
    heads = s.heads;
    sorted = s.sorted;
  }

  in_body :
      (j : ℕ)
      → j < length r.content
      → unpack_and_completed q (pack (with_part j))
        ≡ some (fail, record r { content = take j r.content; value = q.value })
  in_body j lt =
      let left = length-take j r.content in
      let short : (n == length (take j r.content)) ≡ false = ground (arith, left) in
      unpack_and_completed-length (with_part j) q (with_part-IsSendable j) n fresh small announced
      ∙ rw short refl

  take-pack : (j k : ℕ) → k ≡ head_end + j → take k (pack r) ≡ pack (with_part j)
  unfolding pack_path_param
  take-pack j k e =
      rw (pack-with_lines r q s) (take-with_lines (first_line r q s) ls r.content k j e)
      ∙ sym (pack-with_lines (with_part j) q (with_part-IsSendable j))

  -- A part of a message is not complete.
  pub unpack_and_completed-take :
      (k : ℕ)
      → k < length (pack r)
      → (r' : Request) × (unpack_and_completed q (take k (pack r)) ≡ some (fail, r'))
  unpack_and_completed-take k lt = elim (dec_lt k head_end) [
    | yes early ↦ (q, in_head k early)
    | no late ↦
        let j = k - head_end in
        let size =
          ap length (pack-with_lines r q s) ∙ length-with_lines (first_line r q s) ls r.content in
        (
          _,
          ap (unpack_and_completed q) (take-pack j k (omega arith))
              ∙ in_body j (omega (arith, size)),
        )
  ]
