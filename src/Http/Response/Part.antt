-- ===== src/Http/Response/Part.antt =====
-- uv/http/Response.cpp: `unpackAndCompleted` on a part of what `pack` writes.
use native.Mathlib.Decide.{dec_lt}
use uv_cpp.Prelude.{
  ℕ, ◌+◌, ◌-◌, ◌<◌, ◌^◌, ◌≡◌, refl, ◌==◌, false, sym, ap, ◌∙◌, Bytes, List, codes, [], length, map,
  take, some, arith, length-take,
}
use uv_cpp.Http.Dict.{lookup}
use uv_cpp.Http.Number.{pos, to_string}
use uv_cpp.Http.Common.{fail}
use uv_cpp.Http.Common.Part.{head_size, length-with_lines, split_http_of_crlf-take, take-with_lines}
use uv_cpp.Http.Request.Unpack.{head_line, map-head_line}
use uv_cpp.Http.Response.{Response, pack_response, unpack_response, response_unpack_and_completed}
use uv_cpp.Http.Response.Unpack.{
  IsSendable, first_line, first_line_cr, pack_response-with_lines,
  response_unpack_and_completed-length,
}

module _ (r q : Response) (s : IsSendable r) (n fuel : ℕ) (fresh : q.heads ≡ [])
    (small : n < 2 ^ 31)
    (announced : lookup (codes "Content-Length") r.heads ≡ some (to_string (pos n)))
    (complete : n ≡ length r.content) where
  abbrev ls : List Bytes
  ls = map head_line r.heads

  abbrev head_end : ℕ
  head_end = head_size (first_line r q s) ls r.content

  -- Before the blank line has come in.
  in_head :
      (k : ℕ)
      → k < head_end
      → response_unpack_and_completed fuel q (take k (pack_response r)) ≡ some (fail, q)
  unfolding response_unpack_and_completed unpack_response
  in_head k lt =
      let none_yet =
        split_http_of_crlf-take (first_line r q s) ls r.content k
          (first_line_cr r q s, map-head_line r.heads s.heads) lt in
      rw (pack_response-with_lines r q s)
        (rw (none_yet, response_unpack_and_completed, unpack_response) refl)

  -- A message with a part of the body.
  abbrev with_part : ℕ → Response
  with_part j = record r { content = take j r.content }

  abbrev with_part-IsSendable : (j : ℕ) → IsSendable (with_part j)
  with_part-IsSendable j = record {
    version = s.version;
    code = s.code;
    code_is = s.code_is;
    code_fits = s.code_fits;
    info = s.info;
    info_ne_nil = s.info_ne_nil;
    heads = s.heads;
    sorted = s.sorted;
  }

  in_body :
      (j : ℕ)
      → j < length r.content
      → response_unpack_and_completed fuel q (pack_response (with_part j))
        ≡ some (fail, with_part j)
  in_body j lt =
      let left = length-take j r.content in
      let short : (n == length (take j r.content)) ≡ false = ground (arith, left) in
      response_unpack_and_completed-length (with_part j) q (with_part-IsSendable j) fuel n fresh
        small announced
      ∙ rw short refl

  take-pack : (j k : ℕ) → k ≡ head_end + j → take k (pack_response r) ≡ pack_response (with_part j)
  take-pack j k e =
      rw (pack_response-with_lines r q s) (take-with_lines (first_line r q s) ls r.content k j e)
      ∙ sym (pack_response-with_lines (with_part j) q (with_part-IsSendable j))

  -- A part of a message is not complete.
  pub response_unpack_and_completed-take :
      (k : ℕ)
      → k < length (pack_response r)
      → (r' : Response) × (response_unpack_and_completed fuel q (take k (pack_response r))
          ≡ some (fail, r'))
  response_unpack_and_completed-take k lt = elim (dec_lt k head_end) [
    | yes early ↦ (q, in_head k early)
    | no late ↦
        let j = k - head_end in
        let size =
          ap length (pack_response-with_lines r q s)
          ∙ length-with_lines (first_line r q s) ls r.content in
        (
          _,
          ap (response_unpack_and_completed fuel q) (take-pack j k (omega arith))
              ∙ in_body j (omega (arith, size)),
        )
  ]
