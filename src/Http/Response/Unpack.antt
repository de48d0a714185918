-- ===== src/Http/Response/Unpack.antt =====
-- uv/http/Response.cpp: `unpack` and `unpackAndCompleted` on what `pack` writes.
use uv_cpp.Prelude.{
  ℕ, ◌<◌, ◌^◌, ◌==◌, ◌≡◌, ◌≢◌, ap, sym, ◌∙◌, Bytes, ◌%◌, u64_mod, codes, [], ◌∷◌, ◌++◌, length, map,
  some, ok, arith, append_assoc, Lacks, All, All-append, if◌then◌else◌,
}
use uv_cpp.Http.Text.{blank_line}
use uv_cpp.Http.Dict.{lookup, insert_all-nil, IsSorted}
use uv_cpp.Http.Number.{pos, to_u64, to_string, stoi-to_string, to_string_word}
use uv_cpp.Http.Common.{success, fail, unknown, http_version_to_str, split_str_of_space}
use uv_cpp.Http.Common.Lines.{IsLine, with_lines, drop-with_lines, split_http_of_crlf-append}
use uv_cpp.Http.Common.Words.{split_str_of_space-append}
use uv_cpp.Http.Request.Unpack.{
  IsHeader, head_line, map-head_line, pack_heads-with_lines, unpack_heads-map, version_word,
  get_http_version-http_version_to_str,
}
use uv_cpp.Http.Response.{
  Response, pack_response, status_words, parse_status, response_content, response_rest,
  unpack_response, completed_response, response_unpack_and_completed,
}

-- A response that is read back as it was written: a status that is no negative number, and a
-- reason that is not empty.
pub record IsSendable (r : Response) : Type 0 where
  pub version : r.version ≢ unknown
  pub code : ℕ
  pub code_is : r.status_code ≡ pos code
  pub code_fits : code < 2 ^ 31
  pub info : Lacks b'\r' r.status_info
  pub info_ne_nil : r.status_info ≢ []
  pub heads : All IsHeader r.heads
  pub sorted : IsSorted r.heads

module _ (r q : Response) (s : IsSendable r) where
  abbrev pub first_line : Bytes
  first_line =
      http_version_to_str r.version ++ b' ' ∷ (to_string (pos s.code) ++ b' ' ∷ r.status_info)

  pub first_line_cr : IsLine first_line
  first_line_cr =
      let (_, vc, _) = version_word r.version s.version in
      let (_, nc, _) = to_string_word s.code in
      (
        All-append _ (http_version_to_str r.version) _ vc
            (omega arith, All-append _ (to_string (pos s.code)) _ nc (omega arith, s.info)),
        λ e. ne (http_version_to_str r.version) _ e,
      )
    where
      ne : (a b : Bytes) → a ++ b' ' ∷ b ≡ [] → ⊥
      ne [] b e = cc
      ne (x ∷ a) b e = cc

  words :
      (split_str_of_space first_line).1
      ≡ http_version_to_str r.version ∷ to_string (pos s.code) ∷ r.status_info ∷ []
  words =
      let (vs, _, vn) = version_word r.version s.version in
      let (nw, nc, nn) = to_string_word s.code in
      ap (λ x. x.1)
        (split_str_of_space-append (http_version_to_str r.version) (to_string (pos s.code))
          r.status_info vs nw vn nn s.info_ne_nil)

  start_line : parse_status q first_line ≡ (
    ok,
    record q { version = r.version; status_code = r.status_code; status_info = r.status_info },
  )
  unfolding parse_status status_words
  start_line = rw words (
      rw (stoi-to_string s.code s.code_fits, status_words)
        (rw (get_http_version-http_version_to_str r.version s.version, s.code_is)))

  pub pack_response-with_lines :
      pack_response r ≡ first_line ++ with_lines (map head_line r.heads) (blank_line ++ r.content)
  unfolding pack_response
  pack_response-with_lines =
      let w = with_lines (map head_line r.heads) (blank_line ++ r.content) in
      let v = http_version_to_str r.version in
      let n = to_string (pos s.code) in
      let i = r.status_info in
      rw s.code_is (
        ap (λ x. v ++ b' ' ∷ (n ++ b' ' ∷ (i ++ x))) (pack_heads-with_lines r.heads r.content)
        ∙ (ap (λ x. v ++ b' ' ∷ x) (sym (append_assoc n (b' ' ∷ i) w))
            ∙ sym (append_assoc v (b' ' ∷ (n ++ b' ' ∷ i)) w)))

  -- What `pack` writes of a response that can be sent is read back by `unpack`, into any response
  -- without heads, as the same response.
  pub unpack_response-pack_response :
      q.heads ≡ [] → unpack_response q (pack_response r) ≡ some (success, r)
  unfolding unpack_response response_rest response_content
  unpack_response-pack_response fresh =
      let ls = map head_line r.heads in
      let lines =
        split_http_of_crlf-append first_line ls r.content
          (first_line_cr, map-head_line r.heads s.heads) in
      let n = length (first_line ++ with_lines ls []) in
      let body = drop-with_lines first_line ls r.content in
      rw pack_response-with_lines (
        rw (lines, unpack_response)
          (rw start_line (
            rw fresh (
              rw (unpack_heads-map r.heads [] s.heads)
                (rw (insert_all-nil r.heads s.sorted) (rw body))))))

  -- What `pack` writes of a response that can be sent, with a length below 2 ^ 31 announced as
  -- Content-Length, is read back into a response without heads, and the result is a success if the
  -- body has that length and a failure if not.
  pub response_unpack_and_completed-length :
      (fuel n : ℕ)
      → q.heads ≡ []
      → n < 2 ^ 31
      → lookup (codes "Content-Length") r.heads ≡ some (to_string (pos n))
      → response_unpack_and_completed fuel q (pack_response r)
        ≡ some (if n == length r.content then success else fail, r)
  unfolding response_unpack_and_completed completed_response to_u64
  response_unpack_and_completed-length fuel n fresh h e =
      let small : n % u64_mod ≡ n = omega arith in
      rw (unpack_response-pack_response fresh, response_unpack_and_completed)
        (rw (e, completed_response) (rw (stoi-to_string n h, completed_response) (rw small)))
