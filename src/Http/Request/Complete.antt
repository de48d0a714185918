-- ===== src/Http/Request/Complete.antt =====
-- uv/http/Request.cpp: `unpackAndCompleted`, and text that begins with a blank line.
use uv_cpp.Prelude.{
  ℕ, ◌<◌, ◌^◌, ◌%◌, ◌==◌, ◌≡◌, ◌∙◌, u64_mod, Bytes, codes, [], ◌∷◌, ◌++◌, length, if◌then◌else◌,
  none, some, arith,
}
use uv_cpp.Http.Text.{blank_line}
use uv_cpp.Http.Text.Find.{find_zero, index_of-here}
use uv_cpp.Http.Dict.{lookup}
use uv_cpp.Http.Number.{pos, to_u64, to_string, stoi-to_string}
use uv_cpp.Http.Common.{success, fail, split_http_of_crlf, split_lines}
use uv_cpp.Http.Request.{Request, pack, unpack, unpack_and_completed, completed}
use uv_cpp.Http.Request.Unpack.{IsSendable, unpack-pack}

module _ (r q : Request) (s : IsSendable r) where
  -- What `pack` writes of a request that can be sent, with a length below 2 ^ 31 announced as
  -- Content-Length, is read back into a request without heads, and the result is a success if the
  -- body has that length and a failure if not.
  pub unpack_and_completed-length :
      (n : ℕ)
      → q.heads ≡ []
      → n < 2 ^ 31
      → lookup (codes "Content-Length") r.heads ≡ some (to_string (pos n))
      → unpack_and_completed q (pack r)
        ≡ some (if n == length r.content then success else fail, record r { value = q.value })
  unfolding unpack_and_completed completed to_u64
  unpack_and_completed-length n fresh h e =
      let small : n % u64_mod ≡ n = omega arith in
      rw (unpack-pack r q s fresh, unpack_and_completed)
        (rw (e, completed) (rw (stoi-to_string n h, completed) (rw small)))

-- No line stands before a blank line at the very front.
split_http_of_crlf_blank : (rest : Bytes) → split_http_of_crlf (blank_line ++ rest) ≡ some (0, [])
unfolding split_http_of_crlf split_lines
split_http_of_crlf_blank rest =
    let found =
      find_zero blank_line (blank_line ++ rest)
      ∙ index_of-here b'\r' (b'\n' ∷ b'\r' ∷ b'\n' ∷ []) rest 0 in
    rw (found, split_http_of_crlf)

-- On text that begins with a blank line `unpack` reads the first of no lines.
pub unpack-blank_line : (q : Request) (rest : Bytes) → unpack q (blank_line ++ rest) ≡ none
unfolding unpack
unpack-blank_line q rest = rw (split_http_of_crlf_blank rest, unpack)
