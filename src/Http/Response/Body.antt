-- ===== src/Http/Response/Body.antt =====
-- uv/http/Response.cpp: `unpackAndCompleted` on a response whose body comes in chunks.
use mathlib.Core.List.{flatten}
use native.Mathlib.Decide.{dec_lt}
use uv_cpp.Prelude.{
  ℕ, zero, suc, ◌+◌, ◌-◌, ◌^◌, ◌<◌, ◌≡◌, refl, ap, ◌∙◌, Bytes, codes, List, [], ◌∷◌, ◌++◌, length,
  take, drop, some, none, arith, All, append_assoc, append-nil, length-append, length-take,
  take-append_right,
}
use uv_cpp.Http.Text.{crlf}
use uv_cpp.Http.Text.Find.{equal_iff}
use uv_cpp.Http.Dict.{lookup}
use uv_cpp.Http.Common.{success, fail}
use uv_cpp.Http.Response.{
  Response, pack_response, chunks, is_completed_chunked, completed_response,
  response_unpack_and_completed,
}
use uv_cpp.Http.Response.Unpack.{IsSendable, unpack_response-pack_response}
use uv_cpp.Http.Response.Chunks.{
  IsChunk, SizeLine, encode, encode-line, size_of, size_of-lt, behind, first_line, line_behind,
  last_round, next_round, part_round, after, no_line, length-line, cut_line,
}

module _ (content : Bytes) (fits : length content < 2 ^ 63) where
  -- The loop at the line of the first of some chunks.
  chunks-line :
      (ds : List Bytes) (fuel p1 : ℕ) (temp text : Bytes)
      → All IsChunk ds
      → length ds < fuel
      → SizeLine text (size_of ds) (behind ds)
      → drop p1 content ≡ text
      → chunks fuel content p1 temp ≡ some (success, temp ++ flatten ds)
  unfolding flatten
  chunks-line ds zero p1 temp text h f line here = absurd (omega arith)
  chunks-line [] (suc fuel) p1 temp text h f line here =
      last_round fuel content p1 temp text 0 crlf line here (omega arith) fits refl
      ∙ rw append-nil refl
  chunks-line (d ∷ ds) (suc fuel) p1 temp text h f line here =
      let more = crlf ++ encode ds in
      let tail = d ++ more in
      let n = length d in
      let next = after fuel content p1 temp text n tail line here h.0.1 fits d more refl refl in
      next_round fuel content p1 temp text n tail line here h.0.1 fits d more h.0.0 refl refl
      ∙ chunks-line ds fuel _ (temp ++ d) more h.1 (omega arith) (line_behind ds h.1) next
      ∙ ap (λ r. some (success, r)) (append_assoc temp d (flatten ds))

  -- The same as long as the last line has not come in.
  chunks-take :
      (ds : List Bytes) (fuel p1 k : ℕ) (temp text : Bytes)
      → All IsChunk ds
      → length ds < fuel
      → SizeLine text (size_of ds) (behind ds)
      → drop p1 content ≡ take k text
      → k + 2 < length text
      → chunks fuel content p1 temp ≡ some (fail, content)
  chunks-take ds zero p1 k temp text h f line here lt = absurd (omega arith)
  chunks-take [] (suc fuel) p1 k temp text h f line here lt =
      let size = length-line line k in
      no_line line k fuel content p1 temp here (omega (arith, size))
  chunks-take (d ∷ ds) (suc fuel) p1 k temp text h f line here lt =
      elim (dec_lt k (length line.l + 3)) [
        | yes few ↦ no_line line k fuel content p1 temp here few
        | no many ↦
            let j = k - (length line.l + 3) in
            let cut = cut_line line k j (omega arith) in
            let more = crlf ++ encode ds in
            let size = length-line line k in
            let tail = length-append d more in
            let n = length d in
            let left = length-take j (d ++ more) in
            elim (dec_lt j n) [
              | yes part ↦
                  part_round fuel content p1 temp (take k text) n _ cut here h.0.1 fits h.0.0
                    (omega (arith, left))
              | no whole ↦
                  let i = j - n in
                  let e : take j (d ++ more) ≡ d ++ take i more =
                    take-append_right j i d more (omega arith) in
                  let next =
                    after fuel content p1 temp (take k text) n _ cut here h.0.1 fits d (take i more)
                      e refl in
                  next_round fuel content p1 temp (take k text) n _ cut here h.0.1 fits d
                    (take i more) h.0.0 e refl
                  ∙ chunks-take ds fuel _ i (temp ++ d) more h.1 (omega arith) (line_behind ds h.1)
                      next (omega (arith, size, tail))
            ]
      ]

module _ (content : Bytes) (fits : length content < 2 ^ 63) (ds : List Bytes) (h : All IsChunk ds)
    (fuel : ℕ) (f : length ds < fuel) where
  whole_line : SizeLine (encode ds) (size_of ds) (behind ds)
  whole_line = rw (encode-line ds) (first_line (size_of ds) (behind ds) (size_of-lt ds h))

  chunks-encode : content ≡ encode ds → chunks fuel content 0 [] ≡ some (success, flatten ds)
  chunks-encode e = chunks-line content fits ds fuel 0 [] (encode ds) h f whole_line e

  chunks-take-encode :
      (k : ℕ)
      → content ≡ take k (encode ds)
      → k + 2 < length (encode ds)
      → chunks fuel content 0 [] ≡ some (fail, content)
  chunks-take-encode k e lt =
      chunks-take content fits ds fuel 0 k [] (encode ds) h f whole_line e lt

-- A response that says that its body is chunked and does not say its length.
pub record IsChunked (r : Response) : Type 0 where
  pub sendable : IsSendable r
  pub no_length : lookup (codes "Content-Length") r.heads ≡ none
  pub no_small_length : lookup (codes "content-length") r.heads ≡ none
  pub encoding : lookup (codes "Transfer-Encoding") r.heads ≡ some (codes "chunked")
  pub fits : length r.content < 2 ^ 63

module _ (r q : Response) (c : IsChunked r) (fresh : q.heads ≡ []) (ds : List Bytes)
    (h : All IsChunk ds) (fuel : ℕ) (f : length ds < fuel) where
  by_chunks : response_unpack_and_completed fuel q (pack_response r) ≡ is_completed_chunked fuel r
  unfolding response_unpack_and_completed completed_response
  by_chunks =
      let same = (equal_iff (codes "chunked") (codes "chunked")).1 refl in
      rw (unpack_response-pack_response r q c.sendable fresh, response_unpack_and_completed)
        (rw (c.no_length, completed_response)
          (rw (c.no_small_length, completed_response)
            (rw (c.encoding, completed_response) (rw same refl))))

  -- What `pack` writes of a response that can be sent, which has no announced length and a chunked
  -- body below 2 ^ 63 bytes, is read back into a response without heads as a success, if the body
  -- is the chunk coding of RFC 7230 (without trailers) of any data in pieces, none empty and each
  -- below 2 ^ 31 bytes; the content is then the pieces put together.
  pub response_unpack_and_completed-encode :
      r.content ≡ encode ds
      → response_unpack_and_completed fuel q (pack_response r)
        ≡ some (success, record r { content = flatten ds })
  unfolding is_completed_chunked
  response_unpack_and_completed-encode e =
      by_chunks ∙ rw (chunks-encode r.content c.fits ds h fuel f e, is_completed_chunked) refl

  -- What `pack` writes of a response that can be sent, which has no announced length and a body
  -- below 2 ^ 63 bytes of which it says that it is chunked, is read back into a response without
  -- heads as a failure that leaves the response as it is, if the body is a front of a chunk coding
  -- (as RFC 7230 has it, without trailers, of pieces that are not empty and below 2 ^ 31 bytes)
  -- that lacks three bytes or more.
  pub response_unpack_and_completed-take-encode :
      (k : ℕ)
      → r.content ≡ take k (encode ds)
      → k + 2 < length (encode ds)
      → response_unpack_and_completed fuel q (pack_response r) ≡ some (fail, r)
  unfolding is_completed_chunked
  response_unpack_and_completed-take-encode k e lt =
      by_chunks
      ∙ rw (chunks-take-encode r.content c.fits ds h fuel f k e lt, is_completed_chunked) refl
