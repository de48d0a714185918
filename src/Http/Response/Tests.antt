-- ===== src/Http/Response/Tests.antt =====
-- A response with a length and a body, and bodies in chunks.
use mathlib.Core.List.{flatten}
use uv_cpp.Prelude.{
  ◌≡◌, ◌≢◌, ◌<◌, ◌^◌, refl, Bytes, codes, List, [], ◌∷◌, none, some, arith, All, length,
}
use uv_cpp.Http.Text.{equal}
use uv_cpp.Http.Dict.{less, lookup}
use uv_cpp.Http.Number.{pos}
use uv_cpp.Http.Number.Hex.{hex}
use uv_cpp.Http.Common.{success, fail, http1_1}
use uv_cpp.Http.Response.{
  Response, default_response, new_response, pack_response, unpack_response,
  response_unpack_and_completed, chunks,
}
use uv_cpp.Http.Response.Unpack.{IsSendable, unpack_response-pack_response}
use uv_cpp.Http.Response.Chunks.{IsChunk}
use uv_cpp.Http.Response.Body.{
  IsChunked, response_unpack_and_completed-encode, response_unpack_and_completed-take-encode,
}
use uv_cpp.Http.Response.Chunked.{chunks-ne-none}

abbrev page : Response
page = record {
  version = http1_1;
  status_code = pos 200;
  status_info = codes "OK";
  heads = (codes "Content-Length", codes "5") ∷ (codes "Host", codes "a") ∷ [];
  content = codes "abc";
}

page-IsSendable : IsSendable page
unfolding less
page-IsSendable = record {
  version = λ e. cc;
  code = 200;
  code_is = refl;
  code_fits = omega arith;
  info = ground arith;
  info_ne_nil = λ e. cc;
  heads = ground arith;
  sorted = ((refl, tt), (tt, tt));
}

unpack_response-pack_response_example :
    unpack_response default_response (pack_response page) ≡ some (success, page)
unfolding new_response
unpack_response-pack_response_example =
    unpack_response-pack_response page default_response page-IsSendable refl

abbrev two_chunks : Bytes
two_chunks = codes "2\r\nab\r\n0\r\n"

chunks-ne-none_example : chunks 11 two_chunks 0 [] ≢ none
chunks-ne-none_example =
    chunks-ne-none 11 two_chunks 0 [] (ground arith) (omega arith) (omega arith) (omega arith)

abbrev in_two : List Bytes
in_two = codes "ab" ∷ codes "c" ∷ []

in_two-IsChunk : All IsChunk in_two
in_two-IsChunk = ((ground arith, omega arith), ((ground arith, omega arith), tt))

abbrev in_chunks : Bytes → Response
in_chunks content = record page {
  heads = (codes "Transfer-Encoding", codes "chunked") ∷ [];
  content = content;
}

in_chunks-IsChunked : (content : Bytes) → length content < 2 ^ 63 → IsChunked (in_chunks content)
unfolding lookup equal
in_chunks-IsChunked content small = record {
  sendable = record {
    version = λ e. cc;
    code = 200;
    code_is = refl;
    code_fits = omega arith;
    info = ground arith;
    info_ne_nil = λ e. cc;
    heads = ground arith;
    sorted = (tt, tt);
  };
  no_length = refl;
  no_small_length = refl;
  encoding = refl;
  fits = small;
}

abbrev coded : Bytes
coded = codes "2\r\nab\r\n1\r\nc\r\n0\r\n\r\n"

response_unpack_and_completed-encode_example :
    response_unpack_and_completed 3 default_response (pack_response (in_chunks coded))
    ≡ some (success, in_chunks (codes "abc"))
unfolding new_response hex flatten
response_unpack_and_completed-encode_example =
    response_unpack_and_completed-encode (in_chunks coded) default_response
      (in_chunks-IsChunked coded (omega arith)) refl in_two in_two-IsChunk 3 (omega arith) refl

abbrev cut_off : Bytes
cut_off = codes "2\r\nab\r\n1\r\nc"

response_unpack_and_completed-take-encode_example :
    response_unpack_and_completed 3 default_response (pack_response (in_chunks cut_off))
    ≡ some (fail, in_chunks cut_off)
unfolding new_response hex
response_unpack_and_completed-take-encode_example =
    response_unpack_and_completed-take-encode (in_chunks cut_off) default_response
      (in_chunks-IsChunked cut_off (omega arith)) refl in_two in_two-IsChunk 3 (omega arith) 11 refl
      (omega arith)
