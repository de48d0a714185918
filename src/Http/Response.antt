-- ===== src/Http/Response.antt =====
-- uv/http/Response.cpp: a response, how it is written and read, and when it is complete, by its
-- length or by its chunks. As in Request, `none` stands for the read of a first line that is missing.
pub mod Unpack
pub mod Chunked
pub mod Chunks
pub mod Body
pub mod Part
mod Tests
use uv_cpp.Prelude.{
  ℕ, zero, suc, ◌+◌, ◌-◌, Bool, true, false, Bytes, codes, List, [], ◌∷◌, ◌++◌, length, drop, ltb,
  ◌==◌, if◌then◌else◌, Option, none, some, Code, ok, failed, add64,
}
use uv_cpp.Http.Text.{find, sub, equal, crlf}
use uv_cpp.Http.Dict.{Dict, insert, lookup}
use uv_cpp.Http.Number.{ℤ, pos, to_u64, stoi, to_string}
use uv_cpp.Http.Common.{
  ParseResult, success, fail, error, HttpVersion, http1_1, http_version_to_str, get_http_version,
  split_http_of_crlf, split_str_of_space,
}
use uv_cpp.Http.Request.{or_empty, pack_heads, unpack_heads}

-- The named values of `StatusCode`; the field may hold any other `int` that was read.
pub data StatusCode : Type 0 where
  ok_200 bad_request unauthorized forbidden not_found internal_server_error : StatusCode
  server_unavailable : StatusCode

pub code_of : StatusCode → ℕ
code_of ok_200 = 200
code_of bad_request = 400
code_of unauthorized = 401
code_of forbidden = 403
code_of not_found = 404
code_of internal_server_error = 500
code_of server_unavailable = 503

pub record Response : Type 0 where
  pub version : HttpVersion
  pub status_code : ℤ
  pub status_info : Bytes
  pub heads : Dict
  pub content : Bytes

unfoldable pub new_response : HttpVersion → StatusCode → Response
unfolding code_of
new_response v code = record {
  version = v;
  status_code = pos (code_of code);
  status_info = [];
  heads = [];
  content = [];
}

abbrev pub default_response : Response
default_response = new_response http1_1 ok_200

set_response_version : Response → HttpVersion → Response
set_response_version r v = record r { version = v }

pub set_status : Response → StatusCode → Bytes → Response
unfolding code_of
set_status r code info = record r { status_code = pos (code_of code); status_info = info }

pub append_response_head : Response → Bytes → Bytes → Response
append_response_head r key value = record r { heads = insert key value r.heads }

pub get_response_head : Response → Bytes → Bytes
get_response_head r key = or_empty (lookup key r.heads)

-- `swapContent`: the string takes the old content.
pub swap_response_content : Response → Bytes → Response × Bytes
swap_response_content r body = (record r { content = body }, r.content)

unfoldable pub pack_response : Response → Bytes
pack_response r =
    http_version_to_str r.version
    ++ (b' '
        ∷ (to_string r.status_code
            ++ (b' ' ∷ (r.status_info ++ (crlf ++ (pack_heads r.heads ++ (crlf ++ r.content)))))))

pub status_words : Response → List Bytes → Code × Response
status_words r (a ∷ b ∷ c ∷ []) = elim (stoi 10 b) [
  | none ↦ (failed, record r { version = get_http_version a })
  | some n ↦ (ok, record r { version = get_http_version a; status_code = n; status_info = c })
]
status_words r _ = (failed, r)

pub parse_status : Response → Bytes → Code × Response
unfolding status_words
parse_status r str = status_words r (split_str_of_space str).1

pub response_content : Bytes → ℕ → Response → Code × Dict → ParseResult × Response
response_content str at r (ok, heads) =
    (success, record r { heads = heads; content = drop (at + 4) str })
response_content str at r (failed, heads) = (error, record r { heads = heads })

pub response_rest : Bytes → ℕ → List Bytes → Code × Response → ParseResult × Response
unfolding response_content
response_rest str at ls (ok, r) = response_content str at r (unpack_heads ls r.heads)
response_rest str at ls (failed, r) = (error, r)

pub unpack_response : Response → Bytes → Option (ParseResult × Response)
unfolding response_rest parse_status
unpack_response r str = elim (split_http_of_crlf str) [
  | none ↦ some (fail, r)
  | some (at, lines) ↦ elim lines [
    | [] ↦ none
    | l ∷ ls ↦ some (response_rest str at ls (parse_status r l))
  ]
]

-- The loop of isCompletedChunked from the position `p1`, with the data of the chunks so far. `none`
-- means that the fuel ran out: nothing bounds the rounds, since a negative size moves `p1` back.
-- Memory is taken to be enough for `temp`: that `+=` throws, which the loop catches as an error, is
-- left out.
pub chunks : ℕ → Bytes → ℕ → Bytes → Option (ParseResult × Bytes)
chunks zero content p1 temp = none
chunks (suc fuel) content p1 temp = elim (find crlf content (p1 + 1)) [
  | none ↦ some (fail, content)
  | some p2 ↦ elim (stoi 16 (sub content p1 (p2 - p1))) [
    | none ↦ some (error, content)
    | some n ↦
        let num = to_u64 n in
        let next = add64 (p2 + 2) num in
        let more = chunks fuel content next (temp ++ sub content (p2 + 2) num) in
        if num == 0
        then some (success, temp)
        else if ltb (length content) next
        then some (fail, content)
        else more
  ]
]

-- The result and the response with the content that is left.
pub is_completed_chunked : ℕ → Response → Option (ParseResult × Response)
unfolding chunks
is_completed_chunked fuel r = elim (chunks fuel r.content 0 []) [
  | none ↦ none
  | some (rst, content) ↦ some (rst, record r { content = content })
]

abbrev response_length : Dict → Option Bytes
response_length heads = elim (lookup (codes "Content-Length") heads) [
  | none ↦ lookup (codes "content-length") heads
  | some v ↦ some v
]

-- What follows a success of `unpack`. Without a length that can be read it is a failure, unless the
-- transfer is chunked.
pub completed_response : ℕ → Response → Option (ParseResult × Response)
unfolding is_completed_chunked
completed_response fuel r = elim (response_length r.heads) [
  | some v ↦ elim (stoi 10 v) [
    | none ↦ some (fail, r)
    | some n ↦ some (if to_u64 n == length r.content then success else fail, r)
  ]
  | none ↦ elim (lookup (codes "Transfer-Encoding") r.heads) [
    | none ↦ some (fail, r)
    | some v ↦
        let chunked = is_completed_chunked fuel r in
        if equal v (codes "chunked") then chunked else some (fail, r)
  ]
]

-- A result of `unpack` other than a success is a failure here.
pub response_unpack_and_completed : ℕ → Response → Bytes → Option (ParseResult × Response)
unfolding completed_response
response_unpack_and_completed fuel r str = elim (unpack_response r str) [
  | none ↦ none
  | some (rst, r') ↦ elim rst [ success ↦ completed_response fuel r' | _ ↦ some (fail, r') ]
]
