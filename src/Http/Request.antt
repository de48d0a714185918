-- ===== src/Http/Request.antt =====
-- uv/http/Request.cpp: a request, how it is written and how it is read. `unpack` reads the first of
-- a list of lines without a look whether there is one: `none` stands for that undefined behaviour.
pub mod Url
pub mod Unpack
pub mod Complete
pub mod Part
mod Tests
use uv_cpp.Prelude.{
  ℕ, zero, suc, ◌+◌, ◌-◌, Bool, true, false, ◌||◌, not, Bytes, codes, List, [], ◌∷◌, ◌++◌, length,
  take, drop, get_or, ltb, ◌==◌, if◌then◌else◌, Option, none, some, Code, ok, failed,
}
use uv_cpp.Http.Text.{find, sub, equal, crlf}
use uv_cpp.Http.Dict.{Dict, insert, lookup}
use uv_cpp.Http.Number.{to_u64, stoi}
use uv_cpp.Http.Common.{
  ParseResult, success, fail, error, HttpVersion, http1_1, Methon, get, post, head, put, delete,
  connect, options, trace, patch, invalid, http_version_to_str, get_http_version,
  split_http_of_crlf, split_str_of_space, append_head,
}

pub record Request : Type 0 where
  pub version : HttpVersion
  pub methon : Methon
  pub path : Bytes
  pub value : Bytes
  pub url_parms : Dict
  pub heads : Dict
  pub content : Bytes

-- The constructors
unfoldable pub new_request : HttpVersion → Methon → Request
new_request v m = record {
  version = v;
  methon = m;
  path = [];
  value = [];
  url_parms = [];
  heads = [];
  content = [];
}

abbrev pub default_request : Request
default_request = new_request http1_1 get

set_version : Request → HttpVersion → Request
set_version r v = record r { version = v }

set_methon : Request → Methon → Request
set_methon r m = record r { methon = m }

set_path : Request → Bytes → Request
set_path r path = record r { path = path }

-- `swapContent`: the string takes the old content.
pub swap_content : Request → Bytes → Request × Bytes
swap_content r str = (record r { content = str }, r.content)

pub append_request_head : Request → Bytes → Bytes → Request
append_request_head r key value = record r { heads = insert key value r.heads }

pub or_empty : Option Bytes → Bytes
or_empty none = []
or_empty (some v) = v

pub get_head : Request → Bytes → Bytes
unfolding or_empty
get_head r key = or_empty (lookup key r.heads)

pub append_url_param : Request → Bytes → Bytes → Request
append_url_param r key value = record r { url_parms = insert key value r.url_parms }

pub get_url_param : Request → Bytes → Bytes
unfolding or_empty
get_url_param r key = or_empty (lookup key r.url_parms)

unfoldable pub methon_to_str : Methon → Bytes
methon_to_str get = codes "GET"
methon_to_str post = codes "POST"
methon_to_str head = codes "HEAD"
methon_to_str put = codes "PUT"
methon_to_str delete = codes "DELETE"
methon_to_str connect = codes "CONNECT"
methon_to_str options = codes "OPTIONS"
methon_to_str trace = codes "TRACE"
methon_to_str patch = codes "PATCH"
methon_to_str invalid = []

pub str_to_methon : Bytes → Methon
str_to_methon str =
    if equal str (codes "GET")
    then get
    else if equal str (codes "POST")
    then post
    else if equal str (codes "HEAD")
    then head
    else if equal str (codes "PUT")
    then put
    else if equal str (codes "DELETE")
    then delete
    else if equal str (codes "CONNECT")
    then connect
    else if equal str (codes "OPTIONS")
    then options
    else if equal str (codes "TRACE")
    then trace
    else if equal str (codes "PATCH")
    then patch
    else invalid

-- The loop of packPathParam over the parameters, each with `&` behind it.
pub pack_params : Dict → Bytes
pack_params [] = []
pack_params ((k, v) ∷ ps) = k ++ (b'=' ∷ (v ++ (b'&' ∷ pack_params ps)))

-- `pop_back`
pub pop_back : Bytes → Bytes
pop_back [] = []
pop_back (x ∷ []) = []
pop_back (x ∷ y ∷ s) = x ∷ pop_back (y ∷ s)

unfoldable pub question : Dict → Bytes
question [] = []
question (p ∷ ps) = b'?' ∷ pop_back (pack_params (p ∷ ps))

-- What packPathParam appends to the text.
unfoldable pub pack_path_param : Request → Bytes
unfolding question pack_params pop_back
pack_path_param r =
    (if get_or r.path 0 0 == b'/' then [] else b'/' ∷ []) ++ (r.path ++ question r.url_parms)

unfoldable pub pack_heads : Dict → Bytes
pack_heads [] = []
pack_heads ((k, v) ∷ hs) = k ++ (b':' ∷ b' ' ∷ (v ++ (crlf ++ pack_heads hs)))

-- `data.resize(1024); data.clear()` leaves an empty string; the code returns 0 always.
unfoldable pub pack : Request → Bytes
unfolding methon_to_str pack_path_param pack_heads
pack r =
    methon_to_str r.methon
    ++ (b' '
        ∷ (pack_path_param r
            ++ (b' '
                ∷ (http_version_to_str r.version
                    ++ (crlf ++ (pack_heads r.heads ++ (crlf ++ r.content)))))))

-- The loop of unpackPath from the position `i` on. Each round moves `i` on.
pub unpack_params : ℕ → Bytes → ℕ → Dict → Dict
unpack_params zero str i params = params
unpack_params (suc fuel) str i params =
    let found : Dict = elim (find (b'=' ∷ []) str i) [
      | none ↦ params
      | some p ↦
          let q = (elim (find (b'&' ∷ []) str p) as (λ _. ℕ) [ none ↦ length str | some q ↦ q ]) in
          let key = sub str (i + 1) (p - i - 1) in
          let value = sub str (p + 1) (q - p - 1) in
          let next = unpack_params fuel str q (insert key value params) in
          if ltb (p - i) 1 then params else if ltb (q - p) 1 then params else next
    ] in
    if ltb i (length str) then found else params

pub unpack_path : Request → Bytes → Request
unfolding unpack_params
unpack_path r str = elim (find (b':' ∷ []) str 0) [
  | some pos ↦ record r {
    path = sub str 0 (pos + 1);
    value = sub str (pos + 1) (length str - pos - 1);
    url_parms = [];
  }
  | none ↦ elim (find (b'?' ∷ []) str 0) [
    | none ↦ record r { path = str; url_parms = [] }
    | some pos ↦ record r {
      path = sub str 0 pos;
      url_parms = unpack_params (suc (length str)) str pos [];
    }
  ]
]

pub url_words : Request → List Bytes → Code × Request
unfolding unpack_path str_to_methon
url_words r (a ∷ b ∷ c ∷ []) = elim (str_to_methon a) [
  | invalid ↦ (failed, record r { methon = invalid })
  | m ↦ (ok, record (unpack_path (record r { methon = m }) b) { version = get_http_version c })
]
url_words r _ = (failed, r)

pub unpack_url : Request → Bytes → Code × Request
unfolding url_words
unpack_url r str = url_words r (split_str_of_space str).1

-- The loop over the header lines, which ends at the first that is none.
pub unpack_heads : List Bytes → Dict → Code × Dict
unpack_heads [] heads = (ok, heads)
unpack_heads (l ∷ ls) heads =
    let (c, heads') = append_head l heads in
    elim c [ ok ↦ unpack_heads ls heads' | failed ↦ (failed, heads') ]

pub unpack_content : Bytes → ℕ → Request → Code × Dict → ParseResult × Request
unpack_content str pos r (ok, heads) =
    (success, record r { heads = heads; content = drop (pos + 4) str })
unpack_content str pos r (failed, heads) = (error, record r { heads = heads })

pub unpack_rest : Bytes → ℕ → List Bytes → Code × Request → ParseResult × Request
unfolding unpack_heads unpack_content
unpack_rest str pos ls (ok, r) = unpack_content str pos r (unpack_heads ls r.heads)
unpack_rest str pos ls (failed, r) = (error, r)

pub unpack : Request → Bytes → Option (ParseResult × Request)
unfolding unpack_rest unpack_url
unpack r str = elim (split_http_of_crlf str) [
  | none ↦ some (fail, r)
  | some (pos, lines) ↦ elim lines [
    | [] ↦ none
    | l ∷ ls ↦ some (unpack_rest str pos ls (unpack_url r l))
  ]
]

abbrev content_length : Dict → Option Bytes
content_length heads = elim (lookup (codes "Content-Length") heads) [
  | none ↦ lookup (codes "content-length") heads
  | some v ↦ some v
]

-- What the length that the head announces makes of a success.
pub completed : Request → ParseResult
completed r = elim (content_length r.heads) [
  | none ↦ success
  | some v ↦ elim (stoi 10 v) [
    | none ↦ success
    | some n ↦ if to_u64 n == length r.content then success else fail
  ]
]

pub unpack_and_completed : Request → Bytes → Option (ParseResult × Request)
unfolding completed
unpack_and_completed r str = elim (unpack r str) [
  | none ↦ none
  | some (rst, r') ↦ elim rst [ success ↦ some (completed r', r') | other ↦ some (other, r') ]
]
