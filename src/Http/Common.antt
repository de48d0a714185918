-- ===== src/Http/Common.antt =====
-- uv/http/HttpCommon.cpp: versions and methods as text, the head of a message cut into lines, a start
-- line cut into words, and one header line.
pub mod Lines
pub mod Part
pub mod Words
use uv_cpp.Prelude.{
  ℕ, zero, suc, ◌+◌, ◌-◌, Bool, true, false, ◌||◌, Bytes, codes, List, [], ◌∷◌, ◌++◌, length, drop,
  ltb, ◌==◌, if◌then◌else◌, Option, none, some, Code, ok, failed,
}
use uv_cpp.Http.Text.{find, sub, equal, crlf, blank_line}
use uv_cpp.Http.Dict.{Dict, insert}

pub data ParseResult : Type 0 where
  success fail error : ParseResult

pub data HttpVersion : Type 0 where
  unknown http1_0 http1_1 : HttpVersion

pub data Methon : Type 0 where
  get post head put delete connect options trace patch invalid : Methon

unfoldable pub http_version_to_str : HttpVersion → Bytes
http_version_to_str http1_0 = codes "HTTP/1.0"
http_version_to_str http1_1 = codes "HTTP/1.1"
http_version_to_str unknown = []

unfoldable pub get_http_version : Bytes → HttpVersion
get_http_version str =
    if equal str (codes "HTTP/1.0")
    then http1_0
    else if equal str (codes "HTTP/1.1")
    then http1_1
    else unknown

-- The loop of SplitHttpOfCRLF; the fuel covers every position before `body_pos`. A line begins two
-- bytes behind the CRLF that ends the one before, so `p - first` does not go below 0.
unfoldable pub split_lines : ℕ → Bytes → ℕ → ℕ → List Bytes → List Bytes
split_lines zero str body_pos pos out = out
split_lines (suc fuel) str body_pos pos out =
    let first = if pos == 0 then 0 else pos + 2 in
    let next : List Bytes = elim (find crlf str (pos + 1)) [
      | none ↦ out
      | some p ↦ split_lines fuel str body_pos p (out ++ sub str first (p - first) ∷ [])
    ] in
    if ltb pos body_pos then next else out

-- The position of the blank line, `none` for -1, and the lines before it. The position is an `int`
-- in the source: messages are taken to be shorter than 2 GiB.
unfoldable pub split_http_of_crlf : Bytes → Option (ℕ × List Bytes)
unfolding split_lines
split_http_of_crlf str = elim (find blank_line str 0) [
  | none ↦ none
  | some body_pos ↦ some (body_pos, split_lines (suc body_pos) str body_pos 0 [])
]

-- The loop of SplitStrOfSpace with `start` for `pos + 1`, which is 0 at first, and `i` for the words
-- still to come before the last one. A space at `start` itself is passed over.
unfoldable pub split_words : ℕ → Bytes → ℕ → ℕ → List Bytes → Code × List Bytes
split_words zero str start i out = (failed, out)
split_words (suc fuel) str start zero out =
    if start == length str then (failed, out) else (ok, out ++ drop start str ∷ [])
split_words (suc fuel) str start (suc i) out = elim (find (b' ' ∷ []) str start) [
  | none ↦ (failed, out)
  | some p ↦
      let again = split_words fuel str (p + 1) (suc i) out in
      let word = split_words fuel str (p + 1) i (out ++ sub str start (p - start) ∷ []) in
      if p == start then again else word
]

-- Each round moves `start` on, so this fuel is never used up.
unfoldable pub split_str_of_space : Bytes → Code × List Bytes
unfolding split_words
split_str_of_space str = split_words (suc (suc (length str))) str 0 2 []

-- GetCommomStringLength
unfoldable pub get_common_string_length : Bytes → Bytes → ℕ
get_common_string_length [] str2 = 0
get_common_string_length (x ∷ str1) [] = 0
get_common_string_length (x ∷ str1) (y ∷ str2) =
    if x == y then suc (get_common_string_length str1 str2) else 0

unfoldable pub append_head : Bytes → Dict → Code × Dict
append_head str heads = elim (find (b':' ∷ b' ' ∷ []) str 0) [
  | none ↦ (failed, heads)
  | some pos ↦ (ok, insert (sub str 0 pos) (drop (pos + 2) str) heads)
]
