-- ===== src/Http/Request/Unpack.antt =====
-- uv/http/Request.cpp: `unpack` on what `pack` writes.
use uv_cpp.Prelude.{
  ◌+◌, ◌≡◌, ◌≢◌, refl, ap, sym, ◌∙◌, Bytes, [], ◌∷◌, ◌++◌, length, drop, map, some, ok, arith,
  append_assoc, Lacks, length-append, get_or, All, All-append,
}
use uv_cpp.Http.Text.{find, find, equal, crlf, blank_line}
use uv_cpp.Http.Text.Find.{find-append, sub-append, drop_next}
use uv_cpp.Http.Dict.{Dict, insert, insert_all, insert_all-nil, IsSorted}
use uv_cpp.Http.Common.{
  success, HttpVersion, unknown, http1_0, http1_1, Methon, get, invalid, http_version_to_str,
  get_http_version, split_str_of_space, append_head,
}
use uv_cpp.Http.Common.Lines.{IsLine, with_lines, drop-with_lines, split_http_of_crlf-append}
use uv_cpp.Http.Common.Words.{split_str_of_space-append}
use uv_cpp.Http.Request.{
  Request, methon_to_str, str_to_methon, pack_heads, question, pack_path_param, pack, unpack_path,
  url_words, unpack_url, unpack_heads, unpack_content, unpack_rest, unpack,
}
use uv_cpp.Http.Request.Url.{IsTarget, unpack_path-pack_path_param}

abbrev pub head_line : Bytes × Bytes → Bytes
head_line (k, v) = k ++ b':' ∷ b' ' ∷ v

-- A header that is read back: a name without a colon, and no CR in name or value.
abbrev pub IsHeader : Bytes × Bytes → Type 0
IsHeader (k, v) = Lacks b':' k × Lacks b'\r' k × Lacks b'\r' v

pub head_line-IsLine : (e : Bytes × Bytes) → IsHeader e → IsLine (head_line e)
head_line-IsLine (k, v) (c, a, b) =
    (All-append _ k (b':' ∷ b' ' ∷ v) a (omega arith, (omega arith, b)), λ e. ne k e)
  where
    ne : (k : Bytes) → k ++ b':' ∷ b' ' ∷ v ≡ [] → ⊥
    ne [] e = cc
    ne (x ∷ k) e = cc

pub map-head_line : (hs : Dict) → All IsHeader hs → All IsLine (map head_line hs)
map-head_line [] h = tt
map-head_line (e ∷ hs) h = (head_line-IsLine e h.0, map-head_line hs h.1)

-- The header lines of a packed message, with the end of the start line before them.
pub pack_heads-with_lines :
    (hs : Dict) (body : Bytes)
    → crlf ++ (pack_heads hs ++ (crlf ++ body)) ≡ with_lines (map head_line hs) (blank_line ++ body)
unfolding pack_heads
pack_heads-with_lines [] body = refl
pack_heads-with_lines ((k, v) ∷ hs) body =
    ap (λ r. crlf ++ r)
      (append_assoc k _ (crlf ++ body)
        ∙ (ap (λ r. k ++ b':' ∷ b' ' ∷ r)
              (append_assoc v (crlf ++ pack_heads hs) (crlf ++ body)
                ∙ ap (λ r. v ++ r) (pack_heads-with_lines hs body))
            ∙ sym (append_assoc k (b':' ∷ b' ' ∷ v) _)))

pub append_head-head_line :
    (k v : Bytes) (heads : Dict)
    → Lacks b':' k
    → append_head (head_line (k, v)) heads ≡ (ok, insert k v heads)
unfolding append_head
append_head-head_line k v heads h =
    let str = head_line (k, v) in
    let found : find (b':' ∷ b' ' ∷ []) str 0 ≡ some (length k) =
      find-append b':' (b' ' ∷ []) str k v 0 (length k) refl h (omega arith) in
    let key = sub-append str k (b':' ∷ b' ' ∷ v) 0 (length k) refl refl in
    let value : drop (length k + 2) str ≡ v =
      drop_next str (k ++ b':' ∷ b' ' ∷ []) v 0 (length k + 2)
        (sym (append_assoc k (b':' ∷ b' ' ∷ []) v))
        (omega (arith, length-append k (b':' ∷ b' ' ∷ []))) in
    rw (found, append_head) (rw (key, value))

pub unpack_heads-map :
    (hs heads : Dict)
    → All IsHeader hs
    → unpack_heads (map head_line hs) heads ≡ (ok, insert_all hs heads)
unfolding unpack_heads insert_all
unpack_heads-map [] heads h = refl
unpack_heads-map ((k, v) ∷ hs) heads h =
    let e = append_head-head_line k v heads h.0.0 in
    rw (e, unpack_heads) (rw e (unpack_heads-map hs (insert k v heads) h.1))

-- A request that is read back as it was written.
pub record IsSendable (r : Request) : Type 0 where
  pub methon : r.methon ≢ invalid
  pub version : r.version ≢ unknown
  pub target : IsTarget r
  pub target_space : Lacks b' ' (pack_path_param r)
  pub target_cr : Lacks b'\r' (pack_path_param r)
  pub heads : All IsHeader r.heads
  pub sorted : IsSorted r.heads

-- Each method but `Invalid` has a name of its own.
pub str_to_methon-methon_to_str : (m : Methon) → m ≢ invalid → str_to_methon (methon_to_str m) ≡ m
unfolding str_to_methon methon_to_str equal
str_to_methon-methon_to_str invalid h = absurd (h refl)
str_to_methon-methon_to_str get h = refl
str_to_methon-methon_to_str _ h = refl

pub get_http_version-http_version_to_str :
    (v : HttpVersion) → v ≢ unknown → get_http_version (http_version_to_str v) ≡ v
unfolding get_http_version http_version_to_str equal
get_http_version-http_version_to_str unknown h = absurd (h refl)
get_http_version-http_version_to_str http1_0 h = refl
get_http_version-http_version_to_str http1_1 h = refl

url_words_ok :
    (q : Request) (a b c : Bytes) (m : Methon)
    → str_to_methon a ≡ m
    → m ≢ invalid
    → url_words q (a ∷ b ∷ c ∷ [])
      ≡ (ok, record (unpack_path (record q { methon = m }) b) { version = get_http_version c })
unfolding url_words
url_words_ok q a b c invalid e h = absurd (h refl)
url_words_ok q a b c get e h = rw (e, url_words)
url_words_ok q a b c _ e h = rw (e, url_words)

-- The word of a method can stand at the front of a start line.
methon_to_str_word :
    (m : Methon)
    → m ≢ invalid
    → Lacks b' ' (methon_to_str m) × Lacks b'\r' (methon_to_str m) × (methon_to_str m ≢ [])
unfolding methon_to_str
methon_to_str_word invalid h = absurd (h refl)
methon_to_str_word get h = (omega arith, omega arith, cc)
methon_to_str_word _ h = (omega arith, omega arith, cc)

pub version_word :
    (v : HttpVersion)
    → v ≢ unknown
    → Lacks b' ' (http_version_to_str v)
      × Lacks b'\r' (http_version_to_str v)
      × (http_version_to_str v ≢ [])
unfolding http_version_to_str
version_word unknown h = absurd (h refl)
version_word http1_0 h = (omega arith, omega arith, cc)
version_word http1_1 h = (omega arith, omega arith, cc)

target_ne_nil : (r : Request) → IsTarget r → pack_path_param r ≢ []
unfolding pack_path_param
target_ne_nil r t = rw t.slash (λ e. path_ne_nil r.path t.slash e)
  where
    path_ne_nil : (p : Bytes) → get_or p 0 0 ≡ b'/' → p ++ question r.url_parms ≢ []
    path_ne_nil [] h e = absurd (omega arith)
    path_ne_nil (x ∷ p) h e = cc

module _ (r q : Request) (s : IsSendable r) where
  abbrev pub first_line : Bytes
  first_line =
      methon_to_str r.methon ++ b' ' ∷ (pack_path_param r ++ b' ' ∷ http_version_to_str r.version)

  pub first_line_cr : IsLine first_line
  first_line_cr =
      let (_, mc, mn) = methon_to_str_word r.methon s.methon in
      let (_, vc, _) = version_word r.version s.version in
      (
        All-append _ (methon_to_str r.methon) _ mc
            (omega arith, All-append _ (pack_path_param r) _ s.target_cr (omega arith, vc)),
        λ e. ne (methon_to_str r.methon) _ e,
      )
    where
      ne : (a b : Bytes) → a ++ b' ' ∷ b ≡ [] → ⊥
      ne [] b e = cc
      ne (x ∷ a) b e = cc

  words :
      (split_str_of_space first_line).1
      ≡ methon_to_str r.methon ∷ pack_path_param r ∷ http_version_to_str r.version ∷ []
  words =
      let (mw, _, mn) = methon_to_str_word r.methon s.methon in
      let (_, _, vn) = version_word r.version s.version in
      ap (λ x. x.1)
        (split_str_of_space-append (methon_to_str r.methon) (pack_path_param r)
          (http_version_to_str r.version) mw s.target_space mn (target_ne_nil r s.target) vn)

  start_line : unpack_url q first_line ≡ (
    ok,
    record q { version = r.version; methon = r.methon; path = r.path; url_parms = r.url_parms },
  )
  unfolding unpack_url
  start_line =
      let m = methon_to_str r.methon in
      let t = pack_path_param r in
      let v = http_version_to_str r.version in
      rw words (
        url_words_ok q m t v r.methon (str_to_methon-methon_to_str r.methon s.methon) s.methon
        ∙ rw (
          unpack_path-pack_path_param r (record q { methon = r.methon }) s.target,
          get_http_version-http_version_to_str r.version s.version,
        ))

  pub pack-with_lines :
      pack r ≡ first_line ++ with_lines (map head_line r.heads) (blank_line ++ r.content)
  unfolding pack
  pack-with_lines =
      let w = with_lines (map head_line r.heads) (blank_line ++ r.content) in
      let v = http_version_to_str r.version in
      let t = pack_path_param r in
      let m = methon_to_str r.methon in
      ap (λ x. m ++ b' ' ∷ (t ++ b' ' ∷ (v ++ x))) (pack_heads-with_lines r.heads r.content)
      ∙ (ap (λ x. m ++ b' ' ∷ x) (sym (append_assoc t (b' ' ∷ v) w))
          ∙ sym (append_assoc m (b' ' ∷ (t ++ b' ' ∷ v)) w))

  -- What `pack` writes of a request that can be sent is read back by `unpack`, into any request
  -- without heads, as the same request, but for the value, which is not sent and stays as it was.
  pub unpack-pack : q.heads ≡ [] → unpack q (pack r) ≡ some (success, record r { value = q.value })
  unfolding unpack unpack_rest unpack_content
  unpack-pack fresh =
      let ls = map head_line r.heads in
      let lines =
        split_http_of_crlf-append first_line ls r.content
          (first_line_cr, map-head_line r.heads s.heads) in
      let n = length (first_line ++ with_lines ls []) in
      let body : drop (n + 4) (first_line ++ with_lines ls (blank_line ++ r.content)) ≡ r.content =
        drop-with_lines first_line ls r.content in
      rw pack-with_lines (
        rw (lines, unpack)
          (rw start_line (
            rw fresh (
              rw (unpack_heads-map r.heads [] s.heads)
                (rw (insert_all-nil r.heads s.sorted) (rw body))))))
