-- ===== src/Http/Request/Url.antt =====
-- uv/http/Request.cpp: `unpackPath` on what `packPathParam` writes.
use uv_cpp.Prelude.{
  ℕ, zero, suc, ◌+◌, ◌-◌, ◌<◌, ◌≡◌, ◌≢◌, true, false, refl, ap, sym, ◌∙◌, Bytes, [], ◌∷◌, ◌++◌,
  length, drop, get_or, none, some, arith, append-nil, Lacks, ltb, length-append, length-drop, All,
  All-append, lt→ltb, ge→ltb,
}
use mathlib.Core.Path.{subst}
use uv_cpp.Http.Text.{find}
use uv_cpp.Http.Text.Find.{find-append, find-none, sub-append, drop_next}
use uv_cpp.Http.Dict.{Dict, insert, insert_all, insert_all-nil, IsSorted}
use uv_cpp.Http.Request.{
  Request, pack_params, pop_back, question, pack_path_param, unpack_params, unpack_path,
}

-- The parameters, each behind an ampersand.
abbrev pub amp_params : Dict → Bytes
amp_params [] = []
amp_params ((k, v) ∷ ps) = b'&' ∷ (k ++ b'=' ∷ (v ++ amp_params ps))

pop_back-append :
    (xs : Bytes) (y : ℕ) (ys : Bytes) → pop_back (xs ++ y ∷ ys) ≡ xs ++ pop_back (y ∷ ys)
unfolding pop_back
pop_back-append [] y ys = refl
pop_back-append (x ∷ []) y ys = refl
pop_back-append (x ∷ z ∷ xs) y ys = ap (λ r. x ∷ r) (pop_back-append (z ∷ xs) y ys)

-- Without its last byte, the ampersand, the text of the parameters.
pop_back-pack_params :
    (k v : Bytes) (ps : Dict)
    → pop_back (pack_params ((k, v) ∷ ps)) ≡ k ++ b'=' ∷ (v ++ amp_params ps)
unfolding pack_params pop_back
pop_back-pack_params k v [] =
    pop_back-append k b'=' (v ++ b'&' ∷ []) ∙ ap (λ r. k ++ r) (pop_back-append (b'=' ∷ v) b'&' [])
pop_back-pack_params k v ((j, w) ∷ ps) =
    pop_back-append k b'=' (v ++ b'&' ∷ pack_params ((j, w) ∷ ps))
    ∙ ap (λ r. k ++ r)
        (pop_back-append (b'=' ∷ v) b'&' (pack_params ((j, w) ∷ ps))
          ∙ ap (λ r. b'=' ∷ (v ++ r))
              (pop_back-append (b'&' ∷ j) b'=' (w ++ b'&' ∷ pack_params ps)
                ∙ ap (λ r. b'&' ∷ r)
                    (sym (pop_back-append j b'=' (w ++ b'&' ∷ pack_params ps))
                      ∙ pop_back-pack_params j w ps)))

-- Names without `=` and values without `&` can be told apart.
abbrev pub IsParam : Bytes × Bytes → Type 0
IsParam (k, v) = Lacks b'=' k × Lacks b'&' v

find_value_end :
    (str v : Bytes) (ps : Dict) (p q : ℕ)
    → Lacks b'&' v
    → drop p str ≡ b'=' ∷ (v ++ amp_params ps)
    → p < length str
    → q ≡ p + 1 + length v
    → (elim (find (b'&' ∷ []) str p) as (λ _. ℕ) [ none ↦ length str | some r ↦ r ]) ≡ q
find_value_end str v [] p q h e lt eq =
    let l = length-drop p str in
    rw (find-none b'&' [] str p (rw e (omega arith, All-append _ v [] h tt)))
      (omega (arith, l, ap length e, length-append v []))
find_value_end str v ((k, w) ∷ ps) p q h e lt eq = rw (
    find-append b'&' [] str (b'=' ∷ v) (k ++ b'=' ∷ (w ++ amp_params ps)) p q e (omega arith, h)
      (omega arith))

-- A round of the loop reads one parameter, and goes on behind it.
module _ (ps : Dict) (k v : Bytes) (sep i : ℕ) (str : Bytes) where
  abbrev after_param : ℕ
  after_param = i + 1 + length k + 1 + length v

  unpack_params_round :
      (fuel : ℕ) (m : Dict)
      → sep ≢ b'='
      → Lacks b'=' k
      → Lacks b'&' v
      → drop i str ≡ sep ∷ (k ++ b'=' ∷ (v ++ amp_params ps))
      → (unpack_params (suc fuel) str i m ≡ unpack_params fuel str after_param (insert k v m))
        × (drop after_param str ≡ amp_params ps)
        × (i < length str)
  unfolding unpack_params
  unpack_params_round fuel m ne hk hv e =
      let tail = amp_params ps in
      let p = i + 1 + length k in
      let q = p + 1 + length v in
      let sizes = length-append k (b'=' ∷ (v ++ tail)) in
      let total : length str - i ≡ suc (length (k ++ b'=' ∷ (v ++ tail))) =
        omega (arith, length-drop i str, ap length e) in
      let go : ltb i (length str) ≡ true = lt→ltb i (length str) (omega arith) in
      let e1 : drop (i + 1) str ≡ k ++ b'=' ∷ (v ++ tail) =
        drop_next str (sep ∷ []) _ i (i + 1) e refl in
      let e2 : drop p str ≡ b'=' ∷ (v ++ tail) = drop_next str k _ (i + 1) p e1 refl in
      let e3 : drop (p + 1) str ≡ v ++ tail = drop_next str (b'=' ∷ []) _ p (p + 1) e2 refl in
      let e4 : drop q str ≡ tail = drop_next str v tail (p + 1) q e3 refl in
      let found : find (b'=' ∷ []) str i ≡ some p =
        find-append b'=' [] str (sep ∷ k) (v ++ tail) i p e (ne, hk) (omega arith) in
      let end = find_value_end str v ps p q hv e2 (omega (arith, sizes)) refl in
      let key = sub-append str k (b'=' ∷ (v ++ tail)) (i + 1) (p - i - 1) e1 (omega arith) in
      let value = sub-append str v tail (p + 1) (q - p - 1) e3 (omega arith) in
      let far1 : ltb (p - i) 1 ≡ false = ge→ltb (p - i) 1 (omega arith) in
      let far2 : ltb (q - p) 1 ≡ false = ge→ltb (q - p) 1 (omega arith) in
      (
        rw go (rw (found, unpack_params) (rw end (rw (far1, far2) (rw (key, value))))),
        e4,
        omega arith,
      )

-- At the end of the text the loop ends.
unpack_params_end :
    (fuel i : ℕ) (str : Bytes) (m : Dict) → drop i str ≡ [] → unpack_params fuel str i m ≡ m
unfolding unpack_params
unpack_params_end zero i str m e = refl
unpack_params_end (suc fuel) i str m e =
    let stop : ltb i (length str) ≡ false =
      ge→ltb i (length str) (omega (arith, length-drop i str, ap length e)) in
    rw stop

unpack_params-amp :
    (ps : Dict) (k v : Bytes) (sep fuel i : ℕ) (str : Bytes) (m : Dict)
    → sep ≢ b'='
    → All IsParam ((k, v) ∷ ps)
    → drop i str ≡ sep ∷ (k ++ b'=' ∷ (v ++ amp_params ps))
    → length str < i + fuel
    → unpack_params fuel str i m ≡ insert_all ((k, v) ∷ ps) m
unpack_params-amp ps k v sep zero i str m ne h e lt =
    absurd (omega (arith, (unpack_params_round ps k v sep i str 0 m ne h.0.0 h.0.1 e).2))
unpack_params-amp [] k v sep (suc fuel) i str m ne h e lt =
    let (r, e', _) = unpack_params_round [] k v sep i str fuel m ne h.0.0 h.0.1 e in
    r
    ∙ (unpack_params_end fuel (after_param [] k v sep i str) str (insert k v m) e'
        ∙ unfold insert_all in refl)
unpack_params-amp ((j, w) ∷ ps) k v sep (suc fuel) i str m ne h e lt =
    let (r, e', _) = unpack_params_round ((j, w) ∷ ps) k v sep i str fuel m ne h.0.0 h.0.1 e in
    r
    ∙ (unpack_params-amp ps j w b'&' fuel (i + 1 + length k + 1 + length v) str (insert k v m)
          (omega arith) h.1 e' (omega arith)
        ∙ unfold insert_all in refl)

-- A target that can be read back: a path that begins with a slash and holds neither colon nor
-- question mark, and sorted parameters that can be told apart and hold no colon.
pub record IsTarget (r : Request) : Type 0 where
  pub slash : get_or r.path 0 0 ≡ b'/'
  pub path_colon : Lacks b':' r.path
  pub path_question : Lacks b'?' r.path
  pub params_colon : Lacks b':' (question r.url_parms)
  pub params : All IsParam r.url_parms
  pub sorted : IsSorted r.url_parms

unpack_path-question :
    (r : Request) (path : Bytes) (ps : Dict)
    → Lacks b':' path
    → Lacks b'?' path
    → Lacks b':' (question ps)
    → All IsParam ps
    → IsSorted ps
    → unpack_path r (path ++ question ps) ≡ record r { path = path; url_parms = ps }
unfolding unpack_path question
unpack_path-question r path [] c q pc h s =
    rw append-nil
      (rw (find-none b':' [] path 0 c, unpack_path) (rw (find-none b'?' [] path 0 q, unpack_path)))
unpack_path-question r path ((k, v) ∷ ps) c q pc h s =
    let rest = k ++ b'=' ∷ (v ++ amp_params ps) in
    let tail = pop_back-pack_params k v ps in
    let str = path ++ b'?' ∷ rest in
    let colon : Lacks b':' str =
      All-append _ path (b'?' ∷ rest) c (omega arith, subst (Lacks b':') tail pc.1) in
    let no_colon = find-none b':' [] str 0 colon in
    let found : find (b'?' ∷ []) str 0 ≡ some (length path) =
      find-append b'?' [] str path rest 0 (length path) refl q (omega arith) in
    let p = sub-append str path (b'?' ∷ rest) 0 (length path) refl refl in
    let e = drop_next str path (b'?' ∷ rest) 0 (length path) refl (omega arith) in
    let params =
      unpack_params-amp ps k v b'?' (suc (length str)) (length path) str [] (omega arith) h e
        (omega arith) in
    rw tail (
      rw (no_colon, unpack_path)
        (rw (found, unpack_path) (rw (p, params) (rw (insert_all-nil ((k, v) ∷ ps) s)))))

-- A target of which the path begins with a slash and has neither colon nor question mark, with
-- sorted parameters that can be told apart and have no colon, is read back by `unpackPath` as it
-- was written by `packPathParam`.
pub unpack_path-pack_path_param :
    (r q : Request)
    → IsTarget r
    → unpack_path q (pack_path_param r) ≡ record q { path = r.path; url_parms = r.url_parms }
unfolding pack_path_param
unpack_path-pack_path_param r q t = rw t.slash (
    unpack_path-question q r.path r.url_parms t.path_colon t.path_question t.params_colon t.params
      t.sorted)
