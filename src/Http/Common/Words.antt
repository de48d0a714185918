-- ===== src/Http/Common/Words.antt =====
-- The start line of a message: three words with spaces between them.
use uv_cpp.Prelude.{
  ◌==◌, false, ℕ, zero, suc, ◌+◌, ◌-◌, ◌<◌, ◌≡◌, ◌≢◌, refl, ap, sym, ◌∙◌, Bytes, List, [], ◌∷◌,
  ◌++◌, length, drop, ok, arith, append_assoc, Lacks, length-append, length-drop,
}
use uv_cpp.Http.Text.Find.{find-append, sub-append, drop_next}
use uv_cpp.Http.Common.{split_words, split_str_of_space}

-- A word that lacks a space, and is not empty, is cut off.
split_words-cons :
    (fuel start i q : ℕ) (str word rest : Bytes) (out : List Bytes)
    → Lacks b' ' word
    → word ≢ []
    → drop start str ≡ word ++ b' ' ∷ rest
    → q ≡ start + length word + 1
    → split_words (suc fuel) str start (suc i) out ≡ split_words fuel str q i (out ++ word ∷ [])
unfolding split_words
split_words-cons fuel start i q str [] rest out l ne e eq = absurd (ne refl)
split_words-cons fuel start i q str (x ∷ word) rest out l ne e eq =
    let p = start + length (x ∷ word) in
    let f = find-append b' ' [] str (x ∷ word) rest start p e l refl in
    let far : (p == start) ≡ false = ground arith in
    let w = sub-append str (x ∷ word) (b' ' ∷ rest) start (p - start) e (omega arith) in
    rw (f, split_words) (rw far (rw (w, eq)))

-- What is left when two words have been found is the third, if anything is left.
split_words_last :
    (fuel start : ℕ) (str word : Bytes) (out : List Bytes)
    → 0 < fuel
    → drop start str ≡ word
    → word ≢ []
    → split_words fuel str start 0 out ≡ (ok, out ++ word ∷ [])
unfolding split_words
split_words_last zero start str word out h e ne = absurd (omega arith)
split_words_last (suc fuel) start str [] out h e ne = absurd (ne refl)
split_words_last (suc fuel) start str (x ∷ word) out h e ne =
    let more : (start == length str) ≡ false = ground (arith, length-drop start str, ap length e) in
    rw (more, e)

-- Three words that are not empty, the first two without a space, are read back.
pub split_str_of_space-append :
    (a b c : Bytes)
    → Lacks b' ' a
    → Lacks b' ' b
    → a ≢ []
    → b ≢ []
    → c ≢ []
    → split_str_of_space (a ++ b' ' ∷ (b ++ b' ' ∷ c)) ≡ (ok, a ∷ b ∷ c ∷ [])
unfolding split_str_of_space
split_str_of_space-append a b c la lb na nb nc =
    let str = a ++ b' ' ∷ (b ++ b' ' ∷ c) in
    let p = length a + 1 in
    let q = p + length b + 1 in
    let l = length str in
    let long : 0 < l = omega (arith, length-append a (b' ' ∷ (b ++ b' ' ∷ c))) in
    let e1 : drop p str ≡ b ++ b' ' ∷ c =
      drop_next str (a ++ b' ' ∷ []) (b ++ b' ' ∷ c) 0 p (sym (append_assoc a (b' ' ∷ []) _))
        (omega (arith, length-append a (b' ' ∷ []))) in
    let e2 : drop q str ≡ c =
      drop_next str (b ++ b' ' ∷ []) c p q (e1 ∙ sym (append_assoc b (b' ' ∷ []) c))
        (omega (arith, length-append b (b' ' ∷ []))) in
    split_words-cons (suc l) 0 1 p str a (b ++ b' ' ∷ c) [] la na refl (omega arith)
    ∙ split_words-cons l p 0 q str b c (a ∷ []) lb nb e1 refl
    ∙ split_words_last l q str c (a ∷ b ∷ []) long e2 nc
