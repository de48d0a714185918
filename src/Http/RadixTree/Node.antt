-- ===== src/Http/RadixTree/Node.antt =====
-- What a node answers, before and after its key is cut.
use uv_cpp.Prelude.{
  ℕ, ◌-◌, ◌≤◌, ◌<◌, ◌≡◌, ◌≢◌, refl, ◌∙◌, Bool, false, true, not, Bytes, [], ◌∷◌, length, take, drop,
  arith, ◌==◌, ltb, if◌then◌else◌, Lacks, All-take, All-drop, length-take, length-drop, drop-drop,
  Bool-cases, inl, inr,
}
use uv_cpp.Http.Text.{equal}
use uv_cpp.Http.RadixTree.{Tree, empty, node, missing, found, last_or, leaf, get_node}
use uv_cpp.Http.RadixTree.Prefix.{
  common, common-le, common-take, common-drop, equal-drop, equal-common, common-equal,
}

-- No key of the tree holds a wildcard.
abbrev pub NoWildCard : {A : Type 0} → Tree A → Type 0
NoWildCard empty = Unit
NoWildCard (node e k child next w) = Lacks b'*' k × NoWildCard child × NoWildCard next

last_or_ne : (b d : ℕ) (xs : Bytes) → Lacks b xs → d ≢ b → last_or xs d ≢ b
unfolding last_or
last_or_ne b d [] h ne = ne
last_or_ne b d (x ∷ xs) h ne = last_or_ne b x xs h.1 h.0

-- Two texts with a common front of the length of the first, and nothing behind it.
pub equal_ends :
    (n : ℕ) (k a b : Bytes)
    → n ≤ common k a
    → n ≤ common k b
    → length a ≡ n
    → length b ≡ n
    → equal a b ≡ true
equal_ends n k a b p q la lb =
    equal-drop n k a b p q
    ∙ (let da = length-drop n a in
        let db = length-drop n b in
        common-equal (drop n a) (drop n b) (omega (arith, common-le (drop n a) (drop n b)))
          (omega arith))

pub cut_back : (n : ℕ) (key : Bytes) → Lacks b'*' key → Lacks b'*' (drop n key)
cut_back n key h = All-drop (λ x. x ≢ b'*') n key h

module _ {A : Type 0} where
  pub get_empty : (i : Bytes) → get_node {A = A} empty i ≡ missing
  unfolding get_node
  get_empty i = refl

  -- What a node without a wildcard answers.
  pub get_node_plain :
      (e : Bool) (k : Bytes) (child next : Tree A) (w : A) (key : Bytes)
      → Lacks b'*' k
      → get_node (node e k child next w) key ≡ (
          if common k key == 0
          then get_node next key
          else if ltb (common k key) (length k)
          then missing
          else if common k key == length key
          then (if not e then found w else missing)
          else get_node child (drop (common k key) key))
  unfolding get_node
  get_node_plain e k child next w key h = ground (arith, last_or_ne b'*' 0 k h)

  pub get_leaf :
      (key j : Bytes) (v : A)
      → Lacks b'*' key
      → key ≢ []
      → get_node (leaf key v) j ≡ (if equal key j then found v else missing)
  unfolding get_node
  get_leaf [] j v h ne = absurd (ne refl)
  get_leaf (x ∷ key) j v h ne =
      get_node_plain false (x ∷ key) empty empty v j h
      ∙ ground (arith, equal-common (x ∷ key) j, common-equal (x ∷ key) j, common-le (x ∷ key) j)

  module _ (e : Bool) (k : Bytes) (child next : Tree A) (w : A) (j : Bytes)
      (hk : Lacks b'*' k) where
    -- What the children of a cut node answer.
    pub get_rest :
        (sibling : Tree A) (n : ℕ)
        → n ≤ common k j
        → n < length k
        → get_node (node e (drop n k) child sibling w) (drop n j) ≡ (
            if common k j == n
            then get_node sibling (drop n j)
            else if ltb (common k j) (length k)
            then missing
            else if common k j == length j
            then (if not e then found w else missing)
            else get_node child (drop (common k j) j))
    get_rest sibling n le lt =
        let plain =
          get_node_plain e (drop n k) child sibling w (drop n j)
            (All-drop (λ x. x ≢ b'*') n k hk) in
        let again : drop (common k j - n) (drop n j) ≡ drop (common k j) j =
          drop-drop n (common k j - n) (common k j) j (omega arith) in
        let c0 : (common k j - n == 0) ≡ (common k j == n) = ground arith in
        let c1 : ltb (common k j - n) (length k - n) ≡ ltb (common k j) (length k) = ground arith in
        let c2 : (common k j - n == length j - n) ≡ (common k j == length j) =
          ground (arith, common-le k j) in
        plain ∙ rw (common-drop n k j le, again, length-drop n k, length-drop n j, c0, c1, c2) refl

    -- What the front of a cut node answers.
    pub get_front :
        (f : Bool) (below : Tree A) (u : A) (n : ℕ)
        → 0 < n
        → n ≤ length k
        → get_node (node f (take n k) below next u) j ≡ (
            if common k j == 0
            then get_node next j
            else if ltb (common k j) n
            then missing
            else if n == length j
            then (if not f then found u else missing)
            else get_node below (drop n j))
    get_front f below u n pos le =
        let plain = get_node_plain f (take n k) below next u j (All-take (λ x. x ≢ b'*') n k hk) in
        let len : length (take n k) ≡ n = length-take n k ∙ omega arith in
        let cut : n ≤ common k j → common (take n k) j ≡ n = λ h. common-take n k j ∙ omega arith in
        let below_cut : common k j < n → common (take n k) j ≡ common k j =
          λ h. common-take n k j ∙ omega arith in
        elim (Bool-cases (ltb (common k j) n)) [
          | inl lt ↦ plain ∙ rw (below_cut (ground arith), len) (ground arith)
          | inr ge ↦ plain ∙ rw (cut (ground arith), len) (ground arith)
        ]
