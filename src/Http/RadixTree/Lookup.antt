-- ===== src/Http/RadixTree/Lookup.antt =====
-- uv/include/http/RadixTree.hpp: `set` and `get` on trees without wildcards, one case of `setNode`
-- after the other.
use uv_cpp.Prelude.{
  ◌<◌, ◌≡◌, ◌≢◌, refl, ap, sym, ◌∙◌, Bool, false, true, Bytes, [], length, take, drop, arith, ◌==◌,
  ltb, if◌then◌else◌, Lacks, All-take, All-drop, length-drop, Bool-cases, inl, inr,
}
use uv_cpp.Http.Text.{equal}
use uv_cpp.Http.RadixTree.{Tree, empty, node, found, leaf, split_node, set_node, set, get_node, get}
use uv_cpp.Http.RadixTree.Prefix.{
  common, common-le, equal-drop, equal-false, equal-length, common_whole, equal-common,
  common-equal,
}
use uv_cpp.Http.RadixTree.Node.{
  NoWildCard, cut_back, equal_ends, get_empty, get_node_plain, get_leaf, get_rest, get_front,
}

module _ {A : Type 0} where
  module _ (e : Bool) (k : Bytes) (child next : Tree A) (w : A) (key j : Bytes) (v : A)
      (hk : Lacks b'*' k) (hkey : Lacks b'*' key) where
    -- The new key goes to the siblings.
    in_next :
        common k key ≡ 0
        → get_node (set_node next key v) j ≡ (if equal key j then found v else get_node next j)
        → get_node (set_node (node e k child next w) key v) j
          ≡ (if equal key j then found v else get_node (node e k child next w) j)
    unfolding set_node
    in_next z ih = rw z (
        get_node_plain e k child (set_node next key v) w j hk
        ∙ ground (arith, ih, get_node_plain e k child next w j hk, equal-false k key j))

    -- The new key is the key of the node.
    in_node :
        0 < common k key
        → common k key ≡ length k
        → common k key ≡ length key
        → get_node (set_node (node e k child next w) key v) j
          ≡ (if equal key j then found v else get_node (node e k child next w) j)
    unfolding set_node
    in_node pos h l =
        let same = common_whole k key h (omega arith) in
        let set_it : set_node (node e k child next w) key v ≡ node false k child next v =
          ground arith in
        rw set_it (
          get_node_plain false k child next v j hk
          ∙ ground (
            arith,
            get_node_plain e k child next w j hk,
            equal-common key j,
            common-equal key j,
            ap (λ x. common x j) same,
            common-le k j,
          ))

    -- The new key goes on behind the key of the node.
    in_child :
        0 < common k key
        → common k key ≡ length k
        → common k key ≢ length key
        → ((i : Bytes)
            → get_node (set_node child (drop (length k) key) v) i
              ≡ (if equal (drop (length k) key) i then found v else get_node child i))
        → get_node (set_node (node e k child next w) key v) j
          ≡ (if equal key j then found v else get_node (node e k child next w) j)
    unfolding set_node
    in_child pos h l ih =
        let sub = set_node child (drop (length k) key) v in
        let e0 : (common k key == 0) ≡ false = ground arith in
        let e1 : ltb (common k key) (length k) ≡ false = ground arith in
        let e2 : (common k key == length key) ≡ false = ground arith in
        let set_it : set_node (node e k child next w) key v ≡ node e k sub next w =
          rw (e0, e1, e2, h) refl in
        let new = get_node_plain e k sub next w j hk in
        let old = get_node_plain e k child next w j hk in
        let ihj = ih (drop (common k j) j) in
        let differ : common k j ≢ length k → equal key j ≡ false =
          λ n. equal-false k key j (λ c. n (sym c ∙ h)) in
        let beyond : common k j ≡ length k
            → equal (drop (length k) key) (drop (common k j) j) ≡ equal key j =
          λ c. rw c (sym (equal-drop (length k) k key j (omega arith) (omega arith))) in
        rw set_it
          (new ∙ ground (arith, old, ihj, differ, beyond, equal-length key j, common-le k j))

    -- The key of the node is cut, and the new key ends there.
    in_split_end :
        0 < common k key
        → common k key < length k
        → length key ≡ common k key
        → get_node (set_node (node e k child next w) key v) j
          ≡ (if equal key j then found v else get_node (node e k child next w) j)
    unfolding set_node split_node
    in_split_end pos lt full =
        let n = common k key in
        let e0 : (common k key == 0) ≡ false = ground arith in
        let e1 : ltb (common k key) (length k) ≡ true = ground arith in
        let e2 : (length key == common k key) ≡ true = ground arith in
        let set_it : set_node (node e k child next w) key v
            ≡ node false (take n k) (node e (drop n k) child empty w) next v =
          rw (e0, e1, e2) refl in
        let old = get_node_plain e k child next w j hk in
        let front =
          get_front e k child next w j hk false (node e (drop n k) child empty w) v n pos
            (omega arith) in
        rw set_it (
          front ∙ elim (Bool-cases (ltb (common k j) n)) [
            | inl less ↦ ground (arith, old, equal-false k key j)
            | inr more ↦
                let rest = get_rest e k child next w j hk empty n (ground arith) lt in
                elim (Bool-cases (common k j == n)) [
                  | inl same ↦
                      let ends = equal_ends n k key j (omega arith) (ground arith) full in
                      ground
                        (arith, old, rest, ends, get_empty {A = A} (drop n j), equal-length key j)
                  | inr other ↦ ground (arith, old, rest, equal-false k key j, common-le k j)
                ]
          ])

    -- The key of the node is cut, and the new key goes on.
    in_split_on :
        0 < common k key
        → common k key < length k
        → length key ≢ common k key
        → get_node (set_node (node e k child next w) key v) j
          ≡ (if equal key j then found v else get_node (node e k child next w) j)
    unfolding set_node split_node
    in_split_on pos lt part =
        let n = common k key in
        let e0 : (common k key == 0) ≡ false = ground arith in
        let e1 : ltb (common k key) (length k) ≡ true = ground arith in
        let e2 : (length key == common k key) ≡ false = ground arith in
        let new = leaf (drop n key) v in
        let set_it : set_node (node e k child next w) key v
            ≡ node true (take n k) (node e (drop n k) child new w) next w =
          rw (e0, e1, e2) refl in
        let old = get_node_plain e k child next w j hk in
        let front =
          get_front e k child next w j hk true (node e (drop n k) child new w) w n pos
            (omega arith) in
        rw set_it (
          front ∙ elim (Bool-cases (ltb (common k j) n)) [
            | inl less ↦ ground (arith, old, equal-false k key j)
            | inr more ↦
                let rest = get_rest e k child next w j hk new n (ground arith) lt in
                elim (Bool-cases (common k j == n)) [
                  | inl same ↦
                      let more_key : drop n key ≢ [] = λ d.
                        part (omega (arith, ap length d, length-drop n key, common-le k key)) in
                      let it =
                        get_leaf (drop n key) (drop n j) v (All-drop (λ x. x ≢ b'*') n key hkey)
                          more_key in
                      let drops = equal-drop n k key j (omega arith) (ground arith) in
                      ground (arith, old, rest, it, drops, equal-length key j)
                  | inr other ↦ ground (arith, old, rest, equal-false k key j, common-le k j)
                ]
          ])

  pub get_node-set_node :
      (t : Tree A) (key : Bytes) (v : A) (j : Bytes)
      → NoWildCard t
      → Lacks b'*' key
      → key ≢ []
      → get_node (set_node t key v) j ≡ (if equal key j then found v else get_node t j)
  unfolding set_node
  get_node-set_node empty key v j ht hkey ne =
      get_leaf key j v hkey ne ∙ ground (arith, get_empty {A = A} j)
  get_node-set_node (node e k child next w) key v j (hk, hc, hn) hkey ne =
      let n = common k key in
      let le = common-le k key in
      elim (Bool-cases (n == 0)) [
        | inl z ↦
            in_next e k child next w key j v hk hkey (ground arith)
              (get_node-set_node next key v j hn hkey ne)
        | inr nz ↦ elim (Bool-cases (ltb n (length k))) [
          | inl cut ↦ elim (Bool-cases (length key == n)) [
            | inl full ↦
                in_split_end e k child next w key j v hk hkey (ground arith) (ground arith)
                  (ground arith)
            | inr part ↦
                in_split_on e k child next w key j v hk hkey (ground arith) (ground arith)
                  (ground arith)
          ]
          | inr whole ↦ elim (Bool-cases (n == length key)) [
            | inl same ↦
                in_node e k child next w key j v hk hkey (ground arith) (ground (arith, le))
                  (ground arith)
            | inr more ↦
                let ne' : drop (length k) key ≢ [] =
                  λ d. absurd (ground (arith, le, ap length d, length-drop (length k) key)) in
                in_child e k child next w key j v hk hkey (ground arith) (ground (arith, le))
                  (ground arith)
                  (λ i.
                    get_node-set_node child (drop (length k) key) v i hc
                      (All-drop (λ x. x ≢ b'*') (length k) key hkey) ne')
          ]
        ]
      ]

  -- A tree without wildcards stays so when a path without one is set.
  set_node-NoWildCard :
      (t : Tree A) (key : Bytes) (v : A)
      → NoWildCard t
      → Lacks b'*' key
      → NoWildCard (set_node t key v)
  unfolding set_node split_node
  set_node-NoWildCard empty key v ht hkey = (hkey, tt, tt)
  set_node-NoWildCard (node e k child next w) key v (hk, hc, hn) hkey =
      let n = common k key in
      let down = set_node-NoWildCard child (drop n key) v hc (cut_back n key hkey) in
      let along = set_node-NoWildCard next key v hn hkey in
      elim (Bool-cases (n == 0)) [
        | inl z ↦ rw z (hk, hc, along)
        | inr nz ↦ elim (Bool-cases (ltb n (length k))) [
          | inl cut ↦ elim (Bool-cases (length key == n)) [
            | inl full ↦
                rw (nz, cut, full) (All-take (λ x. x ≢ b'*') n k hk, (cut_back n k hk, hc, tt), hn)
            | inr part ↦
                rw (nz, cut, part)
                  (
                    All-take (λ x. x ≢ b'*') n k hk,
                    (cut_back n k hk, hc, (cut_back n key hkey, tt, tt)),
                    hn,
                  )
          ]
          | inr whole ↦ elim (Bool-cases (n == length key)) [
            | inl same ↦ rw (nz, whole, same) (hk, hc, hn)
            | inr more ↦ rw (nz, whole, more) (hk, down, hn)
          ]
        ]
      ]

  -- The root of a tree that something was set in is a node.
  get_of_set :
      (root : Tree A) (key j : Bytes) (v : A)
      → get (set root key v) j ≡ get_node (set_node root key v) j
  unfolding get set set_node split_node
  get_of_set empty key j v = refl
  get_of_set (node e k child next w) key j v =
      let n = common k key in
      elim (Bool-cases (n == 0)) [
        | inl z ↦ rw z refl
        | inr nz ↦ elim (Bool-cases (ltb n (length k))) [
          | inl cut ↦ elim (Bool-cases (length key == n)) [
            | inl full ↦ rw (nz, cut, full) refl
            | inr part ↦ rw (nz, cut, part) refl
          ]
          | inr whole ↦ elim (Bool-cases (n == length key)) [
            | inl same ↦ rw (nz, whole, same) refl
            | inr more ↦ rw (nz, whole, more) refl
          ]
        ]
      ]

  -- After a path that is not empty and has no wildcard is set in a tree without wildcards, `get`
  -- finds that path with the value it was set with and answers every other path as before (where
  -- an empty tree answers that the path is missing), and the tree still has no wildcard.
  pub get-set :
      (root : Tree A) (key : Bytes) (v : A)
      → NoWildCard root
      → Lacks b'*' key
      → key ≢ []
      → ((j : Bytes) → get (set root key v) j ≡ (if equal key j then found v else get_node root j))
        × NoWildCard (set root key v)
  unfolding get set
  get-set root key v h hkey ne = (
    λ j. get_of_set root key j v ∙ get_node-set_node root key v j h hkey ne,
    set_node-NoWildCard root key v h hkey,
  )
