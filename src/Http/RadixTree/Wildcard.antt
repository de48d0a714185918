-- ===== src/Http/RadixTree/Wildcard.antt =====
-- uv/include/http/RadixTree.hpp: paths that end in a wildcard, and nodes whose key does.
use uv_cpp.Prelude.{
  ℕ, zero, suc, ◌+◌, Bool, ◌≡◌, ◌≢◌, refl, ap, ◌∙◌, false, true, Bytes, [], ◌∷◌, ◌++◌, length, take,
  arith, ◌==◌, length-append, ltb, sub64, u64_mod, ◌<◌,
}
use uv_cpp.Http.Common.{get_common_string_length}
use uv_cpp.Http.RadixTree.{
  Tree, empty, node, found, last_or, split_node, set_node, set, get_node, get,
}
use uv_cpp.Http.RadixTree.Prefix.{common}

abbrev pub star : Bytes
star = b'*' ∷ []

common-append : (p a b : Bytes) → common (p ++ a) (p ++ b) ≡ length p + common a b
unfolding get_common_string_length
common-append [] a b = omega arith
common-append (x ∷ p) a b = ground (arith, common-append p a b)

last_or-append : (p : Bytes) (x d : ℕ) → last_or (p ++ x ∷ []) d ≡ x
unfolding last_or
last_or-append [] x d = refl
last_or-append (y ∷ p) x d = last_or-append p x y

take-append : (n : ℕ) (p a : Bytes) (x : ℕ) → n ≡ length p → take (suc n) (p ++ x ∷ a) ≡ p ++ x ∷ []
take-append zero [] a x e = refl
take-append (suc n) [] a x e = absurd (omega arith)
take-append zero (y ∷ p) a x e = absurd (omega arith)
take-append (suc n) (y ∷ p) a x e = ap (◌∷◌ y) (take-append n p a x (omega arith))

module _ {A : Type 0} where
  get-star :
      (e : Bool) (p j : Bytes) (child next : Tree A) (w : A)
      → suc (length p) < u64_mod
      → common star j ≡ 0
      → get (node e (p ++ star) child next w) (p ++ j) ≡ found w
  unfolding get get_node
  get-star e p j child next w fits h =
      let c : common (p ++ star) (p ++ j) ≡ length p = common-append p star j ∙ omega arith in
      let l : length (p ++ star) ≡ suc (length p) = length-append p star ∙ omega arith in
      let one : (length p == sub64 (suc (length p)) 1) ≡ true = ground arith in
      rw (c, l, last_or-append p b'*' 0, one) refl

  -- A route that ends in a wildcard, set in an empty tree, answers every path that begins with
  -- what stands in front of the wildcard, unless the path goes on with a wildcard itself (the
  -- route is shorter than 2 ^ 64 bytes).
  pub get-set-star :
      (p j : Bytes) (v : A)
      → suc (length p) < u64_mod
      → common star j ≡ 0
      → get (set empty (p ++ star) v) (p ++ j) ≡ found v
  unfolding set set_node
  get-set-star p j v fits h = get-star false p j empty empty v fits h

  -- Two routes that have a front with a wildcard at its end in common and differ in the byte
  -- behind it: after both are set in an empty tree, every path with what stands in front of the
  -- wildcard, that does not go on with a wildcard, is answered with the value of the first route
  -- (the front is shorter than 2 ^ 64 bytes).
  pub get-set_stale :
      (p a b j : Bytes) (v w : A)
      → common a b ≡ 0
      → a ≢ []
      → b ≢ []
      → suc (length p) < u64_mod
      → common star j ≡ 0
      → get (set (set empty (p ++ b'*' ∷ a) v) (p ++ b'*' ∷ b) w) (p ++ j) ≡ found v
  unfolding set set_node split_node get_common_string_length
  get-set_stale p [] b j v w h na nb fits hj = absurd (na refl)
  get-set_stale p (x ∷ a) [] j v w h na nb fits hj = absurd (nb refl)
  get-set_stale p (x ∷ a) (y ∷ b) j v w h na nb fits hj =
      let c : common (p ++ b'*' ∷ x ∷ a) (p ++ b'*' ∷ y ∷ b) ≡ suc (length p) =
        common-append p (b'*' ∷ x ∷ a) (b'*' ∷ y ∷ b) ∙ ground (arith, h) in
      let e0 : (suc (length p) == 0) ≡ false = ground arith in
      let e1 : ltb (suc (length p)) (length (p ++ b'*' ∷ x ∷ a)) ≡ true =
        ground (arith, length-append p (b'*' ∷ x ∷ a)) in
      let e2 : (length (p ++ b'*' ∷ y ∷ b) == suc (length p)) ≡ false =
        ground (arith, length-append p (b'*' ∷ y ∷ b)) in
      rw (c, e0, e1, e2, take-append (length p) p (x ∷ a) b'*' refl)
        (get-star true p j _ empty v fits hj)
