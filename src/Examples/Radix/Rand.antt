-- ===== src/Examples/Radix/Rand.antt =====
-- examples/radix_tree/main.cpp: the test succeeds whatever the order.
use uv_cpp.Prelude.{
  ◌<◌, ◌^◌, ltb, ℕ, zero, suc, ◌+◌, ◌-◌, ◌%◌, ◌==◌, ◌≤◌, ◌≡◌, ◌≢◌, refl, ap, ◌∙◌, true, Bytes, List,
  [], ◌∷◌, length, get_or, take, set, length-set, length-take, if◌then◌else◌, some, arith, All,
  Lacks, Bool-cases, inl, inr,
}
use uv_cpp.Http.Text.{equal}
use uv_cpp.Http.Text.Find.{equal_iff}
use uv_cpp.Http.Number.{to_string_word, to_string_no_star}
use uv_cpp.Http.RadixTree
use uv_cpp.Http.RadixTree.{Tree, node, empty, found, get, get_node}
use uv_cpp.Http.RadixTree.Node.{NoWildCard}
use uv_cpp.Http.RadixTree.Lookup.{get-set}
use uv_cpp.Examples.Radix.{Kv, numbers, take_out, without, assign, fill, compare, test_rand}

-- A key that the tree can hold.
abbrev IsKey : Kv → Type 0
IsKey kv = Lacks b'*' kv.0 × (kv.0 ≢ [])

numbers-IsKey : (i cnt : ℕ) → All IsKey (numbers i cnt)
unfolding numbers
numbers-IsKey i zero = tt
numbers-IsKey i (suc cnt) = ((to_string_no_star i, (to_string_word i).2), numbers-IsKey (i + 1) cnt)

length-numbers : (i cnt : ℕ) → length (numbers i cnt) ≡ cnt
unfolding numbers
length-numbers i zero = refl
length-numbers i (suc cnt) = ap suc (length-numbers (i + 1) cnt)

module _ (P : Kv → Type 0) where
  All-get_or : (xs : List Kv) (i : ℕ) (d : Kv) → All P xs → P d → P (get_or xs i d)
  All-get_or [] i d h p = p
  All-get_or (x ∷ xs) zero d h p = h.0
  All-get_or (x ∷ xs) (suc i) d h p = All-get_or xs i d h.1 p

  All-set : (xs : List Kv) (i : ℕ) (v : Kv) → All P xs → P v → All P (set xs i v)
  All-set [] i v h p = tt
  All-set (x ∷ xs) zero v h p = (p, h.1)
  All-set (x ∷ xs) (suc i) v h p = (h.0, All-set xs i v h.1 p)

  All-take : (n : ℕ) (xs : List Kv) → All P xs → All P (take n xs)
  All-take zero xs h = tt
  All-take (suc n) [] h = tt
  All-take (suc n) (x ∷ xs) h = (h.0, All-take n xs h.1)

  All-take_out : (i : ℕ) (d : Kv) (xs : List Kv) → All P xs → P d → All P (take_out i d xs)
  unfolding take_out
  All-take_out i d xs h p = All-take _ _ (All-set xs i _ h (All-get_or xs (length xs - 1) d h p))

length-take_out : (i : ℕ) (d : Kv) (xs : List Kv) → length (take_out i d xs) ≡ length xs - 1
unfolding take_out
length-take_out i d xs =
    let v = get_or xs (length xs - 1) d in
    let n = length-set xs i v in
    let m = length-take (length xs - 1) (set xs i v) in omega (arith, n, m)

-- The tree answers the pair's key with its value.
abbrev Holds : Tree ℕ → Kv → Type 0
Holds tree kv = get tree kv.0 ≡ found kv.1

get-get_node :
    (tree : Tree ℕ) (key : Bytes) (v : ℕ) → get tree key ≡ found v → get_node tree key ≡ found v
unfolding get
get-get_node empty key v h = cc
get-get_node (node e k c n w) key v h = h

module _ (tree : Tree ℕ) (kv : Kv) (plain : NoWildCard tree) (k : IsKey kv) where
  abbrev grown : Tree ℕ
  grown = RadixTree.set tree kv.0 kv.1

  without-Holds : (m : List Kv) → All (Holds tree) m → All (Holds grown) (without kv.0 m)
  unfolding without
  without-Holds [] h = tt
  without-Holds ((j, w) ∷ m) h =
      let rest = without-Holds m h.1 in
      elim (Bool-cases (equal kv.0 j)) [
        | inl same ↦ rw same rest
        | inr other ↦
            let e = (get-set tree kv.0 kv.1 plain k.0 k.1).0 j in
            let now : get grown j ≡ found w =
              e
              ∙ (ap (λ b. if b then found kv.1 else get_node tree j) other
                  ∙ get-get_node tree j w h.0) in
            rw other (now, rest)
      ]

  assign-Holds : (m : List Kv) → All (Holds tree) m → All (Holds grown) (assign kv m)
  unfolding assign
  assign-Holds m h =
      let e = (get-set tree kv.0 kv.1 plain k.0 k.1).0 kv.0 in
      let same : equal kv.0 kv.0 ≡ true = (equal_iff kv.0 kv.0).1 refl in
      (e ∙ ap (λ b. if b then found kv.1 else get_node tree kv.0) same, without-Holds m h)

fill-Holds :
    (random : ℕ → ℕ) (fuel round : ℕ) (kvs : List Kv) (tree : Tree ℕ) (m : List Kv)
    → length kvs ≤ fuel
    → All IsKey kvs
    → NoWildCard tree
    → All (Holds tree) m
    → (tree' : Tree ℕ) × (m' : List Kv) × (fill random fuel round kvs tree m ≡ some (tree', m'))
      × All (Holds tree') m'
unfolding fill
fill-Holds random fuel round [] tree m n k plain h = (tree, m, refl, h)
fill-Holds random zero round (x ∷ xs) tree m n k plain h = absurd (omega (arith, n))
fill-Holds random (suc fuel) round (x ∷ xs) tree m n k plain h =
    let index = random round % length (x ∷ xs) in
    let kv = get_or (x ∷ xs) index x in
    let is_key = All-get_or IsKey (x ∷ xs) index x k k.0 in
    let size = length-take_out index x (x ∷ xs) in
    fill-Holds random fuel (round + 1) (take_out index x (x ∷ xs)) (RadixTree.set tree kv.0 kv.1)
      (assign kv m) (omega (arith, size, n)) (All-take_out IsKey index x (x ∷ xs) k k.0)
      (get-set tree kv.0 kv.1 plain is_key.0 is_key.1).1 (assign-Holds tree kv plain is_key m h)

compare-Holds : (tree : Tree ℕ) (m : List Kv) → All (Holds tree) m → compare tree m ≡ some true
unfolding compare
compare-Holds tree [] h = refl
compare-Holds tree ((key, v) ∷ m) h =
    let same : (v == v) ≡ true = ground arith in
    rw (h.0, compare) (rw same (compare-Holds tree m h.1))

-- On a tree without wildcards, empty or not, the test of the example succeeds for every number of
-- keys below 2 ^ 31 and whatever numbers the generator draws: the loop that takes the pairs out
-- ends, every key is found with the value it was set with, and no null root is used.
pub test_rand_lem :
    (random : ℕ → ℕ) (tree : Tree ℕ) (cnt : ℕ)
    → cnt < 2 ^ 31
    → NoWildCard tree
    → test_rand random tree cnt ≡ some true
unfolding test_rand
test_rand_lem random tree cnt few plain =
    let as_int : ltb (cnt % 2 ^ 32) (2 ^ 31) ≡ true = ground (arith, few) in
    let size = length-numbers 0 cnt in
    let (tree', m, done, h) =
      fill-Holds random cnt 0 (numbers 0 cnt) tree [] (omega (arith, size)) (numbers-IsKey 0 cnt)
        plain tt in
    rw as_int (rw (done, test_rand) (compare-Holds tree' m h))
