-- ===== src/Examples/Radix.antt =====
-- examples/radix_tree/main.cpp: numbers are put into a radix tree in a random order, and all of them are
-- looked up then. The generator of random numbers is a function from the round to the number drawn.
pub mod Rand
mod Tests
use uv_cpp.Prelude.{
  ℕ, zero, suc, ◌+◌, ◌-◌, ◌%◌, ◌^◌, ltb, ◌==◌, Bool, true, false, Bytes, List, [], ◌∷◌, length,
  get_or, take, set, if◌then◌else◌, Option, none, some,
}
use uv_cpp.Http.Text.{equal}
use uv_cpp.Http.Number.{pos, to_string}
use uv_cpp.Http.RadixTree
use uv_cpp.Http.RadixTree.{Tree, Answer, fault, missing, found, empty, get}

-- KV, with the key first
abbrev pub Kv : Type 0
Kv = Bytes × ℕ

-- The pairs for `cnt` numbers from `i` on.
pub numbers : ℕ → ℕ → List Kv
numbers i zero = []
numbers i (suc cnt) = (to_string (pos i), i) ∷ numbers (i + 1) cnt

-- `kvs[index] = kvs.back(); kvs.pop_back();`
pub take_out : ℕ → Kv → List Kv → List Kv
take_out index d kvs = take (length kvs - 1) (set kvs index (get_or kvs (length kvs - 1) d))

pub without : Bytes → List Kv → List Kv
without key [] = []
without key ((k, v) ∷ m) = let rest = without key m in if equal key k then rest else (k, v) ∷ rest

-- `kvMap[kv.key] = kv.value`, on a map whose order is left open.
pub assign : Kv → List Kv → List Kv
unfolding without
assign (key, v) m = (key, v) ∷ without key m

-- The loop that empties `kvs`; `none` if its fuel runs out.
pub fill : (ℕ → ℕ) → ℕ → ℕ → List Kv → Tree ℕ → List Kv → Option (Tree ℕ × List Kv)
unfolding take_out assign
fill random fuel round [] tree map = some (tree, map)
fill random zero round (x ∷ xs) tree map = none
fill random (suc fuel) round (x ∷ xs) tree map =
    let index = random round % length (x ∷ xs) in
    let kv = get_or (x ∷ xs) index x in
    fill random fuel (round + 1) (take_out index x (x ∷ xs)) (RadixTree.set tree kv.0 kv.1)
      (assign kv map)

-- The loop over the map; `none` where `get` uses a null root.
pub compare : Tree ℕ → List Kv → Option Bool
compare tree [] = some true
compare tree ((key, v) ∷ m) =
    let rest = compare tree m in
    elim (get tree key) [
      | fault ↦ none
      | missing ↦ some false
      | found w ↦ if w == v then rest else some false
    ]

-- TestRand; `none` as well for a `cnt` that is negative as an `int`, which the distribution must not have.
pub test_rand : (ℕ → ℕ) → Tree ℕ → ℕ → Option Bool
unfolding numbers fill compare
test_rand random tree cnt =
    let filled = fill random cnt 0 (numbers 0 cnt) tree [] in
    if ltb (cnt % 2 ^ 32) (2 ^ 31)
    then elim filled [ none ↦ none | some (tree', map) ↦ compare tree' map ]
    else none
