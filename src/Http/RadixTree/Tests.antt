-- ===== src/Http/RadixTree/Tests.antt =====
-- A tree with the routes "/ab", "/ac" and "/a", and routes with wildcards.
use uv_cpp.Prelude.{ℕ, ◌≡◌, refl, Bytes, codes, arith, if◌then◌else◌, true, false}
use uv_cpp.Http.Text.{equal}
use uv_cpp.Http.Common.{get_common_string_length}
use uv_cpp.Http.RadixTree.{Tree, empty, node, found, leaf, set, get, get_node, set_node, split_node}
use uv_cpp.Http.RadixTree.Node.{NoWildCard}
use uv_cpp.Http.RadixTree.Lookup.{get-set}
use uv_cpp.Http.RadixTree.Wildcard.{get-set-star, get-set_stale}

-- What setting "/ab" to 1 and "/ac" to 2 leaves.
abbrev two_routes : Tree ℕ
two_routes = node true (codes "/a") (node false (codes "b") empty (leaf (codes "c") 2) 1) empty 1

two_routes-set : set (set empty (codes "/ab") 1) (codes "/ac") 2 ≡ two_routes
unfolding set set_node split_node get_common_string_length
two_routes-set = refl

two_routes-NoWildCard : NoWildCard two_routes
two_routes-NoWildCard = ground arith

get-set_example :
    ((j : Bytes)
      → get (set two_routes (codes "/a") 3) j
        ≡ (if equal (codes "/a") j then found 3 else get_node two_routes j))
    × NoWildCard (set two_routes (codes "/a") 3)
get-set_example =
    get-set two_routes (codes "/a") 3 two_routes-NoWildCard (omega arith, (omega arith, tt))
      (λ e. cc)

get-set-star_example : get {A = ℕ} (set empty (codes "/img/*") 1) (codes "/img/cat.png") ≡ found 1
unfolding get_common_string_length
get-set-star_example = get-set-star (codes "/img/") (codes "cat.png") 1 (omega arith) refl

get-set_stale_example :
    get {A = ℕ} (set (set empty (codes "/a*b") 1) (codes "/a*c") 2) (codes "/ax") ≡ found 1
unfolding get_common_string_length
get-set_stale_example =
    get-set_stale (codes "/a") (codes "b") (codes "c") (codes "x") 1 2 refl (λ e. cc) (λ e. cc)
      (omega arith) refl
