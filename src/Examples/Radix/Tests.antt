-- ===== src/Examples/Radix/Tests.antt =====
-- Twelve numbers in an order that the rounds give, in an empty tree.
use uv_cpp.Prelude.{◌*◌, ◌≡◌, true, some, arith}
use uv_cpp.Http.RadixTree.{empty}
use uv_cpp.Examples.Radix.{test_rand}
use uv_cpp.Examples.Radix.Rand.{test_rand_lem}

test_rand_lem_example : test_rand (λ round. round * 7) empty 12 ≡ some true
test_rand_lem_example = test_rand_lem (λ round. round * 7) empty 12 (omega arith) tt
