-- ===== src/Tcp/Connections.antt =====
-- `std::map<std::string, TcpConnectionPtr>` of uv/include/TcpServer.hpp: entries in the order of their keys.
use uv_cpp.Prelude.{
  ◌≡◌, refl, false, Bytes, List, [], ◌∷◌, if◌then◌else◌, Option, none, some, arith, Bool-cases, inl,
  inr, ◌⊎◌,
}
use uv_cpp.Http.Text.{equal}
use uv_cpp.Http.Text.Find.{equal_iff}
use uv_cpp.Http.Dict.{less, less_irrefl, less_tri}

module _ {V : Type 0} where
  -- `m.find(key)`
  unfoldable pub lookup : Bytes → List (Bytes × V) → Option V
  lookup k [] = none
  lookup k ((j, w) ∷ m) = if equal j k then some w else lookup k m

  -- `m.insert(pair)`: an entry that is there stays.
  unfoldable pub emplace : Bytes → V → List (Bytes × V) → List (Bytes × V)
  emplace k v [] = (k, v) ∷ []
  emplace k v ((j, w) ∷ m) =
      if less k j
      then (k, v) ∷ (j, w) ∷ m
      else if less j k
      then (j, w) ∷ emplace k v m
      else (j, w) ∷ m

  -- `m.erase(key)`
  unfoldable pub erase : Bytes → List (Bytes × V) → List (Bytes × V)
  erase k [] = []
  erase k ((j, w) ∷ m) = if equal j k then erase k m else (j, w) ∷ erase k m

  -- The object that an entry points to has changed.
  unfoldable pub update : Bytes → V → List (Bytes × V) → List (Bytes × V)
  update k v [] = []
  update k v ((j, w) ∷ m) = if equal j k then (j, v) ∷ m else (j, w) ∷ update k v m

  pub lookup-emplace :
      (k j : Bytes) (v : V) (m : List (Bytes × V))
      → lookup k m ≡ none
      → lookup j (emplace k v m) ≡ (if equal k j then some v else lookup j m)
  unfolding lookup emplace
  lookup-emplace k j v [] h = refl
  lookup-emplace k j v ((i, w) ∷ m) h = ground (
    arith,
    less_irrefl i,
    less_tri k i,
    equal_iff i k,
    equal_iff i j,
    equal_iff k j,
    lookup-emplace k j v m,
  )

  pub lookup-erase :
      (k j : Bytes) (m : List (Bytes × V))
      → lookup j (erase k m) ≡ (if equal k j then none else lookup j m)
  unfolding lookup erase
  lookup-erase k j [] = ground arith
  lookup-erase k j ((i, w) ∷ m) =
      ground (arith, equal_iff i k, equal_iff i j, equal_iff k j, lookup-erase k j m)

  pub lookup-update :
      (k j : Bytes) (v w : V) (m : List (Bytes × V))
      → lookup k m ≡ some w
      → lookup j (update k v m) ≡ (if equal k j then some v else lookup j m)
  unfolding lookup update
  lookup-update k j v w [] h = ground arith
  lookup-update k j v w ((i, u) ∷ m) h =
      ground (arith, equal_iff i k, equal_iff i j, equal_iff k j, lookup-update k j v w m)

  pub lookup-update_cases :
      (k j : Bytes) (v w u : V) (m : List (Bytes × V))
      → lookup k m ≡ some w
      → lookup j (update k v m) ≡ some u
      → ((k ≡ j) × (u ≡ v)) ⊎ ((equal k j ≡ false) × (lookup j m ≡ some u))
  lookup-update_cases k j v w u m h e = elim (Bool-cases (equal k j)) [
    | inl same ↦ inl ((equal_iff k j).0 same, ground (arith, same, e, lookup-update k j v w m h))
    | inr other ↦ inr (other, ground (arith, other, e, lookup-update k j v w m h))
  ]

  pub lookup-update_self :
      (k : Bytes) (v w : V) (m : List (Bytes × V))
      → lookup k m ≡ some w
      → lookup k (update k v m) ≡ some v
  lookup-update_self k v w m h = ground (arith, lookup-update k k v w m h, (equal_iff k k).1 refl)
