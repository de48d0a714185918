-- ===== src/Http/RadixTree.antt =====
-- uv/include/http/RadixTree.hpp: the tree that finds the handler of a path. The shared pointers are
-- owned by one node each, so a tree is plain data, and `empty` is `nullptr`.
pub mod Prefix
pub mod Node
pub mod Lookup
pub mod Wildcard
mod Tests
use uv_cpp.Prelude.{
  ℕ, ◌-◌, Bool, true, false, not, ◌&&◌, Bytes, [], ◌∷◌, length, take, drop, ltb, ◌==◌,
  if◌then◌else◌, sub64,
}
use uv_cpp.Http.Common.{get_common_string_length}

pub data Tree {ℓ} (A : Type ℓ) : Type ℓ where
  empty : Tree A
  node : Bool → Bytes → Tree A → Tree A → A → Tree A

-- What `get` answers: `fault` is a call through a null pointer.
pub data Answer {ℓ} (A : Type ℓ) : Type ℓ where
  fault missing : Answer A
  found : A → Answer A

-- `node->key.back()`
unfoldable pub last_or : Bytes → ℕ → ℕ
last_or [] d = d
last_or (x ∷ xs) d = last_or xs x

module _ {ℓ} {A : Type ℓ} where
  abbrev pub leaf : Bytes → A → Tree A
  leaf key value = node false key empty empty value

  -- The node is cut behind `common` bytes of its key: it keeps the front, and its child the rest. A
  -- new key that goes on hangs beside that child, and the node keeps its old value, marked empty.
  pub split_node : ℕ → Bool → Bytes → Tree A → Tree A → A → Bytes → A → Tree A
  split_node common is_empty k child next w key value =
      let front = take common k in
      let rest = drop common k in
      if length key == common
      then node false front (node is_empty rest child empty w) next value
      else node true front (node is_empty rest child (leaf (drop common key) value) w) next w

  -- A null `next` or `child` is replaced by a new leaf.
  unfoldable pub set_node : Tree A → Bytes → A → Tree A
  unfolding split_node
  set_node empty key value = leaf key value
  set_node (node is_empty k child next w) key value =
      let common = get_common_string_length k key in
      let in_next = node is_empty k child (set_node next key value) w in
      let in_child = node is_empty k (set_node child (drop common key) value) next w in
      if common == 0
      then in_next
      else if ltb common (length k)
      then split_node common is_empty k child next w key value
      else if common == length key
      then node false k child next value
      else in_child

  -- A null root is replaced by a new leaf as well.
  unfoldable pub set : Tree A → Bytes → A → Tree A
  unfolding set_node
  set root key value = set_node root key value

  -- A null `next` or `child` answers that the key is missing.
  unfoldable pub get_node : Tree A → Bytes → Answer A
  unfolding last_or
  get_node empty key = missing
  get_node (node is_empty k child next w) key =
      let common = get_common_string_length k key in
      let in_next = get_node next key in
      let in_child = get_node child (drop common key) in
      if (common == sub64 (length k) 1) && (last_or k 0 == b'*')
      then found w
      else if common == 0
      then in_next
      else if ltb common (length k)
      then missing
      else if common == length key
      then (if not is_empty then found w else missing)
      else in_child

  -- The root is not looked at before it is used.
  unfoldable pub get : Tree A → Bytes → Answer A
  unfolding get_node
  get empty key = fault
  get (node is_empty k child next w) key = get_node (node is_empty k child next w) key
