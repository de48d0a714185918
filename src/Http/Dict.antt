-- ===== src/Http/Dict.antt =====
-- `std::map<std::string, std::string>`: the entries in the order of their keys.
use uv_cpp.Prelude.{
  ◌≡◌, refl, sym, append-nil, ◌∙◌, Bool, true, false, ◌&&◌, ◌||◌, Bytes, List, [], ◌∷◌, ◌++◌, ltb,
  ◌==◌, if◌then◌else◌, Option, none, some, arith, All, All-append, append_assoc,
}
use uv_cpp.Http.Text.{equal}
use uv_cpp.Http.Text.Find.{equal_iff}

abbrev pub Dict : Type 0
Dict = List (Bytes × Bytes)

-- The order of `std::string`, byte by byte.
unfoldable pub less : Bytes → Bytes → Bool
less [] [] = false
less [] (y ∷ b) = true
less (x ∷ a) [] = false
less (x ∷ a) (y ∷ b) = ltb x y || ((x == y) && less a b)

-- `m.find(key)`
unfoldable pub lookup : Bytes → Dict → Option Bytes
lookup k [] = none
lookup k ((j, w) ∷ m) = if equal j k then some w else lookup k m

-- `m[key] = value`
unfoldable pub insert : Bytes → Bytes → Dict → Dict
insert k v [] = (k, v) ∷ []
insert k v ((j, w) ∷ m) =
    if less k j then (k, v) ∷ (j, w) ∷ m else if less j k then (j, w) ∷ insert k v m else (k, v) ∷ m

-- The entries stand in the order of their keys, and no key twice.
abbrev pub IsSorted : Dict → Type 0
IsSorted [] = Unit
IsSorted (e ∷ m) = All (λ f. less e.0 f.0 ≡ true) m × IsSorted m

less_asymm : (a b : Bytes) → less a b ≡ true → less b a ≡ false
unfolding less
less_asymm [] [] h = cc
less_asymm [] (y ∷ b) h = refl
less_asymm (x ∷ a) [] h = cc
less_asymm (x ∷ a) (y ∷ b) h = ground (arith, less_asymm a b)

pub less_irrefl : (a : Bytes) → less a a ≡ false
unfolding less
less_irrefl [] = refl
less_irrefl (x ∷ a) = ground (arith, less_irrefl a)

pub less_tri : (a b : Bytes) → less a b ≡ false → less b a ≡ false → a ≡ b
unfolding less
less_tri [] [] h k = refl
less_tri [] (y ∷ b) h k = cc
less_tri (x ∷ a) [] h k = cc
less_tri (x ∷ a) (y ∷ b) h k = ground (arith, less_tri a b)

less_trans : (a b c : Bytes) → less a b ≡ true → less b c ≡ true → less a c ≡ true
unfolding less
less_trans [] [] c h k = cc
less_trans [] (y ∷ b) [] h k = cc
less_trans [] (y ∷ b) (z ∷ c) h k = refl
less_trans (x ∷ a) [] c h k = cc
less_trans (x ∷ a) (y ∷ b) [] h k = cc
less_trans (x ∷ a) (y ∷ b) (z ∷ c) h k = ground (arith, less_trans a b c)

-- A write is seen by every later read, and by no read of another key.
pub lookup-insert :
    (k j v : Bytes) (m : Dict)
    → lookup j (insert k v m) ≡ (if equal k j then some v else lookup j m)
unfolding lookup insert
lookup-insert k j v [] = refl
lookup-insert k j v ((i, w) ∷ m) =
    ground (arith, less_irrefl i, less_tri k i, equal_iff i j, equal_iff k j, lookup-insert k j v m)

insert-All :
    (a k v : Bytes) (m : Dict)
    → less a k ≡ true
    → All (λ f. less a f.0 ≡ true) m
    → All (λ f. less a f.0 ≡ true) (insert k v m)
unfolding insert
insert-All a k v [] h t = (h, tt)
insert-All a k v ((j, w) ∷ m) h t = ground (arith, insert-All a k v m)

All-less :
    (a b : Bytes) (m : Dict)
    → less a b ≡ true
    → All (λ f. less b f.0 ≡ true) m
    → All (λ f. less a f.0 ≡ true) m
All-less a b [] h t = tt
All-less a b ((j, w) ∷ m) h t = (less_trans a b j h t.0, All-less a b m h t.1)

pub insert-IsSorted : (k v : Bytes) (m : Dict) → IsSorted m → IsSorted (insert k v m)
unfolding insert
insert-IsSorted k v [] s = (tt, tt)
insert-IsSorted k v ((j, w) ∷ m) s =
    ground (arith, All-less k j m, less_tri k j, insert-All j k v m, insert-IsSorted k v m)

-- A key above all others goes to the end.
pub insert_last :
    (k v : Bytes) (m : Dict) → All (λ f. less f.0 k ≡ true) m → insert k v m ≡ m ++ (k, v) ∷ []
unfolding insert
insert_last k v [] h = refl
insert_last k v ((j, w) ∷ m) h = ground (arith, less_asymm j k, insert_last k v m)

-- `m[k] = v` for each entry in turn.
unfoldable pub insert_all : Dict → Dict → Dict
insert_all [] m = m
insert_all ((k, v) ∷ es) m = insert_all es (insert k v m)

-- All entries of `m` come before all of `es`.
abbrev Before : Dict → Dict → Type 0
Before m [] = Unit
Before m (e ∷ es) = All (λ f. less f.0 e.0 ≡ true) m × Before m es

Before-concat :
    (m es : Dict) (e : Bytes × Bytes)
    → Before m es
    → All (λ f. less e.0 f.0 ≡ true) es
    → Before (m ++ e ∷ []) es
Before-concat m [] e b h = tt
Before-concat m (f ∷ es) e b h =
    (All-append _ m (e ∷ []) b.0 (h.0, tt), Before-concat m es e b.1 h.1)

insert_all-append : (es m : Dict) → IsSorted es → Before m es → insert_all es m ≡ m ++ es
unfolding insert_all
insert_all-append [] m s b = sym (append-nil m)
insert_all-append ((k, v) ∷ es) m s b = rw (insert_last k v m b.0) (
    insert_all-append es (m ++ (k, v) ∷ []) s.1 (Before-concat m es (k, v) b.1 s.0)
    ∙ append_assoc m ((k, v) ∷ []) es)

Before-nil : (es : Dict) → Before [] es
Before-nil [] = tt
Before-nil (e ∷ es) = (tt, Before-nil es)

-- A map written out in order is rebuilt by inserting its entries.
pub insert_all-nil : (es : Dict) → IsSorted es → insert_all es [] ≡ es
insert_all-nil es s = insert_all-append es [] s (Before-nil es)
