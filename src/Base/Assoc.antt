-- ===== src/Base/Assoc.antt =====
-- The unordered containers: a map is a list of pairs and a set a list of keys.
use Prim.Native.Nat.{suc, ◌≤◌}
use mathlib.Core.Path.{◌≡◌, refl}
use mathlib.Core.Bool.{Bool, false, ◌||◌, ◌&&◌, not}
use mathlib.Core.List.{List, [], ◌∷◌}
use mathlib.Core.Option.{Option, none, some}
use native.Mathlib.Omega.{arith}
use cpp_chat_channel.Base.Tests.{if◌then◌else◌}
use cpp_chat_channel.Base.Lists.{length}
use cpp_chat_channel.Base.Eq.{Eq, ◌==◌, ==_iff}

module _ {ℓ κ} {K : Type ℓ} {V : Type κ} ⦃e : Eq K⦄ where
  -- m.find(key)
  unfoldable pub lookup : K → List (K × V) → Option V
  lookup key [] = none
  lookup key ((k, v) ∷ entries) = if k == key then some v else lookup key entries

  -- m[key] = value
  unfoldable pub insert : K → V → List (K × V) → List (K × V)
  insert key value [] = (key, value) ∷ []
  insert key value ((k, v) ∷ entries) =
      if k == key then (k, value) ∷ entries else (k, v) ∷ insert key value entries

  -- m.emplace(key, value): a key that is there keeps its value.
  unfoldable pub emplace : K → V → List (K × V) → List (K × V)
  emplace key value [] = (key, value) ∷ []
  emplace key value ((k, v) ∷ entries) =
      if k == key then (k, v) ∷ entries else (k, v) ∷ emplace key value entries

  -- m.erase(k)
  unfoldable pub erase_key : K → List (K × V) → List (K × V)
  erase_key k [] = []
  erase_key k ((j, w) ∷ m) = let rest = erase_key k m in if j == k then rest else (j, w) ∷ rest

  pub lookup-insert :
      (key other : K) (value : V) (entries : List (K × V))
      → lookup other (insert key value entries)
        ≡ (if key == other then some value else lookup other entries)
  unfolding lookup insert
  lookup-insert key other value [] = refl
  lookup-insert key other value ((k, v) ∷ entries) =
      ground (
        arith,
        ==_iff key other,
        ==_iff k key,
        ==_iff k other,
        lookup-insert key other value entries,
      )

  pub lookup-emplace :
      (key other : K) (value : V) (entries : List (K × V))
      → lookup other (emplace key value entries) ≡ (
          if key == other
          then elim (lookup key entries) [ none ↦ some value | some kept ↦ some kept ]
          else lookup other entries)
  unfolding lookup emplace
  lookup-emplace key other value [] = refl
  lookup-emplace key other value ((k, v) ∷ entries) = ground (
    arith,
    ==_iff key other,
    ==_iff k key,
    ==_iff k other,
    lookup-emplace key other value entries,
  )

  pub lookup-erase_key :
      (k j : K) (m : List (K × V))
      → lookup j (erase_key k m) ≡ (if k == j then none else lookup j m)
  unfolding lookup erase_key
  lookup-erase_key k j [] = ground arith
  lookup-erase_key k j ((i, w) ∷ m) =
      ground (arith, ==_iff k j, ==_iff i k, ==_iff i j, lookup-erase_key k j m)

  pub insert-insert :
      (key : K) (value later : V) (entries : List (K × V))
      → insert key later (insert key value entries) ≡ insert key later entries
  unfolding insert
  insert-insert key value later [] = ground (arith, ==_iff key key)
  insert-insert key value later ((k, v) ∷ entries) =
      ground (arith, ==_iff k key, insert-insert key value later entries)

  -- Writing the value that is there changes nothing.
  pub insert_same :
      (key : K) (value : V) (entries : List (K × V))
      → lookup key entries ≡ some value
      → insert key value entries ≡ entries
  unfolding lookup insert
  insert_same key value [] h = cc
  insert_same key value ((k, v) ∷ entries) h =
      ground (arith, ==_iff k key, insert_same key value entries)

module _ {ℓ} {K : Type ℓ} ⦃e : Eq K⦄ where
  -- s.find(k) != s.end()
  unfoldable pub contains : K → List K → Bool
  contains k [] = false
  contains k (j ∷ s) = j == k || contains k s

  -- s.insert(k)
  unfoldable pub add : K → List K → List K
  add k [] = k ∷ []
  add k (j ∷ s) = if j == k then j ∷ s else j ∷ add k s

  -- s.erase(k)
  unfoldable pub remove : K → List K → List K
  remove k [] = []
  remove k (j ∷ s) = let rest = remove k s in if j == k then rest else j ∷ rest

  pub contains-nil : (k : K) → contains k [] ≡ false
  unfolding contains
  contains-nil k = refl

  pub contains-add : (k j : K) (s : List K) → contains j (add k s) ≡ (k == j || contains j s)
  unfolding contains add
  contains-add k j [] = refl
  contains-add k j (i ∷ s) = ground (arith, ==_iff k j, ==_iff i k, ==_iff i j, contains-add k j s)

  pub contains-remove :
      (k j : K) (s : List K) → contains j (remove k s) ≡ (not (k == j) && contains j s)
  unfolding contains remove
  contains-remove k j [] = ground arith
  contains-remove k j (i ∷ s) =
      ground (arith, ==_iff k j, ==_iff i k, ==_iff i j, contains-remove k j s)

  pub length-add :
      (k : K) (s : List K) → length (add k s) ≡ (if contains k s then length s else suc (length s))
  unfolding contains add
  length-add k [] = refl
  length-add k (i ∷ s) = ground (arith, length-add k s)

  pub length-remove-le : (k : K) (s : List K) → length (remove k s) ≤ length s
  unfolding remove
  length-remove-le k [] = omega arith
  length-remove-le k (i ∷ s) = ground (arith, length-remove-le k s)

  pub remove_absent : (k : K) (s : List K) → contains k s ≡ false → remove k s ≡ s
  unfolding contains remove
  remove_absent k [] h = refl
  remove_absent k (i ∷ s) h = ground (arith, remove_absent k s)

  -- Each key is there once.
  abbrev pub IsDistinct : List K → Type 0
  IsDistinct [] = Unit
  IsDistinct (k ∷ s) = (contains k s ≡ false) × IsDistinct s

  pub add-IsDistinct : (k : K) (s : List K) → IsDistinct s → IsDistinct (add k s)
  unfolding contains add
  add-IsDistinct k [] d = (refl, tt)
  add-IsDistinct k (i ∷ s) (fresh, d) =
      ground (arith, ==_iff i k, ==_iff k i, contains-add k i s, add-IsDistinct k s d)

  pub remove-IsDistinct : (k : K) (s : List K) → IsDistinct s → IsDistinct (remove k s)
  unfolding contains remove
  remove-IsDistinct k [] d = tt
  remove-IsDistinct k (i ∷ s) (fresh, d) =
      ground (arith, contains-remove k i s, remove-IsDistinct k s d)

  pub length-remove :
      (k : K) (s : List K)
      → IsDistinct s
      → (if contains k s then suc (length (remove k s)) else length (remove k s)) ≡ length s
  unfolding contains remove
  length-remove k [] d = refl
  length-remove k (i ∷ s) (fresh, d) =
      ground (arith, ==_iff i k, length-remove k s d, remove_absent k s)
