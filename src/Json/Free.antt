-- ===== src/Json/Free.antt =====
-- The release of JSON values and of memory (src/libs/json.h, src/libs/json.cpp, src/libs/util.cpp).
use cpp_chat_channel.Base.{
  ℕ, zero, suc, ◌≤◌, ◌≡◌, refl, Option, none, some, List, [], ◌∷◌, Bool, nat_eq, if◌then◌else◌,
  arith, Bool-cases, inl, inr, length,
}

abbrev pub Pointer : Type 0
Pointer = ℕ

-- json_is_null and json_decref of jansson, and free of the C library, for pointers that are not null.
pub record Memory (K : Type 0) : Type 0 where
  pub json_is_null : Pointer → Bool
  pub json_decref : Pointer → K → K
  pub free : Pointer → K → K

module _ {K : Type 0} (memory : Memory K) where
  -- free_json, where `none` is the null pointer
  unfoldable pub free_json : Option Pointer → K → K
  free_json none k = k
  free_json (some p) k = if memory.json_is_null p then k else memory.json_decref p k

  -- free_jsons(num, ...); `none` where it asks for more arguments than there are, which is undefined.
  unfoldable pub free_jsons : ℕ → List (Option Pointer) → K → Option K
  unfolding free_json
  free_jsons zero ptrs k = some k
  free_jsons (suc num) [] k = none
  free_jsons (suc num) (ptr ∷ ptrs) k = free_jsons num ptrs (free_json ptr k)

  -- JsonDeleter
  unfoldable pub delete_json : Option Pointer → K → K
  unfolding free_json
  delete_json = free_json

  -- FreeChar: free of a null pointer does nothing.
  unfoldable pub free_chars : Option Pointer → K → K
  free_chars none k = k
  free_chars (some p) k = memory.free p k

  -- frees(num, ...)
  unfoldable pub frees : ℕ → List (Option Pointer) → K → Option K
  unfolding free_chars
  frees zero ptrs k = some k
  frees (suc num) [] k = none
  frees (suc num) (ptr ∷ ptrs) k = frees num ptrs (free_chars ptr k)

module _ {K : Type 0} (memory : Memory K) where
  -- The values among the first arguments that are to be released, in their order.
  unfoldable pub released : ℕ → List (Option Pointer) → List Pointer
  released zero ptrs = []
  released (suc num) [] = []
  released (suc num) (none ∷ ptrs) = released num ptrs
  released (suc num) (some p ∷ ptrs) =
      let rest = released num ptrs in if memory.json_is_null p then rest else p ∷ rest

  unfoldable pub decref_each : List Pointer → K → K
  decref_each [] k = k
  decref_each (p ∷ ps) k = decref_each ps (memory.json_decref p k)

  -- free_jsons(num, ...) with as many arguments as it is told or more releases each of the first num
  -- once, in their order, but for the null pointers and the null value.
  pub free_jsons_lem :
      (num : ℕ) (ptrs : List (Option Pointer)) (k : K)
      → num ≤ length ptrs
      → free_jsons memory num ptrs k ≡ some (decref_each (released num ptrs) k)
  unfolding free_jsons free_json released decref_each
  free_jsons_lem zero ptrs k h = refl
  free_jsons_lem (suc num) [] k h = grind arith
  free_jsons_lem (suc num) (none ∷ ptrs) k h = free_jsons_lem num ptrs k (omega arith)
  free_jsons_lem (suc num) (some p ∷ ptrs) k h = elim (Bool-cases (memory.json_is_null p)) [
    | inl e ↦ rw e (free_jsons_lem num ptrs k (omega arith))
    | inr e ↦ rw e (free_jsons_lem num ptrs (memory.json_decref p k) (omega arith))
  ]
