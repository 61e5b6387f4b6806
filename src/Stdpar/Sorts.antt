-- ===== src/Stdpar/Sorts.antt =====
-- `device_sort` of include/parallax/stdpar.hpp. The element type's `<` and its largest value are
-- arguments; `std::sort` is `sorted`.
pub mod Padding
pub mod Equal
use parallax_runtime.Prelude.{
  ℕ, zero, suc, ◌+◌, ◌-◌, ◌*◌, ◌%◌, ◌^◌, ◌==◌, Bool, ◌&&◌, Option, none, some, List, [], ◌∷◌,
  if◌then◌else◌, ltb,
}
use parallax_runtime.Stdpar.{
  Memory, update, read, write, World, memcpy, Entries, Element, stage, unstage,
}

-- `while (m < n) m <<= 1`; `none` if the loop has not ended after `fuel` tests.
unfoldable pub next_power : ℕ → ℕ → ℕ → Option ℕ
next_power zero m n = none
next_power (suc fuel) m n =
    let rest = next_power fuel (m * 2 % 2 ^ 64) n in if ltb m n then rest else some m

module _ {V : Type 0} (lt : V → V → Bool) where
  unfoldable pub insert_sorted : V → List V → List V
  insert_sorted x [] = x ∷ []
  insert_sorted x (y ∷ ys) =
      let rest = insert_sorted x ys in if lt y x then y ∷ rest else x ∷ y ∷ ys

  unfoldable pub sorted : List V → List V
  unfolding insert_sorted
  sorted [] = []
  sorted (x ∷ xs) = insert_sorted x (sorted xs)

module _ {S V : Type 0} (es : Entries S V) (lt : V → V → Bool) (top : V) where
  unfoldable pub sort_on_host : Element → World S V → ℕ → ℕ → World S V
  unfolding read write sorted
  sort_on_host t w elems n = record w {
    memory = write w.memory elems t.size (sorted lt (read w.memory elems t.size n));
  }

  -- `for (i = n; i < m; ++i) pad[i] = max`, from the first address on.
  unfoldable pub fill_top : Memory V → ℕ → ℕ → ℕ → Memory V
  fill_top m p size zero = m
  fill_top m p size (suc k) = fill_top (update m p top) (p + size) size k

  -- In the staging buffer `ab` of `m` elements.
  unfoldable pub sort_staged : ℕ → Element → World S V → ℕ → ℕ → ℕ → ℕ → World S V
  unfolding sort_on_host fill_top memcpy unstage
  sort_staged k t w elems n m ab =
      if ab == 0
      then sort_on_host t w elems n
      else (let w1 = memcpy w ab elems t.size n in
          let w2 = record w1 { memory = fill_top w1.memory (ab + n * t.size) t.size (m - n) } in
          let w3 = es.sort w2 k ab m t.size in
          let w4 = memcpy w3 elems ab t.size n in unstage es w4 ab)

  -- With the power of two `m`.
  unfoldable pub sort_padded : ℕ → Element → World S V → ℕ → ℕ → ℕ → World S V
  unfolding sort_staged
  sort_padded k t w elems n m =
      if m == n && es.arena_contains w.runtime elems
      then es.sort w k elems n t.size
      else (let (ab, w') = stage es w t m in sort_staged k t w' elems n m ab)

  -- `none` if it does not return.
  unfoldable pub device_sort : Option ℕ → Element → World S V → ℕ → ℕ → Option (World S V)
  unfolding sort_on_host sort_padded next_power
  device_sort none t w elems n = some (sort_on_host t w elems n)
  device_sort (some k) t w elems n = elim (next_power 64 1 n) [
    | none ↦ none
    | some m ↦ some (sort_padded k t w elems n m)
  ]
