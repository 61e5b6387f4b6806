-- ===== src/Stdpar/Compactions.antt =====
-- The funnels of include/parallax/stdpar.hpp that compact a range: `device_copy_if`,
-- `device_remove_if`, `device_partition` and `device_unique`. `std::partition` keeps the order in both
-- parts; the elements behind the result of `std::unique` are left as they are.
pub mod Kept
use parallax_runtime.Prelude.{
  ℕ, zero, suc, ◌+◌, ◌==◌, Bool, true, ◌||◌, not, Option, none, some, List, [], ◌∷◌, ◌++◌,
  if◌then◌else◌, length,
}
use parallax_runtime.Stdpar.{
  Memory, update, read, write, World, memcpy, Entries, Element, Functor, stage, unstage,
}

-- The flags, scan, add and scatter kernels.
pub record Four : Type 0 where
  pub flags : ℕ
  pub scanning : ℕ
  pub adding : ℕ
  pub scatter : ℕ

-- `kf && ks && ka && kc`
unfoldable pub all_four : Option ℕ → Option ℕ → Option ℕ → Option ℕ → Option Four
all_four (some a) (some b) (some c) (some d) =
    some (record { flags = a; scanning = b; adding = c; scatter = d })
all_four _ _ _ _ = none

module _ {V : Type 0} where
  unfoldable pub kept_of : (V → Bool) → List V → List V
  kept_of p [] = []
  kept_of p (x ∷ xs) = let rest = kept_of p xs in if p x then x ∷ rest else rest

  -- The elements that differ from the one that was kept last.
  unfoldable pub unique_after : (V → V → Bool) → V → List V → List V
  unique_after eq last [] = []
  unique_after eq last (x ∷ xs) =
      let same = unique_after eq last xs in
      let other = unique_after eq x xs in if eq last x then same else x ∷ other

  unfoldable pub unique_of : (V → V → Bool) → List V → List V
  unfolding unique_after
  unique_of eq [] = []
  unique_of eq (x ∷ xs) = x ∷ unique_after eq x xs

module _ {S V : Type 0} (es : Entries S V) where
  -- `for (i = 0; i < n; ++i) if (pred(in[i])) out[k++] = in[i];`
  unfoldable pub host_keep : (V → Bool) → ℕ → Memory V → ℕ → ℕ → ℕ → ℕ × Memory V
  host_keep p size m input output zero = (0, m)
  host_keep p size m input output (suc n) =
      let (k, kept) =
        host_keep p size (update m output (m input)) (input + size) (output + size) n in
      let dropped = host_keep p size m (input + size) output n in
      if p (m input) then (suc k, kept) else dropped

  unfoldable pub keep_on_host : (V → Bool) → Element → World S V → ℕ → ℕ → ℕ → ℕ × World S V
  unfolding host_keep
  keep_on_host p t w input output n =
      let (k, m) = host_keep p t.size w.memory input output n in (k, record w { memory = m })

  -- With the staging buffers, and how many elements are copied out; where one buffer is null the other
  -- is not given back.
  unfoldable pub compact_staged :
      (World S V → ℕ × World S V)
      → (ℕ → ℕ)
      → Four
      → Element
      → Bool
      → World S V
      → ℕ
      → ℕ
      → ℕ
      → ℕ
      → ℕ
      → ℕ × World S V
  unfolding memcpy unstage
  compact_staged host amount four t is_float w input output n ai ao =
      if ai == 0 || ao == 0
      then host w
      else (let w1 = memcpy w ai input t.size n in
          let (kept, w2) =
            es.copy_if w1 four.flags four.scanning four.adding four.scatter ai ao n t.size
              is_float in
          let w3 = memcpy w2 output ao t.size (amount kept) in
          (kept, unstage es (unstage es w3 ao) ai))

  unfoldable pub compact_with :
      (World S V → ℕ × World S V)
      → (ℕ → ℕ)
      → Bool
      → Option Four
      → Element
      → Bool
      → World S V
      → ℕ
      → ℕ
      → ℕ
      → ℕ × World S V
  unfolding compact_staged
  compact_with host amount is_empty none t is_float w input output n = host w
  compact_with host amount is_empty (some four) t is_float w input output n =
      if is_empty
      then (let (ai, w1) = stage es w t n in
          let (ao, w2) = stage es w1 t n in
          compact_staged host amount four t is_float w2 input output n ai ao)
      else host w

  unfoldable pub device_copy_if :
      Functor V Bool → Option Four → Element → Bool → World S V → ℕ → ℕ → ℕ → ℕ × World S V
  unfolding compact_with keep_on_host
  device_copy_if pred four t is_float w input output n =
      compact_with (λ w. keep_on_host pred.apply t w input output n) (λ kept. kept) pred.is_empty
        four t is_float w input output n

  unfoldable pub device_remove_if :
      Functor V Bool → Option Four → Element → Bool → World S V → ℕ → ℕ → ℕ × World S V
  unfolding compact_with keep_on_host
  device_remove_if pred four t is_float w elems n =
      compact_with (λ w. keep_on_host (λ x. not (pred.apply x)) t w elems elems n) (λ kept. kept)
        pred.is_empty four t is_float w elems elems n

  -- `std::partition`
  unfoldable pub partition_on_host : (V → Bool) → Element → World S V → ℕ → ℕ → ℕ × World S V
  unfolding read write kept_of
  partition_on_host p t w elems n =
      let xs = read w.memory elems t.size n in
      let front = kept_of p xs in
      let back = kept_of (λ x. not (p x)) xs in
      (length front, record w { memory = write w.memory elems t.size (front ++ back) })

  -- All `n` elements are copied out.
  unfoldable pub device_partition :
      Functor V Bool → Option Four → Element → Bool → World S V → ℕ → ℕ → ℕ × World S V
  unfolding compact_with partition_on_host
  device_partition pred four t is_float w elems n =
      compact_with (λ w. partition_on_host pred.apply t w elems n) (λ num_true. n) pred.is_empty
        four t is_float w elems elems n

  -- `std::unique`
  unfoldable pub unique_on_host : (V → V → Bool) → Element → World S V → ℕ → ℕ → ℕ × World S V
  unfolding read write unique_of
  unique_on_host eq t w elems n =
      let xs = unique_of eq (read w.memory elems t.size n) in
      (length xs, record w { memory = write w.memory elems t.size xs })

  unfoldable pub device_unique :
      (V → V → Bool) → Option Four → Element → Bool → World S V → ℕ → ℕ → ℕ × World S V
  unfolding compact_with unique_on_host
  device_unique eq four t is_float w elems n =
      compact_with (λ w. unique_on_host eq t w elems n) (λ kept. kept) true four t is_float w elems
        elems n
