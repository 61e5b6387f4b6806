-- ===== src/Stdpar.antt =====
-- The front end of the standard algorithms (include/parallax/stdpar.hpp): each parallel algorithm is
-- one funnel that runs a kernel or the sequential loop. This file is the memory and the entry points
-- that the funnels call; the funnels are in `Stdpar.Maps`, `Stdpar.Folds` and `Stdpar.Compactions`.
pub mod Ranges
pub mod Safe
pub mod Overwrites
pub mod Staging
pub mod Maps
pub mod Folds
pub mod Sorts
pub mod Compactions
pub mod Counts
pub mod Algorithms
pub mod Simulated
mod Tests
use parallax_runtime.Prelude.{ℕ, zero, suc, ◌+◌, ◌==◌, Bool, mul64, List, [], ◌∷◌, if◌then◌else◌}

-- The element at each address; elements of all types are values of one type `V`.
abbrev pub Memory : Type 0 → Type 0
Memory V = ℕ → V

module _ {V : Type 0} where
  unfoldable pub update : Memory V → ℕ → V → Memory V
  update m p x q = if q == p then x else m q

  -- `n` elements of `size` bytes from `p` on.
  unfoldable pub read : Memory V → ℕ → ℕ → ℕ → List V
  read m p size zero = []
  read m p size (suc n) = m p ∷ read m (p + size) size n

  unfoldable pub write : Memory V → ℕ → ℕ → List V → Memory V
  write m p size [] = m
  write m p size (x ∷ xs) = write (update m p x) (p + size) size xs

-- What a funnel reaches: the runtime behind the C entry points, and the memory.
pub record World (S V : Type 0) : Type 0 where
  pub runtime : S
  pub memory : Memory V

-- `std::memcpy` of `n` elements.
unfoldable pub memcpy : {S V : Type 0} → World S V → ℕ → ℕ → ℕ → ℕ → World S V
unfolding read write
memcpy w dst src size n = record w { memory = write w.memory dst size (read w.memory src size n) }

-- The entry points of include/parallax/runtime.h; a null kernel is `none`, a null pointer 0. The
-- arguments are in the order of the header.
pub record Entries (S V : Type 0) : Type 0 where
  pub arena_contains : S → ℕ → Bool
  pub arena_alloc : S → ℕ → ℕ → ℕ × S
  pub arena_free : S → ℕ → S
  -- kernel, data, count, element size
  pub launch : World S V → ℕ → ℕ → ℕ → ℕ → World S V
  -- kernel, data, count, the captures and their size, element size
  pub launch_with_captures : World S V → ℕ → ℕ → ℕ → ℕ → ℕ → ℕ → World S V
  -- kernel, input, output, count, sizes of their elements
  pub launch_transform2 : World S V → ℕ → ℕ → ℕ → ℕ → ℕ → ℕ → World S V
  -- and the captures and their size
  pub launch_transform2_captures : World S V → ℕ → ℕ → ℕ → ℕ → ℕ → ℕ → ℕ → ℕ → World S V
  -- kernel, data, count, element size; what is stored in the result, which is `T{}` before
  pub reduce : World S V → ℕ → ℕ → ℕ → ℕ → V → V × World S V
  pub scan : World S V → ℕ → ℕ → ℕ → ℕ → ℕ → World S V
  -- the three kernels, scratch, output, count, element size, the initial value
  pub exclusive_scan : World S V → ℕ → ℕ → ℕ → ℕ → ℕ → ℕ → ℕ → V → World S V
  pub sort : World S V → ℕ → ℕ → ℕ → ℕ → World S V
  -- the four kernels, input, output, count, element size, whether elements are floats; the count
  pub copy_if : World S V → ℕ → ℕ → ℕ → ℕ → ℕ → ℕ → ℕ → ℕ → Bool → ℕ × World S V

-- The size and the alignment of an element type.
pub record Element : Type 0 where
  pub size : ℕ
  pub align : ℕ

-- A function object: what it computes, whether its type is empty, and its bytes.
pub record Functor (V W : Type 0) : Type 0 where
  pub apply : V → W
  pub is_empty : Bool
  pub address : ℕ
  pub bytes : ℕ

-- A staging buffer for `n` elements.
unfoldable pub stage : {S V : Type 0} → Entries S V → World S V → Element → ℕ → ℕ × World S V
stage es w t n =
    let (p, r) = es.arena_alloc w.runtime (mul64 n t.size) t.align in (p, record w { runtime = r })

unfoldable pub unstage : {S V : Type 0} → Entries S V → World S V → ℕ → World S V
unstage es w p = record w { runtime = es.arena_free w.runtime p }
