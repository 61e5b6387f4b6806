-- ===== src/HeapPool/Interface.antt =====
-- What the pool's clients (the arena and the heap capture) call of include/parallax/heap_pool.hpp,
-- over a pool state of type `P`.
use parallax_runtime.Prelude.{ℕ, Bool}

pub record PoolOps {ℓ} (P : Type ℓ) : Type ℓ where
  pub alloc : P → ℕ → ℕ → ℕ × P
  pub free : P → ℕ → P
  pub realloc : P → ℕ → ℕ → ℕ × P
  pub usable_size : P → ℕ → ℕ
  pub contains : P → ℕ → Bool
