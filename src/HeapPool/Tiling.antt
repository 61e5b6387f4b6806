-- ===== src/HeapPool/Tiling.antt =====
-- `check_locked` of src/memory/heap_pool.cpp against tilings by blocks.
use parallax_runtime.Prelude.{ℕ, ◌+◌, ◌-◌, ◌≤◌, ◌<◌, ◌≡◌, arith, bit_and, u64_mod}
use parallax_runtime.HeapPool.{Memory, bsize, min_align, footer_size}

-- A block's header and footer: its size is large enough, a multiple of 16, and in the footer too.
pub record IsBlock (m : Memory) (b : ℕ) : Type 0 where
  pub large : 32 ≤ bsize m b
  pub even : bit_and (bsize m b) (min_align - 1) ≡ 0
  pub footer : m (b + bsize m b - footer_size) ≡ bsize m b

-- From the offset `off` on, blocks cover the reservation and end where it ends.
pub data Tiled (m : Memory) (base res : ℕ) : ℕ → Type 0 where
  done : (off : ℕ) → off ≡ res → Tiled m base res off
  block :
      (off : ℕ)
      → off < res
      → IsBlock m (base + off)
      → Tiled m base res (off + bsize m (base + off))
      → Tiled m base res off

module _ (m : Memory) (base res : ℕ) where
  pub Tiled-le : (off : ℕ) → Tiled m base res off → off ≤ res
  Tiled-le _ (done off e) = omega arith
  Tiled-le _ (block off lt b t) = omega arith

  -- No header in the reservation holds a size that takes its offset past the end of the words.
  abbrev pub IsWithoutWrap : Type 0
  IsWithoutWrap =
      (base + res < u64_mod) × ((off : ℕ) → off < res → off + bsize m (base + off) < u64_mod)
