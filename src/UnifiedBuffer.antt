-- ===== src/UnifiedBuffer.antt =====
-- UnifiedBuffer and DirtyBlock of include/parallax/unified_buffer.hpp: which 4 KiB blocks of a
-- buffer the host or the device has written last.
pub mod Dirty
mod Tests
use parallax_runtime.Prelude.{
  ℕ, zero, suc, ◌+◌, ◌-◌, ◌/◌, Bool, true, false, not, ◌&&◌, List, [], ◌∷◌, map, min, add64, sub64,
  modify,
}

-- BLOCK_SIZE
abbrev pub block_size : ℕ
block_size = 4096

pub record DirtyBlock : Type 0 where
  pub block_index : ℕ
  pub dirty_on_host : Bool
  pub dirty_on_device : Bool

abbrev pub mark_host_dirty : DirtyBlock → DirtyBlock
mark_host_dirty b = record b { dirty_on_host = true; dirty_on_device = false }

abbrev pub mark_device_dirty : DirtyBlock → DirtyBlock
mark_device_dirty b = record b { dirty_on_device = true; dirty_on_host = false }

abbrev pub clear_dirty : DirtyBlock → DirtyBlock
clear_dirty b = record b { dirty_on_host = false; dirty_on_device = false }

abbrev pub needs_host_to_device : DirtyBlock → Bool
needs_host_to_device b = b.dirty_on_host && not b.dirty_on_device

abbrev pub needs_device_to_host : DirtyBlock → Bool
needs_device_to_host b = b.dirty_on_device && not b.dirty_on_host

pub record UnifiedBuffer : Type 0 where
  pub host_ptr : ℕ
  pub buffer : ℕ
  pub memory : ℕ
  pub size : ℕ
  pub is_mapped : Bool
  pub blocks : List DirtyBlock
  pub num_blocks : ℕ

-- The blocks from index `i` on, dirty on the host.
fresh_blocks : ℕ → ℕ → List DirtyBlock
fresh_blocks zero i = []
fresh_blocks (suc n) i =
    record { block_index = i; dirty_on_host = true; dirty_on_device = false }
    ∷ fresh_blocks n (i + 1)

unfoldable pub init_dirty_tracking : UnifiedBuffer → UnifiedBuffer
unfolding fresh_blocks
init_dirty_tracking u =
    let n = sub64 (add64 u.size block_size) 1 / block_size in
    record u { num_blocks = n; blocks = fresh_blocks n 0 }

-- `blocks[i].mark_host_dirty()` for `n` indices from `i` on.
mark_from : ℕ → ℕ → List DirtyBlock → List DirtyBlock
mark_from zero i bs = bs
mark_from (suc n) i bs = mark_from n (i + 1) (modify bs i mark_host_dirty)

-- The loop runs while `i < end_block && i < num_blocks`.
pub mark_range_dirty_on_host : UnifiedBuffer → ℕ → ℕ → UnifiedBuffer
unfolding mark_from
mark_range_dirty_on_host u offset length =
    let start_block = offset / block_size in
    let end_block = sub64 (add64 (add64 offset length) block_size) 1 / block_size in
    record u { blocks = mark_from (min end_block u.num_blocks - start_block) start_block u.blocks }

unfoldable pub mark_all_dirty_on_device : UnifiedBuffer → UnifiedBuffer
mark_all_dirty_on_device u = record u { blocks = map mark_device_dirty u.blocks }
