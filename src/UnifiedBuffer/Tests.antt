-- ===== src/UnifiedBuffer/Tests.antt =====
-- Instances of the theorems on the dirty tracking, for a buffer of three blocks.
use parallax_runtime.Prelude.{
  ◌+◌, ◌*◌, ◌≡◌, refl, true, false, [], some, ◌&&◌, ltb, arith, if◌then◌else◌, get_elem?,
}
use parallax_runtime.UnifiedBuffer.{
  UnifiedBuffer, DirtyBlock, block_size, mark_host_dirty, fresh_blocks, init_dirty_tracking,
  mark_range_dirty_on_host, mark_all_dirty_on_device,
}
use parallax_runtime.UnifiedBuffer.Dirty.{mark_range_dirty_on_host_lem}

abbrev bare : UnifiedBuffer
bare = record {
  host_ptr = 65536;
  buffer = 1;
  memory = 2;
  size = 9000;
  is_mapped = true;
  blocks = [];
  num_blocks = 0;
}

abbrev on_device : UnifiedBuffer
on_device = mark_all_dirty_on_device (init_dirty_tracking bare)

abbrev second : DirtyBlock
second = record { block_index = 1; dirty_on_host = false; dirty_on_device = true }

-- Bytes 4000 to 4099 meet the first two blocks.
mark_range_dirty_on_host_lem_example :
    get_elem? (mark_range_dirty_on_host on_device 4000 100).blocks 1
    ≡ some (
        if ltb (1 * block_size) (4000 + 100) && ltb 4000 ((1 + 1) * block_size)
        then mark_host_dirty second
        else second)
unfolding init_dirty_tracking fresh_blocks mark_all_dirty_on_device
mark_range_dirty_on_host_lem_example =
    mark_range_dirty_on_host_lem on_device 4000 100 1 second (omega arith) (omega arith) refl
