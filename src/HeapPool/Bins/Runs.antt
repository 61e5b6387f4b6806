-- ===== src/HeapPool/Bins/Runs.antt =====
-- Runs of the pool's allocation and freeing.
use parallax_runtime.Prelude.{ℕ, ◌≡◌, refl, true, false, some, none, align_up}
use parallax_runtime.HeapPool.{
  store, bsize, allocated, set_block, block_need, payload, link_back, usable_size,
}
use parallax_runtime.HeapPool.Bins.{
  Pool, floor_log2, bin_index, set_bin, bin_insert, bin_remove, search_bin, search_bins, take_block,
  block_alloc, block_free, ensure_init, pool_align, grow_align, pool_alloc, pool_free, copy_words,
  pool_realloc,
}

abbrev unused : Pool
unused = record {
  memory = λ q. 0;
  base = 0;
  reservation = 0;
  high = 0;
  init_done = false;
  init_failed = false;
  bins = λ i. 0;
}

indexes : (bin_index 32 ≡ 1) × (bin_index 8192 ≡ 9)
unfolding bin_index floor_log2
indexes = (refl, refl)

-- A pool of 4096 bytes at 65536, from which two blocks are taken.
abbrev started : Pool
started =
    bin_insert
      (record unused {
        init_done = true;
        memory = set_block (λ q. 0) 65536 4096 false;
        base = 65536;
        reservation = 4096;
      })
      65536

abbrev one : ℕ × Pool
one = block_alloc started 128

abbrev two : ℕ × Pool
two = block_alloc one.1 64

places : (one.0 ≡ 65536) × (two.0 ≡ 65664)
unfolding block_alloc take_block search_bins search_bin bin_insert bin_remove bin_index floor_log2
    set_bin set_block store bsize
places = (refl, refl)

-- Freed again, they are one block with what follows them.
abbrev freed : Pool
freed = block_free (block_free two.1 65536) 65664

merges : (bsize freed.memory 65536 ≡ 4096) × (allocated freed.memory 65536 ≡ false)
unfolding block_free block_alloc take_block search_bins search_bin bin_insert bin_remove bin_index
    floor_log2 set_bin set_block store bsize allocated
merges = (refl, refl)

abbrev served : ℕ × Pool
served = pool_alloc 1 (some 65536) unused 100 0

serves : served.0 ≡ 65552
unfolding pool_align pool_alloc ensure_init block_alloc take_block search_bins search_bin bin_insert
    bin_remove bin_index floor_log2 set_bin set_block store bsize block_need payload align_up
serves = refl

takes_back : (pool_free served.1 65552).bins 16 ≡ 65536
unfolding pool_align pool_free block_free pool_alloc ensure_init block_alloc take_block search_bins
    search_bin bin_insert bin_remove bin_index floor_log2 set_bin set_block store bsize allocated
    block_need payload link_back align_up
takes_back = refl

fails : (pool_alloc 1 none unused 100 0).0 ≡ 0
unfolding pool_align pool_alloc ensure_init
fails = refl

aligns : (pool_align 24 ≡ 32) × (pool_align 4096 ≡ 4096) × (pool_align 3 ≡ 16)
unfolding pool_align grow_align
aligns = (refl, refl, refl)

-- A block that grows moves behind the old one, with its first word.
abbrev filled : Pool
filled = record served.1 { memory = store served.1.memory 65552 77 }

abbrev grown : ℕ × Pool
grown = pool_realloc 1 (some 65536) filled 65552 1000

grows : (grown.1.memory grown.0 ≡ 77) × (usable_size filled.memory 65552 ≡ 120) × (grown.0 ≡ 65696)
unfolding pool_realloc pool_align copy_words pool_free block_free pool_alloc ensure_init block_alloc
    take_block search_bins search_bin bin_insert bin_remove bin_index floor_log2 set_bin set_block
    store bsize allocated block_need payload link_back usable_size align_up
grows = (refl, refl, refl)
