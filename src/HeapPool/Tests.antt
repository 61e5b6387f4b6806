-- ===== src/HeapPool/Tests.antt =====
-- A pool of two blocks, and instances of the theorems on the pool.
use parallax_runtime.Prelude.{
  ◌+◌, ◌-◌, ◌%◌, ◌≤◌, ◌≡◌, refl, true, false, arith, align_up, some, ◌==◌, if◌then◌else◌,
}
use parallax_runtime.HeapPool.{
  Memory, store, bsize, allocated, set_block, check_from, check_locked, block_need, payload,
  link_back, usable_size, pool_contains, header_size, footer_size,
}
use parallax_runtime.HeapPool.Layout.{payload_fits}
use parallax_runtime.HeapPool.Tiling.{Tiled, done, block}
use parallax_runtime.HeapPool.Retile.{split-Tiled, merge-Tiled}

-- A block of 96 bytes in use at 4096 and a free one of 32 bytes after it.
abbrev two_blocks : Memory
two_blocks = set_block (set_block (λ q. 0) 4096 96 true) 4192 32 false

tiles : check_locked two_blocks 4096 128 ≡ some true
unfolding check_locked check_from set_block store bsize
tiles = refl

tiles_not : check_locked two_blocks 4096 160 ≡ some false
unfolding check_locked check_from set_block store bsize
tiles_not = refl

-- A size near the end of the words takes the offset back to 16, and the check passes.
abbrev wrapping : Memory
wrapping q =
    if q == 4096
    then 32
    else if q == 4104
    then 18446744073709551600
    else if q == 4112
    then 112
    else if q == 4120
    then 32
    else if q == 4128
    then 18446744073709551600
    else if q == 4216
    then 112
    else 0

passes_wrapped : check_locked wrapping 4096 128 ≡ some true
unfolding check_locked check_from bsize
passes_wrapped = refl

flags : (allocated two_blocks 4096 ≡ true) × (allocated two_blocks 4192 ≡ false)
unfolding allocated set_block store
flags = (refl, refl)

payload_fits_example :
    (payload 4096 64 % 64 ≡ 0)
    × (4096 + header_size + 8 ≤ payload 4096 64)
    × (payload 4096 64 + 100 ≤ 4096 + block_need 100 64 - footer_size)
    × (block_need 100 64 % 16 ≡ 0)
payload_fits_example =
    payload_fits 4096 100 64 (record { exponent = 6; fits = omega arith; power = refl })
      (omega arith) (omega arith) (omega arith) refl

-- The payload at 4112 of the first block has 72 bytes.
usable : usable_size (link_back two_blocks 4096 16) 4112 ≡ 72
unfolding usable_size link_back payload set_block store bsize align_up
usable = refl

holds_own : pool_contains 4096 128 4223 ≡ true
unfolding pool_contains
holds_own = refl

-- The second block alone tiles what follows the first.
last-Tiled : Tiled two_blocks 4096 128 96
unfolding set_block store bsize
last-Tiled =
    block 96 (omega arith) (record { large = omega arith; even = refl; footer = refl })
      (done 128 refl)

split-Tiled_example : Tiled (set_block (set_block two_blocks 4096 32 true) 4128 64 false) 4096 128 0
split-Tiled_example =
    split-Tiled two_blocks 4096 128 0 96 32 (done 0 refl) last-Tiled refl (omega arith) refl
      (omega arith) (omega arith)

merge-Tiled_example : Tiled (set_block two_blocks 4096 128 false) 4096 128 0
merge-Tiled_example =
    merge-Tiled two_blocks 4096 128 0 96 32 false (done 0 refl) (done 128 refl) refl (omega arith)
      refl (omega arith) (omega arith)
