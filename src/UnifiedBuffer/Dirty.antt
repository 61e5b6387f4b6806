-- ===== src/UnifiedBuffer/Dirty.antt =====
-- Lemmas on the dirty tracking of include/parallax/unified_buffer.hpp.
use parallax_runtime.Prelude.{
  ℕ, zero, suc, ◌+◌, ◌-◌, ◌*◌, ◌/◌, ◌≤◌, ◌<◌, ◌≡◌, refl, inl, inr, ◌∙◌, ◌==◌, ==_iff, ==_refl,
  Bool-cases, true, false, ◌&&◌, some, List, min, arith, All, length, get_elem?, modify,
  get_elem?-modify_self, get_elem?-modify_ne, u64_mod, if◌then◌else◌, leb, ltb, add64, sub64, ap,
}
use parallax_runtime.UnifiedBuffer.{
  DirtyBlock, UnifiedBuffer, block_size, mark_host_dirty, needs_host_to_device, fresh_blocks,
  init_dirty_tracking, mark_from, mark_range_dirty_on_host,
}

-- No block is dirty on both sides, and the blocks cover the buffer.
pub record IsTracked (u : UnifiedBuffer) : Type 0 where
  pub count : length u.blocks ≡ u.num_blocks
  pub covers : u.size ≤ u.num_blocks * block_size
  pub one_side : All (λ b. b.dirty_on_host && b.dirty_on_device ≡ false) u.blocks

length-fresh_blocks : (n i : ℕ) → length (fresh_blocks n i) ≡ n
unfolding fresh_blocks
length-fresh_blocks zero i = refl
length-fresh_blocks (suc n) i = omega (arith, length-fresh_blocks n (i + 1))

fresh_blocks-host : (n i : ℕ) → All (λ b. needs_host_to_device b ≡ true) (fresh_blocks n i)
unfolding fresh_blocks
fresh_blocks-host zero i = tt
fresh_blocks-host (suc n) i = (refl, fresh_blocks-host n (i + 1))

fresh_blocks-one_side :
    (n i : ℕ) → All (λ b. b.dirty_on_host && b.dirty_on_device ≡ false) (fresh_blocks n i)
unfolding fresh_blocks
fresh_blocks-one_side zero i = tt
fresh_blocks-one_side (suc n) i = (refl, fresh_blocks-one_side n (i + 1))

-- Marking from `i` on for `n` indices changes just those.
mark_from_lem :
    (n i j : ℕ) (bs : List DirtyBlock) (b : DirtyBlock)
    → get_elem? bs j ≡ some b
    → get_elem? (mark_from n i bs) j
      ≡ some (if leb i j && ltb j (i + n) then mark_host_dirty b else b)
unfolding mark_from
mark_from_lem zero i j bs b e = ground arith
mark_from_lem (suc n) i j bs b e = elim (Bool-cases (i == j)) [
  | inl h ↦
      let same : i ≡ j = (==_iff i j).0 h in
      let hit = get_elem?-modify_self bs i mark_host_dirty b (rw same e) in
      ground (
        arith,
        mark_from_lem n (i + 1) j (modify bs i mark_host_dirty) (mark_host_dirty b)
            (rw (← same) hit),
      )
  | inr h ↦
      let miss = get_elem?-modify_ne bs i j mark_host_dirty (λ q. ground (arith, ==_refl i)) in
      ground (arith, mark_from_lem n (i + 1) j (modify bs i mark_host_dirty) b (miss ∙ e))
]

-- Where offset, length and one block together fit a word, `mark_range_dirty_on_host` marks just the
-- blocks that begin before the end of the range and end after its offset, and leaves the others: those
-- that the byte range meets, and for length 0 the block of the offset, unless a block begins there.
pub mark_range_dirty_on_host_lem :
    (u : UnifiedBuffer) (offset n j : ℕ) (b : DirtyBlock)
    → offset + n + block_size ≤ u64_mod
    → j < u.num_blocks
    → get_elem? u.blocks j ≡ some b
    → get_elem? (mark_range_dirty_on_host u offset n).blocks j
      ≡ some (
          if ltb (j * block_size) (offset + n) && ltb offset ((j + 1) * block_size)
          then mark_host_dirty b
          else b)
unfolding mark_range_dirty_on_host
mark_range_dirty_on_host_lem u offset n j b fits hj e =
    mark_from_lem (min end_block u.num_blocks - start) start j u.blocks b e
    ∙ ap (λ t. some (if t then mark_host_dirty b else b)) tests
  where
    start : ℕ
    start = offset / block_size

    end_block : ℕ
    end_block = sub64 (add64 (add64 offset n) block_size) 1 / block_size

    no_wrap : end_block ≡ (offset + n + 4095) / block_size
    no_wrap = omega arith

    tests :
        (leb start j && ltb j (start + (min end_block u.num_blocks - start)))
        ≡ (ltb (j * block_size) (offset + n) && ltb offset ((j + 1) * block_size))
    tests = ground (arith, no_wrap)

-- The tracking of a new buffer covers its bytes with blocks that the device has yet to see.
pub init_dirty_tracking-IsTracked :
    (u : UnifiedBuffer)
    → u.size + block_size ≤ u64_mod
    → IsTracked (init_dirty_tracking u)
      × All (λ b. needs_host_to_device b ≡ true) (init_dirty_tracking u).blocks
unfolding init_dirty_tracking
init_dirty_tracking-IsTracked u fits =
    let n = sub64 (add64 u.size block_size) 1 / block_size in
    (
      record {
        count = length-fresh_blocks n 0;
        covers = omega arith;
        one_side = fresh_blocks-one_side n 0;
      },
      fresh_blocks-host n 0,
    )
