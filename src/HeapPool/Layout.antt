-- ===== src/HeapPool/Layout.antt =====
-- Block sizes and payload pointers of `px_pool_alloc` of src/memory/heap_pool.cpp.
use parallax_runtime.Prelude.{
  ℕ, ◌+◌, ◌-◌, ◌%◌, ◌^◌, ◌≤◌, ◌<◌, ap, ◌≡◌, refl, max, arith, IsPow2, align_up_bounds, add64, sub64,
  not64, bit_and, ==_refl, ◌==◌, test_of_nonzero, false,
}
use parallax_runtime.HeapPool.{
  Memory, bsize, link_back, usable_size, store, alloc_bit, block_need, payload, header_size,
  footer_size,
}

sixteen : IsPow2 16
sixteen = record { exponent = 4; fits = omega arith; power = refl }

-- For an alignment of at least 16 that is a power of two, and a request and a block that stay below
-- 2^62, the pointer into a block of the size asked for is aligned, leaves room before it for the
-- block's header and the back-pointer, and leaves the whole request before the block's footer; and
-- the block's size is a multiple of 16.
pub payload_fits :
    (b size align : ℕ)
    → IsPow2 align
    → 16 ≤ align
    → size + align ≤ 2 ^ 62
    → b ≤ 2 ^ 62
    → b % 16 ≡ 0
    → (payload b align % align ≡ 0)
      × (b + header_size + 8 ≤ payload b align)
      × (payload b align + size ≤ b + block_need size align - footer_size)
      × (block_need size align % 16 ≡ 0)
unfolding payload block_need
payload_fits b size align p big fits low even =
    let up = align_up_bounds (b + 16) align p (omega arith) in
    let need = align_up_bounds (max size 1 + align + 24) 16 sixteen (omega arith) in
    let at : add64 (add64 b header_size) 8 ≡ b + 16 = omega arith in
    let asked : add64 (add64 header_size (add64 (add64 (max size 1) align) 8)) footer_size
        ≡ max size 1 + align + 24 =
      omega arith in
    rw (at, asked) (up.2, omega arith, omega arith, omega (arith, need))

-- What the stored back-pointer reads as, at its own place and at the header.
link_back-own : (m : Memory) (b align : ℕ) → link_back m b align (payload b align - 8) ≡ b
unfolding link_back store
link_back-own m b align = rw (==_refl (payload b align - 8)) refl

link_back-header :
    (m : Memory) (b align : ℕ) → b + 16 ≤ payload b align → link_back m b align b ≡ m b
unfolding link_back store
link_back-header m b align h =
    let other : (b == payload b align - 8) ≡ false =
      lt_test b (payload b align - 8) (omega arith) in
    rw other refl
  where
    lt_test : (x y : ℕ) → x < y → (x == y) ≡ false
    lt_test x y lt = ground arith

usable_size-linked :
    (m : Memory) (b p : ℕ)
    → 0 < p
    → m (p - 8) ≡ b
    → usable_size m p ≡ sub64 (b + bsize m b - footer_size) p
unfolding usable_size
usable_size-linked m b p pos e = rw (test_of_nonzero p (λ z. omega arith), e) refl

-- The back-pointer of a payload leads to its block, whose header it leaves: a block with a header
-- of at least the size asked for reports at least the request as usable, and exactly what lies
-- between the payload and the footer, for the alignments, requests and addresses as above.
pub usable_size_lem :
    (m : Memory) (b size align : ℕ)
    → IsPow2 align
    → 16 ≤ align
    → size + align ≤ 2 ^ 62
    → b ≤ 2 ^ 62
    → b % 16 ≡ 0
    → block_need size align ≤ bsize m b
    → bsize m b ≤ 2 ^ 62
    → let after = link_back m b align in
      (after (payload b align - 8) ≡ b)
      × (bsize after b ≡ bsize m b)
      × (size ≤ usable_size after (payload b align))
      × (payload b align + usable_size after (payload b align) + footer_size ≡ b + bsize m b)
unfolding bsize
usable_size_lem m b size align p big fits low even room small =
    let place = payload_fits b size align p big fits low even in
    let own = link_back-own m b align in
    let header : bsize (link_back m b align) b ≡ bsize m b =
      ap (λ v. bit_and v (not64 alloc_bit)) (link_back-header m b align (omega (arith, place))) in
    let linked =
      usable_size-linked (link_back m b align) b (payload b align) (omega (arith, place)) own in
    (own, header, omega (arith, place, linked, header), omega (arith, place, linked, header))
