-- ===== src/HeapPool/Blocks.antt =====
-- Headers and footers as `set_block` of src/memory/heap_pool.cpp writes them.
use parallax_runtime.Prelude.{
  ℕ, ◌+◌, ◌-◌, ◌*◌, ◌/◌, ◌%◌, ◌≤◌, ◌<◌, ◌≡◌, ◌≢◌, refl, ap, ◌∙◌, Bool, true, false, not, arith,
  bit_and, bit_or, not64, u64_mod, bit_or-zero, bit_or-one, bit_and-one, bit_and-not64, ◌==◌,
  ==_refl, if◌then◌else◌,
}
use parallax_runtime.HeapPool.{Memory, store, bsize, allocated, set_block, footer_size, alloc_bit}

differ : (x y : ℕ) → x < y → (x == y) ≡ false
differ x y lt = ground arith

header : ℕ → Bool → ℕ
header bs alloc = bit_or bs (if alloc then alloc_bit else 0)

header-value :
    (bs : ℕ) (alloc : Bool) → bs % 16 ≡ 0 → header bs alloc ≡ (if alloc then bs + 1 else bs)
unfolding header
header-value bs true e = bit_or-one bs (omega arith)
header-value bs false e = bit_or-zero bs

flag_of : (r : ℕ) (alloc : Bool) → r ≡ (if alloc then 1 else 0) → not (r == 0) ≡ alloc
flag_of r true e = ground arith
flag_of r false e = ground arith

size_of_header :
    (v bs : ℕ) (alloc : Bool)
    → bs % 16 ≡ 0
    → bs + 1 < u64_mod
    → v ≡ (if alloc then bs + 1 else bs)
    → (bit_and v (not64 alloc_bit) ≡ bs) × (not (bit_and v alloc_bit == 0) ≡ alloc)
size_of_header v bs alloc e fits h = (
  bit_and-not64 1 v (omega arith) (ground arith) ∙ half alloc h,
  flag_of (bit_and v 1) alloc (bit_and-one v ∙ rest alloc h),
)
  where
    half : (alloc : Bool) → v ≡ (if alloc then bs + 1 else bs) → v / 2 * 2 ≡ bs
    half true h = omega arith
    half false h = omega arith

    rest : (alloc : Bool) → v ≡ (if alloc then bs + 1 else bs) → v % 2 ≡ (if alloc then 1 else 0)
    rest true h = omega arith
    rest false h = omega arith

-- What `set_block` writes reads back: the size and the flag in the header, the size in the footer;
-- every other word is as it was. The size is a multiple of 16 of at least 32 that fits a word.
pub set_block_lem :
    (m : Memory) (b bs : ℕ) (alloc : Bool)
    → bs % 16 ≡ 0
    → 32 ≤ bs
    → bs + 1 < u64_mod
    → let after = set_block m b bs alloc in
      (bsize after b ≡ bs)
      × (allocated after b ≡ alloc)
      × (after (b + bs - footer_size) ≡ bs)
      × ((q : ℕ) → q ≢ b → q ≢ b + bs - footer_size → after q ≡ m q)
unfolding set_block store bsize allocated header
set_block_lem m b bs alloc e large fits =
    let apart : (b == b + bs - footer_size) ≡ false =
      differ b (b + bs - footer_size) (omega arith) in
    let written : set_block m b bs alloc b ≡ header bs alloc = rw (apart, ==_refl b) refl in
    let read = size_of_header (header bs alloc) bs alloc e fits (header-value bs alloc e) in
    (
      ap (λ v. bit_and v (not64 alloc_bit)) written ∙ read.0,
      ap (λ v. not (bit_and v alloc_bit == 0)) written ∙ read.1,
      rw (==_refl (b + bs - footer_size)) refl,
      λ q n k. ground arith,
    )
