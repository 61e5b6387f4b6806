-- ===== src/HeapPool/Retile.antt =====
-- The tiling of the pool of src/memory/heap_pool.cpp when `block_alloc` splits a block, when
-- `block_free` merges two, and when the links of a free list are written.
use parallax_runtime.Prelude.{
  ℕ, ◌+◌, ◌-◌, ◌%◌, ◌≤◌, ◌<◌, ◌≡◌, ◌⊎◌, inl, inr, refl, sym, ap, ◌∙◌, Bool, true, false, arith,
  bit_and, not64, bit_and-15, u64_mod,
}
use mathlib.Core.Path.{subst}
use parallax_runtime.HeapPool.{Memory, bsize, set_block, footer_size, alloc_bit}
use parallax_runtime.HeapPool.Tiling.{IsBlock, Tiled, done, block, Tiled-le}
use parallax_runtime.HeapPool.Blocks.{set_block_lem}

bsize-same : (m m' : Memory) (b : ℕ) → m' b ≡ m b → bsize m' b ≡ bsize m b
unfolding bsize
bsize-same m m' b e = ap (λ v. bit_and v (not64 alloc_bit)) e

module _ (m m' : Memory) (base : ℕ) where
  -- A tiling of words that stay.
  Tiled-frame :
      (res off : ℕ)
      → ((q : ℕ) → base + off ≤ q → q < base + res → m' q ≡ m q)
      → Tiled m base res off
      → Tiled m' base res off
  Tiled-frame res _ same (done off e) = done off e
  Tiled-frame res _ same (block off lt b t) =
      let inside = Tiled-le m base res (off + bsize m (base + off)) t in
      let size : bsize m' (base + off) ≡ bsize m (base + off) =
        bsize-same m m' (base + off) (same (base + off) (omega arith) (omega arith)) in
      block off lt
        (record {
          large = omega (arith, b.large, size);
          even = rw size b.even;
          footer = rw size (
              same (base + off + bsize m (base + off) - footer_size) (omega (arith, b.large))
                (omega (arith, b.large, inside))
              ∙ b.footer);
        })
        (rw size (
          Tiled-frame res (off + bsize m (base + off))
            (λ q lo hi. same q (omega (arith, b.large)) hi) t))

-- A tiling up to an offset, and one from there on.
Tiled-append :
    (m : Memory) (base mid res off : ℕ)
    → Tiled m base mid off
    → Tiled m base res mid
    → Tiled m base res off
Tiled-append m base mid res _ (done off e) t = subst (Tiled m base res) (sym e) t
Tiled-append m base mid res _ (block off lt b s) t =
    block off
      (omega (
        arith,
        Tiled-le m base mid (off + bsize m (base + off)) s,
        b.large,
        Tiled-le m base res mid t,
      ))
      b (Tiled-append m base mid res (off + bsize m (base + off)) s t)

-- A block that has just been written.
written-IsBlock :
    (m : Memory) (b bs : ℕ)
    → bsize m b ≡ bs
    → m (b + bs - footer_size) ≡ bs
    → bs % 16 ≡ 0
    → 32 ≤ bs
    → IsBlock m b
written-IsBlock m b bs e f even large = record {
  large = omega (arith, e);
  even = ap (λ v. bit_and v 15) e ∙ (bit_and-15 bs ∙ even);
  footer = rw e f;
}

-- One block more in front of a tiling, at an address and of a size that are given by equations.
cons_block :
    (m : Memory) (base res off bs b : ℕ)
    → b ≡ base + off
    → bsize m b ≡ bs
    → m (b + bs - footer_size) ≡ bs
    → bs % 16 ≡ 0
    → 32 ≤ bs
    → Tiled m base res (off + bs)
    → Tiled m base res off
cons_block m base res off bs b at e f even large t =
    let size : bsize m (base + off) ≡ bs = ap (bsize m) (sym at) ∙ e in
    let there : IsBlock m (base + off) =
      subst (IsBlock m) at (written-IsBlock m b bs e f even large) in
    block off (omega (arith, Tiled-le m base res (off + bs) t)) there
      (subst (λ n. Tiled m base res (off + n)) (sym size) t)

module _ (m : Memory) (base res o : ℕ) where
  -- Where a tiled pool has a block of `bs` bytes, writing two blocks of `need` and of `bs - need`
  -- bytes in its place leaves a tiled pool, for sizes that are multiples of 16 and at least 32: the
  -- split of `block_alloc`.
  pub split-Tiled :
      (bs need : ℕ)
      → Tiled m base o 0
      → Tiled m base res (o + bs)
      → need % 16 ≡ 0
      → 32 ≤ need
      → bs % 16 ≡ 0
      → need + 32 ≤ bs
      → bs + 1 < u64_mod
      → Tiled
          (set_block (set_block m (base + o) need true) (base + o + need) (bs - need) false)
          base
          res
          0
  split-Tiled bs need before after en ln eb room fits =
      let b = base + o in
      let m1 = set_block m b need true in
      let m2 = set_block m1 (b + need) (bs - need) false in
      let first = set_block_lem m b need true en ln (omega arith) in
      let second =
        set_block_lem m1 (b + need) (bs - need) false (omega arith) (omega arith) (omega arith) in
      let apart : (q : ℕ) → (q < b) ⊎ (b + bs ≤ q) → m2 q ≡ m q = λ q out.
        second.3 q (λ z. ground arith) (λ z. ground arith)
        ∙ first.3 q (λ z. ground arith) (λ z. ground arith) in
      let head : m2 b ≡ m1 b = second.3 b (λ z. omega arith) (λ z. omega arith) in
      let foot : m2 (b + need - footer_size) ≡ m1 (b + need - footer_size) =
        second.3 (b + need - footer_size) (λ z. omega arith) (λ z. omega arith) in
      let whole : o + need + (bs - need) ≡ o + bs = omega arith in
      let rest : Tiled m2 base res (o + bs) =
        Tiled-frame m m2 base res (o + bs) (λ q lo hi. apart q (inr (omega arith))) after in
      let tail : Tiled m2 base res (o + need) =
        cons_block m2 base res (o + need) (bs - need) (b + need) (omega arith) second.0 second.2
          (omega arith) (omega arith) (subst (Tiled m2 base res) (sym whole) rest) in
      let middle : Tiled m2 base res o =
        cons_block m2 base res o need b refl (bsize-same m1 m2 b head ∙ first.0) (foot ∙ first.2) en
          ln tail in
      Tiled-append m2 base o res 0 (Tiled-frame m m2 base o 0 (λ q lo hi. apart q (inl hi)) before)
        middle

  -- Where a tiled pool has two blocks of `x` and `y` bytes next to each other, writing one block
  -- of both sizes in their place leaves a tiled pool, for sizes that are multiples of 16 and at
  -- least 32: the coalescing of `block_free`.
  pub merge-Tiled :
      (x y : ℕ) (alloc : Bool)
      → Tiled m base o 0
      → Tiled m base res (o + x + y)
      → x % 16 ≡ 0
      → 32 ≤ x
      → y % 16 ≡ 0
      → 32 ≤ y
      → x + y + 1 < u64_mod
      → Tiled (set_block m (base + o) (x + y) alloc) base res 0
  merge-Tiled x y alloc before after ex lx ey ly fits =
      let b = base + o in
      let m1 = set_block m b (x + y) alloc in
      let made = set_block_lem m b (x + y) alloc (omega arith) (omega arith) fits in
      let apart : (q : ℕ) → (q < b) ⊎ (b + (x + y) ≤ q) → m1 q ≡ m q =
        λ q out. made.3 q (λ z. ground arith) (λ z. ground arith) in
      let whole : o + x + y ≡ o + (x + y) = omega arith in
      let rest : Tiled m1 base res (o + x + y) =
        Tiled-frame m m1 base res (o + x + y) (λ q lo hi. apart q (inr (omega arith))) after in
      Tiled-append m1 base o res 0 (Tiled-frame m m1 base o 0 (λ q lo hi. apart q (inl hi)) before)
        (cons_block m1 base res o (x + y) b refl made.0 made.2 (omega arith) (omega arith)
          (subst (Tiled m1 base res) whole rest))
