-- ===== src/Arena/Exhausted.antt =====
-- The null results of `allocate` of src/memory/arena.cpp.
use parallax_runtime.Prelude.{
  ℕ, ◌+◌, ◌%◌, ◌≤◌, ◌<◌, ◌≡◌, sym, ◌∙◌, ◌≢◌, inl, inr, false, none, some, List, [], ◌∷◌, ◌++◌, max,
  arith, ap, All, All-find, find, leb, leb→lt, u64_mod, add64, sub64, align_up, IsPow2,
  align_up_bounds, align_up_fixed,
}
use parallax_runtime.HeapPool.Interface.{PoolOps}
use parallax_runtime.Arena.{Arena, Block, default_alignment, fit, hand_out, allocate, deallocate}
use parallax_runtime.Arena.Invariant.{IsValid, IsRequest, Entry}
use parallax_runtime.Arena.Grants.{allocate-eq-own}
use parallax_runtime.Arena.Release.{deallocate-IsValid, deallocate-IsRelease}
use mathlib.Core.Path.{subst}
use parallax_runtime.Arena.Allocate

-- `need` bytes from a multiple of `a` on do not fit into the block.
abbrev pub TooSmall : ℕ → ℕ → Block → Type 0
TooSmall a need b = b.offset + b.size < align_up b.offset a + need

module _ (a need : ℕ) (pow : IsPow2 a) where
  fit-cons_none :
      (b : Block) (bs : List Block)
      → fit a need (b ∷ bs) ≡ none
      → (leb (add64 (sub64 (align_up b.offset a) b.offset) need) b.size ≡ false)
        × (fit a need bs ≡ none)
  unfolding fit
  fit-cons_none b bs e = ground arith

  fit-none :
      (bs : List Block)
      → All (λ b. b.offset + b.size + a + need < u64_mod) bs
      → fit a need bs ≡ none
      → All (TooSmall a need) bs
  fit-none [] small e = tt
  fit-none (b ∷ bs) small e =
      let c = fit-cons_none b bs e in
      let bounds = align_up_bounds b.offset a pow (omega arith) in
      let short = leb→lt (add64 (sub64 (align_up b.offset a) b.offset) need) b.size c.0 in
      (omega arith, fit-none bs small.1 c.1)

hand_out-ne-null : (r : Arena) (off need : ℕ) → IsValid r → (hand_out r off need).0 ≢ 0
unfolding hand_out
hand_out-ne-null r off need v = omega (arith, v.mapped)

All-last : (P : Block → Type 0) (bs : List Block) (b : Block) → All P (bs ++ (b ∷ [])) → P b
All-last P [] b h = h.0
All-last P (c ∷ bs) b h = All-last P bs b h.1

module _ {P : Type 0} (ops : PoolOps P) (pool : P) (r : Arena) (size align : ℕ) (v : IsValid r)
    (q : IsRequest size align) where
  abbrev step : ℕ
  step = max align default_alignment

  -- For a size above 0, where the alignment, or 256 if that is larger, is a power of two and makes at
  -- most 2^62 with the size: null is returned only by a valid arena in which every free block and the
  -- never-used tail are too small, and then nothing has changed.
  pub allocate_null :
      (allocate ops pool r size align).0 ≡ 0
      → All (TooSmall step (align_up size step)) r.free_list
        × (r.capacity < align_up r.bump step + align_up size step)
        × (allocate ops pool r size align ≡ (0, r, pool))
  allocate_null e = elim (Allocate.allocate-cases r size align v q) [
    | inl c ↦ absurd (
        hand_out-ne-null c.from c.off _ c.valid (
          sym
            (ap (λ x. x.0) (allocate-eq-own ops pool r size align v q.asked) ∙ ap (λ x. x.0) c.call)
          ∙ e))
    | inr f ↦ (
      fit-none step (align_up size step) q.pow r.free_list (Allocate.small_free r size align v q)
          f.no_fit,
      f.no_tail,
      rw (allocate-eq-own ops pool r size align v q.asked, f.call),
    )
  ]

module _ {P : Type 0} (ops : PoolOps P) (pool : P) (r : Arena) (size align p : ℕ) (b : Block)
    (v : IsValid r) (q : IsRequest size align) (e : find p r.live ≡ some b)
    (big : align_up size (max align default_alignment) ≤ b.size)
    (aligned : b.offset % max align default_alignment ≡ 0) where
  -- A live block of a valid arena that is given back serves a request that it can hold at its own
  -- offset, of a size above 0, where the alignment, or 256 if that is larger, is a power of two and
  -- makes at most 2^62 with the size: memory is reused.
  pub allocate-deallocate :
      let d = deallocate ops pool r p in (allocate ops d.1 d.0 size align).0 ≢ 0
  allocate-deallocate h =
      let d = deallocate ops pool r p in
      let kept = deallocate-IsValid ops pool r p v in
      let too_small = (allocate_null ops d.1 d.0 size align kept q h).0 in
      let freed = (deallocate-IsRelease ops pool r p v b e).free in
      let last : TooSmall (max align default_alignment)
          (align_up size (max align default_alignment)) b =
        All-last _ r.free_list b (subst (All _) freed too_small) in
      let inside = (All-find (Entry r.host_base r.bump) p b r.live e v.live_in).1 in
      omega (
        arith,
        align_up_fixed b.offset (max align default_alignment) q.pow
            (omega (arith, v.small, v.tail, v.mark, q.fits)) aligned,
      )
