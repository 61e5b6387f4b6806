-- ===== src/Arena/Grants.antt =====
-- The results of `allocate` of src/memory/arena.cpp that are not null.
use mathlib.Core.Path.{subst}
use parallax_runtime.Prelude.{
  ℕ, ◌+◌, ◌%◌, ◌≤◌, ◌<◌, ◌≡◌, refl, ◌≢◌, inl, inr, none, some, [], ◌∷◌, max, arith, ap, align_up,
  All, Map, find, find-insert, ==_refl,
}
use parallax_runtime.HeapPool.Interface.{PoolOps}
use parallax_runtime.Arena.{
  Arena, Block, block, default_alignment, hand_out, allocate_own, allocate,
}
use parallax_runtime.Arena.Live.{LiveApart}
use parallax_runtime.Arena.Invariant.{IsValid, IsRequest, IsOffer, Entry, hand_out-IsValid}
use parallax_runtime.Arena.Allocate

-- Without a pool the call is the arena's own.
pub allocate-eq-own :
    {P : Type 0} (ops : PoolOps P) (pool : P) (r : Arena) (size align : ℕ)
    → IsValid r
    → 0 < size
    → allocate ops pool r size align
      ≡ ((allocate_own r size align).0, (allocate_own r size align).1, pool)
unfolding allocate
allocate-eq-own ops pool r size align v h = ground (arith, v.own, v.mapped)

-- `p` points to a block of at least `size` bytes that is live in `r'`, begins at a multiple of
-- the alignment, lies in the mapped range, and overlaps no block that was live in `r`.
pub record IsGrant (r r' : Arena) (p size align : ℕ) : Type 0 where
  pub b : Block
  pub listed : find p r'.live ≡ some b
  pub others : (k : ℕ) → k ≢ p → find k r'.live ≡ find k r.live
  pub unused : find p r.live ≡ none
  pub enough : size ≤ b.size
  pub address : p ≡ r.host_base + b.offset
  pub aligned : b.offset % max align default_alignment ≡ 0
  pub inside : b.offset + b.size ≤ r.capacity
  pub clear : LiveApart r.live b

-- A block that overlaps no live block has a key of its own.
pub unused_key :
    (base bump : ℕ) (b : Block) (m : Map Block)
    → 0 < b.size
    → All (Entry base bump) m
    → LiveApart m b
    → find (base + b.offset) m ≡ none
unfolding find
unused_key base bump b [] pos h a = refl
unused_key base bump b ((p, c) ∷ m) pos h a =
    ground (arith, h.0, a.0, unused_key base bump b m pos h.1 a.1)

hand_out-IsGrant :
    (r from : Arena) (off size align : ℕ)
    → IsValid from
    → IsOffer from off (align_up size (max align default_alignment))
    → size ≤ align_up size (max align default_alignment)
    → off % max align default_alignment ≡ 0
    → from.live ≡ r.live
    → from.host_base ≡ r.host_base
    → from.capacity ≡ r.capacity
    → let h = hand_out from off (align_up size (max align default_alignment)) in
      IsGrant r h.1 h.0 size align
unfolding hand_out
hand_out-IsGrant r from off size align v o big al live base same_cap = record {
  b = given;
  listed = rw (find-insert key key given from.live, ==_refl key);
  others = λ k ne. rw (find-insert key k given from.live) (ground (arith, ap (find k) live, ne));
  unused =
      rw live at
        (unused_key from.host_base from.bump given from.live o.inside.0 v.live_in o.live_of);
  enough = big;
  address = ap (λ n. n + off) base;
  aligned = al;
  inside = omega (arith, o.inside, v.tail, v.mark, same_cap);
  clear = subst (λ m. LiveApart m given) live o.live_of;
}
  where
    need : ℕ
    need = align_up size (max align default_alignment)

    given : Block
    given = block off need

    key : ℕ
    key = from.host_base + off

module _ {P : Type 0} (ops : PoolOps P) (pool : P) (r : Arena) (size align : ℕ) (v : IsValid r)
    (q : IsRequest size align) where
  -- Whatever the call returns, it keeps the invariant: for a valid arena and a size above 0, where the
  -- alignment, or 256 if that is larger, is a power of two and makes at most 2^62 with the size.
  pub allocate-IsValid : IsValid (allocate ops pool r size align).1
  allocate-IsValid =
      rw (allocate-eq-own ops pool r size align v q.asked)
        (elim (Allocate.allocate-cases r size align v q) [
          | inl c ↦
              rw c.call
                (hand_out-IsValid c.from c.off (Allocate.need r size align v q) c.valid c.offer)
          | inr f ↦ rw f.call v
        ])

  -- A pointer that is not null is a grant: for a valid arena and a size above 0, where the alignment,
  -- or 256 if that is larger, is a power of two and makes at most 2^62 with the size.
  pub allocate-IsGrant :
      (allocate ops pool r size align).0 ≢ 0
      → IsGrant r (allocate ops pool r size align).1 (allocate ops pool r size align).0 size align
  allocate-IsGrant =
      rw (allocate-eq-own ops pool r size align v q.asked)
        (elim (Allocate.allocate-cases r size align v q) [
          | inl c ↦ λ _. rw c.call (
              hand_out-IsGrant r c.from c.off size align c.valid c.offer
                (Allocate.need_bounds r size align v q).0 c.aligned c.same_live c.same_base
                c.same_capacity)
          | inr f ↦ λ ne. absurd (ne (ap (λ x. x.0) f.call))
        ])
