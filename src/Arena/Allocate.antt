-- ===== src/Arena/Allocate.antt =====
-- `allocate` of src/memory/arena.cpp on both of its paths, first fit and bump.
use parallax_runtime.Prelude.{
  ℕ, ◌+◌, ◌%◌, ◌≤◌, ◌<◌, ◌≡◌, refl, ◌⊎◌, inl, inr, true, false, none, some, List, max, arith, All,
  All-map, Option-cases, Bool-cases, ltb, ltb→lt, ltb→le, u64_mod, add64, align_up, align_up_bounds,
}
use parallax_runtime.Arena.{
  Arena, Block, default_alignment, fit, hand_out, bump_allocate, allocate_own,
}
use parallax_runtime.Arena.Fit.{Takes, fit-Takes, Takes-aligned}
use parallax_runtime.Arena.Invariant.{
  IsValid, IsRequest, IsOffer, taken-IsValid, taken-IsOffer, grown-IsValid, grown-IsOffer,
}

module _ (r : Arena) (size align : ℕ) (v : IsValid r) (q : IsRequest size align) where
  abbrev pub step : ℕ
  step = max align default_alignment

  abbrev pub need : ℕ
  need = align_up size step

  pub need_bounds : (size ≤ need) × (need < size + step) × (need % step ≡ 0)
  need_bounds = align_up_bounds size step q.pow (omega (arith, q.fits))

  -- The arena just before `hand_out`, and the offset that is handed out.
  pub record Choice : Type 0 where
    pub from : Arena
    pub off : ℕ
    pub valid : IsValid from
    pub offer : IsOffer from off need
    pub aligned : off % step ≡ 0
    pub same_live : from.live ≡ r.live
    pub same_base : from.host_base ≡ r.host_base
    pub same_capacity : from.capacity ≡ r.capacity
    pub call : allocate_own r size align ≡ hand_out from off need

  pub record Refusal : Type 0 where
    pub no_fit : fit step need r.free_list ≡ none
    pub no_tail : r.capacity < align_up r.bump step + need
    pub call : allocate_own r size align ≡ (0, r)

  pub small_free : All (λ b. b.offset + b.size + step + need < u64_mod) r.free_list
  small_free =
      All-map r.free_list (λ b h. omega (arith, v.small, v.tail, v.mark, q.fits, need_bounds))
        v.free_in

  first_fit : (c : ℕ × List Block) → fit step need r.free_list ≡ some c → Choice
  unfolding allocate_own
  first_fit (off, rest) e = record {
    from = record r { free_list = rest };
    off = off;
    valid = taken-IsValid r step need off rest pos v taken;
    offer = taken-IsOffer r step need off rest pos v taken;
    aligned = Takes-aligned taken;
    same_live = refl;
    same_base = refl;
    same_capacity = refl;
    call = rw (e, allocate_own);
  }
    where
      pos : 0 < need
      pos = omega (arith, q.asked, need_bounds)

      taken : Takes step need r.free_list off rest
      taken = fit-Takes step need q.pow r.free_list small_free e

  tail_bounds :
      (r.bump ≤ align_up r.bump step)
      × (align_up r.bump step % step ≡ 0)
      × (add64 (align_up r.bump step) need ≡ align_up r.bump step + need)
  tail_bounds =
      let room : r.bump + step ≤ u64_mod = omega (arith, v.small, v.tail, v.mark, q.fits) in
      let b = align_up_bounds r.bump step q.pow room in
      (b.0, b.2, omega (arith, v.small, v.tail, v.mark, q.fits, need_bounds))

  from_tail :
      fit step need r.free_list ≡ none
      → ltb r.capacity (add64 (align_up r.bump step) need) ≡ false
      → Choice
  unfolding allocate_own
  from_tail e t = record {
    from = record r { bump = off + need; high_water = max r.high_water (off + need) };
    off = off;
    valid = grown-IsValid r off need pos v tail_bounds.0 hi;
    offer = grown-IsOffer r off need pos v tail_bounds.0 hi;
    aligned = tail_bounds.1;
    same_live = refl;
    same_base = refl;
    same_capacity = refl;
    call = rw (e, allocate_own) (rw (t, bump_allocate) (rw tail_bounds.2));
  }
    where
      off : ℕ
      off = align_up r.bump step

      pos : 0 < need
      pos = omega (arith, q.asked, need_bounds)

      hi : off + need ≤ r.capacity
      hi = omega (arith, ltb→le _ _ t, tail_bounds.2)

  refused :
      fit step need r.free_list ≡ none
      → ltb r.capacity (add64 (align_up r.bump step) need) ≡ true
      → Refusal
  unfolding allocate_own
  refused e t = record {
    no_fit = e;
    no_tail = omega (arith, ltb→lt _ _ t, tail_bounds.2);
    call = rw (e, allocate_own) (rw (t, bump_allocate));
  }

  pub allocate-cases : Choice ⊎ Refusal
  allocate-cases = elim (Option-cases (fit step need r.free_list)) [
    | inl e ↦ elim (Bool-cases (ltb r.capacity (add64 (align_up r.bump step) need))) [
      | inl t ↦ inr (refused e t)
      | inr t ↦ inl (from_tail e t)
    ]
    | inr (c, e) ↦ inl (first_fit c e)
  ]
