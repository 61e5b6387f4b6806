-- ===== src/Launcher/Extremum.antt =====
-- The combination of the blocks' extrema on the host (`launch_argminmax` of
-- src/kernel/kernel_launcher.cpp).
use parallax_runtime.Prelude.{
  ℕ, zero, suc, ◌+◌, ◌≤◌, ◌<◌, ◌≡◌, refl, sym, Bool, true, false, ◌&&◌, ◌||◌, Bool-cases, inl, inr,
  ◌⊎◌, ltb, ltb→lt, ltb→le, arith, if◌then◌else◌, ◌==◌,
}
use mathlib.Core.Path.{subst}
use native.Mathlib.Nat.{add-zero, zero-add}
use parallax_runtime.Launcher.Search.{best_winner, better, Doubles}

-- The comparisons of doubles other than NaN: by a rank.
pub record IsRanked {D : Type 0} (dbl : Doubles D) (rank : D → ℕ) : Type 0 where
  pub gt_rank : (a b : D) → dbl.gt a b ≡ ltb (rank b) (rank a)
  pub lt_rank : (a b : D) → dbl.lt a b ≡ ltb (rank a) (rank b)
  pub eq_rank : (a b : D) → dbl.eq a b ≡ (rank a == rank b)

-- The candidate `i` of rank `x` goes before `j` of rank `y`: by the larger or the smaller value, and
-- among equal values by the larger or the smaller index.
abbrev pub GoesFirst : Bool → Bool → ℕ → ℕ → ℕ → ℕ → Type 0
GoesFirst want_max want_last i x j y =
    (if want_max then y < x else x < y) ⊎ ((x ≡ y) × (if want_last then j < i else i < j))

GoesFirst-trans :
    (want_max want_last : Bool) (i x j y k z : ℕ)
    → GoesFirst want_max want_last i x j y
    → GoesFirst want_max want_last j y k z
    → GoesFirst want_max want_last i x k z
GoesFirst-trans true true i x j y k z h g = ground arith
GoesFirst-trans true false i x j y k z h g = ground arith
GoesFirst-trans false true i x j y k z h g = ground arith
GoesFirst-trans false false i x j y k z h g = ground arith

GoesFirst-irrefl : (want_max want_last : Bool) (i x : ℕ) → ¬ GoesFirst want_max want_last i x i x
GoesFirst-irrefl true true i x h = ground arith
GoesFirst-irrefl true false i x h = ground arith
GoesFirst-irrefl false true i x h = ground arith
GoesFirst-irrefl false false i x h = ground arith

beats_test : Bool → Bool → ℕ → ℕ → ℕ → ℕ → Bool
beats_test want_max want_last i x j y =
    (if want_max then ltb y x else ltb x y) || (x == y) && (if want_last then ltb j i else ltb i j)

beats_of_test :
    (want_max want_last : Bool) (i x j y : ℕ)
    → beats_test want_max want_last i x j y ≡ true
    → GoesFirst want_max want_last i x j y
unfolding beats_test
beats_of_test true true i x j y h = ground arith
beats_of_test true false i x j y h = ground arith
beats_of_test false true i x j y h = ground arith
beats_of_test false false i x j y h = ground arith

no_beats_of_test :
    (want_max want_last : Bool) (i x j y : ℕ)
    → beats_test want_max want_last i x j y ≡ false
    → ¬ GoesFirst want_max want_last i x j y
unfolding beats_test
no_beats_of_test true true i x j y h g = ground arith
no_beats_of_test true false i x j y h g = ground arith
no_beats_of_test false true i x j y h g = ground arith
no_beats_of_test false false i x j y h g = ground arith

shift : (b k : ℕ) → b + 1 + k ≡ b + suc k
shift b k = omega arith

module _ {D : Type 0} (dbl : Doubles D) (rank : D → ℕ) (ranked : IsRanked dbl rank)
    (want_max want_last : Bool) (count : ℕ) where
  better_test :
      (wm : Bool) (best cand : ℕ) (bv v : D)
      → better dbl wm want_last count best bv cand v
        ≡ (best == count || beats_test wm want_last cand (rank v) best (rank bv))
  unfolding better beats_test
  better_test true best cand bv v = rw (ranked.gt_rank v bv, ranked.eq_rank v bv) refl
  better_test false best cand bv v = rw (ranked.lt_rank v bv, ranked.eq_rank v bv) refl

  module _ (winner : ℕ → ℕ) (value : ℕ → D) where
    -- `r` and the value `v` come from a block before `b`, and no valid block before `b` beats them.
    pub record IsBest (b r : ℕ) (v : D) : Type 0 where
      pub block : ℕ
      pub before : block < b
      pub index : r ≡ winner block
      pub element : v ≡ value block
      pub valid : r < count
      pub unbeaten :
          (i : ℕ)
          → i < b
          → winner i < count
          → ¬ GoesFirst want_max want_last (winner i) (rank (value i)) r (rank v)

    -- Or no block before `b` is valid yet.
    abbrev pub CombinesUntil : ℕ → ℕ → D → Type 0
    CombinesUntil b r v = ((r ≡ count) × ((i : ℕ) → i < b → count ≤ winner i)) ⊎ IsBest b r v

    one_more : (Q : ℕ → Type 0) (b : ℕ) → ((i : ℕ) → i < b → Q i) → Q b → (i : ℕ) → i < b + 1 → Q i
    one_more Q b old new i l = elim (Bool-cases (ltb i b)) [
      | inl early ↦ old i (ltb→lt i b early)
      | inr late ↦ let same : b ≡ i = omega (arith, ltb→le i b late) in subst Q same new
    ]

    abbrev IsNotBeaten : ℕ → D → ℕ → Type 0
    IsNotBeaten r v i =
        winner i < count → ¬ GoesFirst want_max want_last (winner i) (rank (value i)) r (rank v)

    -- The best so far stays, where block `b` is not valid or does not beat it.
    seen_stays : (b r : ℕ) (v : D) → IsBest b r v → IsNotBeaten r v b → IsBest (b + 1) r v
    seen_stays b r v best u = record {
      block = best.block;
      before = omega (arith, best.before);
      index = best.index;
      element = best.element;
      valid = best.valid;
      unbeaten = one_more (IsNotBeaten r v) b best.unbeaten u;
    }

    -- Block `b` replaces the best so far, which it beats.
    seen_replaced :
        (b r : ℕ) (v : D)
        → ((i : ℕ) → i < b → IsNotBeaten (winner b) (value b) i)
        → winner b < count
        → IsBest (b + 1) (winner b) (value b)
    seen_replaced b r v old lt = record {
      block = b;
      before = omega arith;
      index = refl;
      element = refl;
      valid = lt;
      unbeaten =
          one_more (IsNotBeaten (winner b) (value b)) b old
            (λ c. GoesFirst-irrefl want_max want_last (winner b) (rank (value b)));
    }

    -- The test of the loop at block `b`.
    replaces : ℕ → ℕ → D → Bool
    replaces b r v =
        ltb (winner b) count && better dbl want_max want_last count r v (winner b) (value b)

    replaced_valid : (b r : ℕ) (v : D) → replaces b r v ≡ true → winner b < count
    unfolding replaces
    replaced_valid b r v e = ground arith

    replaced_beats :
        (b r : ℕ) (v : D)
        → r < count
        → replaces b r v ≡ true
        → GoesFirst want_max want_last (winner b) (rank (value b)) r (rank v)
    unfolding replaces
    replaced_beats b r v l e =
        beats_of_test want_max want_last (winner b) (rank (value b)) r (rank v)
          (ground (arith, better_test want_max r (winner b) v (value b)))

    kept_unbeaten : (b r : ℕ) (v : D) → replaces b r v ≡ false → IsNotBeaten r v b
    unfolding replaces
    kept_unbeaten b r v e c =
        no_beats_of_test want_max want_last (winner b) (rank (value b)) r (rank v)
          (ground (arith, better_test want_max r (winner b) v (value b)))

    kept_none : (b : ℕ) (v : D) → replaces b count v ≡ false → count ≤ winner b
    unfolding replaces
    kept_none b v e = ground (arith, better_test want_max count (winner b) v (value b))

    seen_replace :
        (b r : ℕ) (v : D)
        → replaces b r v ≡ true
        → CombinesUntil b r v
        → CombinesUntil (b + 1) (winner b) (value b)
    seen_replace b r v e (inl (none, invalid)) = inr (
        seen_replaced b r v (λ i l c. absurd (omega (arith, invalid i l))) (replaced_valid b r v e))
    seen_replace b r v e (inr best) = inr (
        seen_replaced b r v
          (λ i l c beats. best.unbeaten i l c (
            GoesFirst-trans want_max want_last _ _ (winner b) (rank (value b)) _ _ beats
              (replaced_beats b r v best.valid e)))
          (replaced_valid b r v e))

    seen_keep :
        (b r : ℕ) (v : D) → replaces b r v ≡ false → CombinesUntil b r v → CombinesUntil (b + 1) r v
    seen_keep b r v e (inl (none, invalid)) = inl (
      none,
      one_more (λ i. count ≤ winner i) b invalid
          (kept_none b v (subst (λ n. replaces b n v ≡ false) none e)),
    )
    seen_keep b r v e (inr best) = inr (seen_stays b r v best (kept_unbeaten b r v e))

    seen_step :
        (b r : ℕ) (v : D)
        → CombinesUntil b r v
        → CombinesUntil
            (b + 1)
            (if replaces b r v then winner b else r)
            (if replaces b r v then value b else v)
    seen_step b r v h = elim (Bool-cases (replaces b r v)) [
      | inl e ↦ rw e (seen_replace b r v e h)
      | inr e ↦ rw e (seen_keep b r v e h)
    ]

    seen_all :
        (k b r : ℕ) (v : D)
        → CombinesUntil b r v
        → (w : D) × CombinesUntil
            (b + k)
            (best_winner dbl want_max want_last count winner value k b r v)
            w
    unfolding best_winner replaces
    seen_all zero b r v h = (v, subst (λ n. CombinesUntil n r v) (sym (add-zero b)) h)
    seen_all (suc k) b r v h =
        let r' = if replaces b r v then winner b else r in
        let v' = if replaces b r v then value b else v in
        let (w, seen) = seen_all k (b + 1) r' v' (seen_step b r v h) in
        (
          w,
          subst
              (λ n.
                CombinesUntil n
                  (best_winner dbl want_max want_last count winner value k (b + 1) r' v') w)
              (shift b k) seen,
        )

    -- What `launch_argminmax` combines from the blocks' winners: `count` if no block has a winner
    -- below `count`; otherwise the index of a winner that no other winner beats, where a larger value
    -- goes first for a maximum and a smaller one for a minimum, and among equal values the larger index
    -- if the last is wanted and else the smaller.
    pub best_winner_lem :
        (groups : ℕ)
        → (w : D) × CombinesUntil groups
            (best_winner dbl want_max want_last count winner value groups 0 count dbl.nought)
            w
    best_winner_lem groups =
        let (w, seen) =
          seen_all groups 0 count dbl.nought (inl (refl, λ i l. absurd (omega arith))) in
        (
          w,
          subst
              (λ n.
                CombinesUntil n
                  (best_winner dbl want_max want_last count winner value groups 0 count dbl.nought)
                  w)
              (zero-add groups) seen,
        )
