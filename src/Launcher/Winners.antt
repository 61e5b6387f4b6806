-- ===== src/Launcher/Winners.antt =====
-- The combination of the blocks' winners on the host (src/kernel/kernel_launcher.cpp): what the
-- searches return, where each block's kernel does what include/parallax/kernel_launcher.hpp says.
use parallax_runtime.Prelude.{
  ℕ, zero, suc, ◌+◌, ◌*◌, ◌^◌, ◌≤◌, ◌<◌, ◌≡◌, sym, Bool, true, false, Bool-cases, inl, inr, ltb,
  ltb→lt, ltb→le, arith, if◌then◌else◌,
}
use mathlib.Core.Path.{subst}
use native.Mathlib.Nat.{add-zero}
use parallax_runtime.Launcher.Steps.{workgroups}
use parallax_runtime.Launcher.Search.{least_winner}

-- `w` is the first index from `lo` on, below `hi`, at which `p` holds; from `hi` on if there is none.
pub record IsFirstIn (p : ℕ → Bool) (lo hi w : ℕ) : Type 0 where
  pub none_before : (j : ℕ) → lo ≤ j → j < hi → j < w → p j ≡ false
  pub holds : w < hi → p w ≡ true

-- "per-block min matching index", or `count` if the block has none.
abbrev pub BlockWinner : (ℕ → Bool) → ℕ → ℕ → ℕ → Type 0
BlockWinner p count b w =
    ((j : ℕ) → b * 256 ≤ j → j < b * 256 + 256 → j < count → j < w → p j ≡ false)
    × (w < count → p w ≡ true)

workgroups_cover : (count : ℕ) → count < 2 ^ 32 → count ≤ workgroups count * 256
unfolding workgroups
workgroups_cover count h = omega arith

module _ (p : ℕ → Bool) (count : ℕ) (winner : ℕ → ℕ) where
  -- After the blocks before `b`.
  IsBestUntil : ℕ → ℕ → Type 0
  IsBestUntil b best =
      ((j : ℕ) → j < b * 256 → j < count → j < best → p j ≡ false) × (best < count → p best ≡ true)

  -- Below both, no match in the block nor before it.
  none_below :
      (b best j : ℕ)
      → BlockWinner p count b (winner b)
      → IsBestUntil b best
      → j < (b + 1) * 256
      → j < count
      → j < winner b
      → j < best
      → p j ≡ false
  unfolding IsBestUntil
  none_below b best j w h l c m n = elim (Bool-cases (ltb j (b * 256))) [
    | inl early ↦ h.0 j (ltb→lt j (b * 256) early) c n
    | inr late ↦ w.0 j (ltb→le j (b * 256) late) (omega arith) c m
  ]

  best_step :
      (b best : ℕ)
      → BlockWinner p count b (winner b)
      → IsBestUntil b best
      → IsBestUntil (b + 1) (if ltb (winner b) best then winner b else best)
  unfolding IsBestUntil
  best_step b best w h = elim (Bool-cases (ltb (winner b) best)) [
    | inl less ↦
        let lt : winner b < best = ltb→lt (winner b) best less in
        rw less (λ j l c n. none_below b best j w h l c n (omega arith), w.1)
    | inr more ↦
        let ge : best ≤ winner b = ltb→le (winner b) best more in
        rw more (λ j l c n. none_below b best j w h l c (omega arith) n, h.1)
  ]

  best_all :
      (k b best : ℕ)
      → ((i : ℕ) → b ≤ i → i < b + k → BlockWinner p count i (winner i))
      → IsBestUntil b best
      → IsBestUntil (b + k) (least_winner winner k b best)
  unfolding least_winner
  best_all zero b best w h = subst (λ n. IsBestUntil n best) (sym (add-zero b)) h
  best_all (suc k) b best w h =
      let better_one = if ltb (winner b) best then winner b else best in
      subst (λ n. IsBestUntil n (least_winner winner k (b + 1) better_one)) (shift b k)
        (best_all k (b + 1) better_one (λ i l m. w i (omega arith) (omega arith))
          (best_step b best (w b (omega arith) (omega arith)) h))
    where
      shift : (b k : ℕ) → b + 1 + k ≡ b + suc k
      shift b k = omega arith

  -- `launch_find` and `launch_mismatch` return the first index below `count` with a match, and `count`
  -- if there is none, where each block's winner is the first match in the block or `count`, and the
  -- count fits 32 bits.
  pub least_winner-IsFirstIn :
      count < 2 ^ 32
      → ((i : ℕ) → i < workgroups count → BlockWinner p count i (winner i))
      → IsFirstIn p 0 count (least_winner winner (workgroups count) 0 count)
  unfolding IsBestUntil
  least_winner-IsFirstIn small w =
      let all =
        best_all (workgroups count) 0 count (λ i l m. w i (omega arith))
          (λ j l c n. absurd (omega arith), λ h. absurd (omega arith)) in
      record { none_before = λ j l c n. all.0 j (covers j c) c n; holds = all.1 }
    where
      covers : (j : ℕ) → j < count → j < (0 + workgroups count) * 256
      covers j c = omega (arith, workgroups_cover count small)
