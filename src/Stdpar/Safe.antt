-- ===== src/Stdpar/Safe.antt =====
-- When a sequential loop of include/parallax/stdpar.hpp may write one range while it reads another.
use parallax_runtime.Prelude.{ℕ, suc, ◌+◌, ◌*◌, ◌≤◌, ◌<◌, ◌≡◌, ◌⊎◌, inl, inr, arith}
use parallax_runtime.Stdpar.Ranges.{IsOutside}

-- Two ranges that a loop over both may use: they are apart, or the same.
abbrev pub IsSafe : ℕ → ℕ → ℕ → ℕ → ℕ → Type 0
IsSafe in_size out_size input output n =
    ((input + n * in_size ≤ output) ⊎ (output + n * out_size ≤ input))
    ⊎ ((input ≡ output) × (in_size ≡ out_size))

pub next-IsSafe :
    (n in_size out_size input output : ℕ)
    → 0 < in_size
    → IsSafe in_size out_size input output (suc n)
    → IsSafe in_size out_size (input + in_size) (output + out_size) n
      × IsOutside (input + in_size) (n * in_size) output
next-IsSafe n in_size out_size input output h (inl (inl before)) =
    (inl (inl (omega arith)), inr (omega arith))
next-IsSafe n in_size out_size input output h (inl (inr after)) =
    (inl (inr (omega arith)), inl (omega arith))
next-IsSafe n in_size out_size input output h (inr (same, sizes)) =
    (inr (omega arith, sizes), inl (omega arith))
