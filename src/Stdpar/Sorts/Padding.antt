-- ===== src/Stdpar/Sorts/Padding.antt =====
-- The padding of `device_sort` (include/parallax/stdpar.hpp): the power of two, and what padding with
-- the largest value does to the order.
use parallax_runtime.Prelude.{
  ℕ, zero, suc, ◌+◌, ◌*◌, ◌%◌, ◌^◌, ◌≤◌, ◌<◌, ◌≡◌, inl, inr, refl, ap, ◌∙◌, Bool, false, some, List,
  [], ◌∷◌, ◌++◌, length, Bool-cases, ltb, ltb→lt, ltb→le, arith,
}
use native.Mathlib.Nat.{pow-suc}
use parallax_runtime.Stdpar.{Memory, update, write}
use parallax_runtime.Stdpar.Sorts.{next_power, insert_sorted, sorted, fill_top}
use parallax_runtime.Stdpar.{Entries}

abbrev pub IsPower : ℕ → Type 0
IsPower m = (j : ℕ) × (m ≡ 2 ^ j)

-- What the loop ends with.
pub record IsNextPower (n m : ℕ) : Type 0 where
  pub enough : n ≤ m
  pub power : IsPower m

double : (m k : ℕ) → m * 2 * 2 ^ k ≡ m * 2 ^ suc k
double m k = omega (arith, ap (λ p. m * p) (pow-suc 2 k))

next_power_from :
    (fuel m n : ℕ)
    → m < 2 ^ 64
    → m * 2 ^ fuel ≡ 2 ^ 64
    → IsPower m
    → n ≤ 2 ^ 63
    → (r : ℕ) × (next_power fuel m n ≡ some r) × IsNextPower n r
unfolding next_power
next_power_from zero m n b e p h = absurd (omega arith)
next_power_from (suc fuel) m n b e (j, p) h = elim (Bool-cases (ltb m n)) [
  | inl less ↦
      let lt : m < n = ltb→lt m n less in
      let same : m * 2 % 2 ^ 64 ≡ m * 2 = omega arith in
      rw (less, same)
        (next_power_from fuel (m * 2) n (omega arith) (double m fuel ∙ e)
          (suc j, omega (arith, pow-suc 2 j)) h)
  | inr more ↦ rw more (m, refl, record { enough = ltb→le m n more; power = (j, p) })
]

-- The loop ends, for at most 2^63 elements, with a power of two that is large enough.
pub next_power_lem : (n : ℕ) → n ≤ 2 ^ 63 → (r : ℕ) × (next_power 64 1 n ≡ some r) × IsNextPower n r
next_power_lem n h = next_power_from 64 1 n (omega arith) refl (0, refl) h

abbrev pub copies : {V : Type 0} → V → ℕ → List V
copies x zero = []
copies x (suc k) = x ∷ copies x k

pub length-copies : {V : Type 0} (x : V) (k : ℕ) → length (copies x k) ≡ k
length-copies x zero = refl
length-copies x (suc k) = ap suc (length-copies x k)

module _ {V : Type 0} (lt : V → V → Bool) where
  length-insert_sorted : (x : V) (ys : List V) → length (insert_sorted lt x ys) ≡ suc (length ys)
  unfolding insert_sorted
  length-insert_sorted x [] = refl
  length-insert_sorted x (y ∷ ys) = elim (Bool-cases (lt y x)) [
    | inl less ↦ rw less (ap suc (length-insert_sorted x ys))
    | inr more ↦ rw more refl
  ]

  pub length-sorted : (xs : List V) → length (sorted lt xs) ≡ length xs
  unfolding sorted
  length-sorted [] = refl
  length-sorted (x ∷ xs) = length-insert_sorted x (sorted lt xs) ∙ ap suc (length-sorted xs)

  module _ (top : V) (largest : (x : V) → lt top x ≡ false) where
    insert-copies : (x : V) (k : ℕ) → insert_sorted lt x (copies top k) ≡ x ∷ copies top k
    unfolding insert_sorted
    insert-copies x zero = refl
    insert-copies x (suc k) = rw (largest x) refl

    insert-append :
        (x : V) (ys : List V) (k : ℕ)
        → insert_sorted lt x (ys ++ copies top k) ≡ insert_sorted lt x ys ++ copies top k
    unfolding insert_sorted
    insert-append x [] k = insert-copies x k
    insert-append x (y ∷ ys) k = elim (Bool-cases (lt y x)) [
      | inl less ↦ rw less (ap (λ zs. y ∷ zs) (insert-append x ys k))
      | inr more ↦ rw more refl
    ]

    sorted-copies : (k : ℕ) → sorted lt (copies top k) ≡ copies top k
    unfolding sorted
    sorted-copies zero = refl
    sorted-copies (suc k) = ap (insert_sorted lt top) (sorted-copies k) ∙ insert-copies top k

    -- Copies of the largest value stay at the end.
    pub sorted-append :
        (xs : List V) (k : ℕ) → sorted lt (xs ++ copies top k) ≡ sorted lt xs ++ copies top k
    unfolding sorted
    sorted-append [] k = sorted-copies k
    sorted-append (x ∷ xs) k =
        ap (insert_sorted lt x) (sorted-append xs k) ∙ insert-append x (sorted lt xs) k

pub fill_top_lem :
    {S V : Type 0} (es : Entries S V) (lt : V → V → Bool) (top : V) (k p size : ℕ) (m : Memory V)
    → fill_top es lt top m p size k ≡ write m p size (copies top k)
unfolding fill_top write
fill_top_lem es lt top zero p size m = refl
fill_top_lem es lt top (suc k) p size m = fill_top_lem es lt top k (p + size) size (update m p top)
