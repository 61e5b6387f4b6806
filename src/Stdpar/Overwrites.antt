-- ===== src/Stdpar/Overwrites.antt =====
-- Two writes to the same range (the copies of include/parallax/stdpar.hpp).
use parallax_runtime.Prelude.{
  ℕ, zero, suc, ◌+◌, ◌<◌, ◌≡◌, ◌≢◌, ◌⊎◌, inl, inr, refl, ap, sym, ◌∙◌, List, [], ◌∷◌, length,
  Bool-cases, ◌==◌, arith,
}
use parallax_runtime.Stdpar.{Memory, update, write}
use parallax_runtime.Stdpar.Ranges.{write-outside, update-ne, update_self}

module _ (V : Type 0) (size : ℕ) (pos : 0 < size) where
  -- At an address that is written, what was there before does not show; others are as they were.
  abbrev IsOverwritten : ℕ → ℕ → ℕ → Type 0
  IsOverwritten n p q =
      (ys : List V) (m m' : Memory V) → length ys ≡ n → write m p size ys q ≡ write m' p size ys q

  abbrev IsMissed : ℕ → ℕ → ℕ → Type 0
  IsMissed n p q = (ys : List V) (m : Memory V) → length ys ≡ n → write m p size ys q ≡ m q

  overwrites_first : (n p q : ℕ) → q ≡ p → IsOverwritten (suc n) p q
  unfolding write
  overwrites_first n p q same [] m m' e = absurd (omega arith)
  overwrites_first n p q same (y ∷ ys) m m' e =
      let first : (k : Memory V) → write (update k p y) (p + size) size ys q ≡ y = λ k.
        write-outside size pos ys (p + size) q (update k p y) (inl (omega arith))
        ∙ ap (update k p y) same
        ∙ update_self size pos k p y in
      first m ∙ sym (first m')

  overwrites_later : (n p q : ℕ) → IsOverwritten n (p + size) q → IsOverwritten (suc n) p q
  unfolding write
  overwrites_later n p q h [] m m' e = absurd (omega arith)
  overwrites_later n p q h (y ∷ ys) m m' e = h ys (update m p y) (update m' p y) (omega (arith, e))

  misses_later : (n p q : ℕ) → q ≢ p → IsMissed n (p + size) q → IsMissed (suc n) p q
  unfolding write
  misses_later n p q ne h [] m e = absurd (omega arith)
  misses_later n p q ne h (y ∷ ys) m e =
      h ys (update m p y) (omega (arith, e)) ∙ update-ne size pos m p q y ne

  misses_all : (p q : ℕ) → IsMissed 0 p q
  unfolding write
  misses_all p q [] m e = refl
  misses_all p q (y ∷ ys) m e = absurd (omega arith)

  written_or_not : (n p q : ℕ) → IsOverwritten n p q ⊎ IsMissed n p q
  written_or_not zero p q = inr (misses_all p q)
  written_or_not (suc n) p q = elim (Bool-cases (q == p)) [
    | inl same ↦ inl (overwrites_first n p q (ground arith))
    | inr other ↦ elim (written_or_not n (p + size) q) [
      | inl h ↦ inl (overwrites_later n p q h)
      | inr h ↦ inr (misses_later n p q (ground arith) h)
    ]
  ]

  -- The second of two writes to a range is what counts.
  pub write-write :
      (xs ys : List V) (p q : ℕ) (m : Memory V)
      → length xs ≡ length ys
      → write (write m p size xs) p size ys q ≡ write m p size ys q
  write-write xs ys p q m e = elim (written_or_not (length ys) p q) [
    | inl h ↦ h ys (write m p size xs) m refl
    | inr h ↦ h ys (write m p size xs) refl ∙ h xs m e ∙ sym (h ys m refl)
  ]
