-- ===== src/Stdpar/Ranges.antt =====
-- What reading and writing ranges of elements does (the loops and copies of
-- include/parallax/stdpar.hpp).
use parallax_runtime.Prelude.{
  ℕ, zero, suc, ◌+◌, ◌*◌, ◌≤◌, ◌<◌, ◌≡◌, ◌≢◌, ◌⊎◌, inl, inr, refl, ap, sym, ◌∙◌, List, [], ◌∷◌,
  ◌++◌, map, length, arith,
}
use mathlib.Core.Path.{subst}
use parallax_runtime.Stdpar.{Memory, update, read, write}

-- The address is not one of the `bytes` from `p` on.
abbrev pub IsOutside : ℕ → ℕ → ℕ → Type 0
IsOutside p bytes q = (q < p) ⊎ (p + bytes ≤ q)

-- The memories agree outside `bytes` bytes from `p` on.
abbrev pub SameBut : {V : Type 0} → ℕ → ℕ → Memory V → Memory V → Type 0
SameBut p bytes m m' = (q : ℕ) → IsOutside p bytes q → m q ≡ m' q

module _ {V : Type 0} (size : ℕ) (pos : 0 < size) where
  pub length-read : (n p : ℕ) (m : Memory V) → length (read m p size n) ≡ n
  unfolding read
  length-read zero p m = refl
  length-read (suc n) p m = ap suc (length-read n (p + size) m)

  pub update-ne : (m : Memory V) (p q : ℕ) (x : V) → q ≢ p → update m p x q ≡ m q
  unfolding update
  update-ne m p q x h = ground arith

  pub read-update :
      (n p q : ℕ) (m : Memory V) (x : V)
      → IsOutside p (n * size) q
      → read (update m q x) p size n ≡ read m p size n
  unfolding read
  read-update zero p q m x h = refl
  read-update (suc n) p q m x h =
      let head : update m q x p ≡ m p = update-ne m q p x (omega arith) in
      let tail = read-update n (p + size) q m x (omega arith) in rw (head, tail) refl

  pub write-outside :
      (xs : List V) (p q : ℕ) (m : Memory V)
      → IsOutside p (length xs * size) q
      → write m p size xs q ≡ m q
  unfolding write
  write-outside [] p q m h = refl
  write-outside (x ∷ xs) p q m h =
      write-outside xs (p + size) q (update m p x) (omega arith) ∙ update-ne m p q x (omega arith)

  pub update_self : (m : Memory V) (p : ℕ) (x : V) → update m p x p ≡ x
  unfolding update
  update_self m p x = ground arith

  pub read-write :
      (xs : List V) (p : ℕ) (m : Memory V) → read (write m p size xs) p size (length xs) ≡ xs
  unfolding read write
  read-write [] p m = refl
  read-write (x ∷ xs) p m =
      let head : write (update m p x) (p + size) size xs p ≡ x =
        write-outside xs (p + size) p (update m p x) (inl (omega arith)) ∙ update_self m p x in
      let tail = read-write xs (p + size) (update m p x) in rw (head, tail) refl

  update-cong : (m m' : Memory V) (p q : ℕ) (x : V) → m q ≡ m' q → update m p x q ≡ update m' p x q
  unfolding update
  update-cong m m' p q x h = rw h refl

  -- Where two memories agree, they agree after the same elements are written.
  pub write-cong :
      (xs : List V) (p q : ℕ) (m m' : Memory V)
      → m q ≡ m' q
      → write m p size xs q ≡ write m' p size xs q
  unfolding write
  write-cong [] p q m m' h = h
  write-cong (x ∷ xs) p q m m' h =
      write-cong xs (p + size) q (update m p x) (update m' p x) (update-cong m m' p q x h)

  -- What was just written is read back.
  pub read-write_lem :
      (n p : ℕ) (xs : List V) (m : Memory V)
      → length xs ≡ n
      → read (write m p size xs) p size n ≡ xs
  read-write_lem n p xs m e =
      subst (λ k. read (write m p size xs) p size k ≡ xs) e (read-write xs p m)

  -- A write to a range shows nowhere else.
  pub write-SameBut :
      (n p : ℕ) (xs : List V) (m : Memory V)
      → length xs ≡ n
      → SameBut p (n * size) (write m p size xs) m
  write-SameBut n p xs m e q h =
      write-outside xs p q m (subst (λ k. IsOutside p (k * size) q) (sym e) h)

  -- A write behind a range, and the two parts of a write.
  pub read-write_after :
      (xs : List V) (n p q : ℕ) (m : Memory V)
      → p + n * size ≤ q
      → read (write m q size xs) p size n ≡ read m p size n
  unfolding write
  read-write_after [] n p q m h = refl
  read-write_after (x ∷ xs) n p q m h =
      read-write_after xs n p (q + size) (update m q x) (omega arith)
      ∙ read-update n p q m x (inr h)

  pub write-append :
      (xs ys : List V) (p : ℕ) (m : Memory V)
      → write m p size (xs ++ ys) ≡ write (write m p size xs) (p + length xs * size) size ys
  unfolding write
  write-append [] ys p m = ap (λ q. write m q size ys) (omega arith)
  write-append (x ∷ xs) ys p m =
      write-append xs ys (p + size) (update m p x)
      ∙ ap (λ q. write (write (update m p x) (p + size) size xs) q size ys) (omega arith)

pub length-map : {A B : Type 0} (f : A → B) (xs : List A) → length (map f xs) ≡ length xs
length-map f [] = refl
length-map f (x ∷ xs) = ap suc (length-map f xs)
