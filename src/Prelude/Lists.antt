-- ===== src/Prelude/Lists.antt =====
-- Lists measured by native numbers, predicates on all their elements, and association lists.
use Prim.Native.Nat.{ℕ, zero, suc, ◌+◌, ◌<◌}
use mathlib.Core.Path.{◌≡◌, refl, ap, subst}
use mathlib.Core.Logic.{◌≢◌}
use mathlib.Core.Option.{Option, none, some}
use mathlib.Core.List.{List, [], ◌∷◌, ◌++◌}
use native.Mathlib.Omega.{arith}

module _ {ℓ} {A : Type ℓ} where
  abbrev pub length : List A → ℕ
  length [] = 0
  length (x ∷ xs) = suc (length xs)

  abbrev pub get_elem? : List A → ℕ → Option A
  get_elem? [] i = none
  get_elem? (x ∷ xs) zero = some x
  get_elem? (x ∷ xs) (suc i) = get_elem? xs i

  -- The element at `i`, if there is one, is replaced by its image.
  abbrev pub modify : List A → ℕ → (A → A) → List A
  modify [] i f = []
  modify (x ∷ xs) zero f = f x ∷ xs
  modify (x ∷ xs) (suc i) f = x ∷ modify xs i f

  pub length-modify : (xs : List A) (i : ℕ) (f : A → A) → length (modify xs i f) ≡ length xs
  length-modify [] i f = refl
  length-modify (x ∷ xs) zero f = refl
  length-modify (x ∷ xs) (suc i) f = ap suc (length-modify xs i f)

  pub get_elem?-modify_self :
      (xs : List A) (i : ℕ) (f : A → A) (x : A)
      → get_elem? xs i ≡ some x
      → get_elem? (modify xs i f) i ≡ some (f x)
  get_elem?-modify_self [] i f x e = cc
  get_elem?-modify_self (y ∷ xs) zero f x e = cc
  get_elem?-modify_self (y ∷ xs) (suc i) f x e = get_elem?-modify_self xs i f x e

  pub get_elem?-modify_ne :
      (xs : List A) (i j : ℕ) (f : A → A) → i ≢ j → get_elem? (modify xs i f) j ≡ get_elem? xs j
  get_elem?-modify_ne [] i j f ne = refl
  get_elem?-modify_ne (y ∷ xs) zero zero f ne = absurd (ne refl)
  get_elem?-modify_ne (y ∷ xs) zero (suc j) f ne = refl
  get_elem?-modify_ne (y ∷ xs) (suc i) zero f ne = refl
  get_elem?-modify_ne (y ∷ xs) (suc i) (suc j) f ne =
      get_elem?-modify_ne xs i j f (λ e. ne (ap suc e))

  pub length-append : (xs ys : List A) → length (xs ++ ys) ≡ length xs + length ys
  length-append [] ys = omega arith
  length-append (x ∷ xs) ys = omega (arith, length-append xs ys)

  -- A predicate of every element; it computes to a tuple.
  abbrev pub All {κ} : (A → Type κ) → List A → Type κ
  All P [] = Unit
  All P (x ∷ xs) = P x × All P xs

  pub All-append {κ} : (P : A → Type κ) (xs ys : List A) → All P xs → All P ys → All P (xs ++ ys)
  All-append P [] ys h k = k
  All-append P (x ∷ xs) ys h k = (h.0, All-append P xs ys h.1 k)

  pub All-map {κ μ} :
      {P : A → Type κ} {Q : A → Type μ} (xs : List A) → ((a : A) → P a → Q a) → All P xs → All Q xs
  All-map [] f h = tt
  All-map (x ∷ xs) f h = (f x h.0, All-map xs f h.1)

  pub All-zip {κ μ ν} :
      {P : A → Type κ} {Q : A → Type μ} {R : A → Type ν} (xs : List A)
      → ((a : A) → P a → Q a → R a)
      → All P xs
      → All Q xs
      → All R xs
  All-zip [] f h k = tt
  All-zip (x ∷ xs) f h k = (f x h.0 k.0, All-zip xs f h.1 k.1)

  some-injective : {x y : A} → some x ≡ some y → x ≡ y
  some-injective {x} e = ap (λ o. elim o [ none ↦ x | some z ↦ z ]) e

  -- A predicate of the elements before an index, from the head and the elements of the tail.
  pub All-before_cons {κ} :
      (P : A → Type κ) (x : A) (xs : List A) (d : ℕ)
      → P x
      → ((j : ℕ) (a : A) → j < d → get_elem? xs j ≡ some a → P a)
      → (j : ℕ) (a : A) → j < suc d
      → get_elem? (x ∷ xs) j ≡ some a
      → P a
  All-before_cons P x xs d h k zero a lt e = subst P (some-injective e) h
  All-before_cons P x xs d h k (suc j) a lt e = k j a (omega arith) e
