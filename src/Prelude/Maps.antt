-- ===== src/Prelude/Maps.antt =====
-- An `std::unordered_map` with numbers (pointers, handles) for keys: an association list with
-- `find`, `m[k] = v` and `erase`. The source never depends on the iteration order.
use Prim.Native.Nat.{ℕ}
use mathlib.Core.Path.{◌≡◌, refl, subst}
use mathlib.Core.Logic.{◌≢◌, ◌⊎◌, inl, inr}
use mathlib.Core.Bool.{true, false}
use mathlib.Core.Option.{Option, none, some}
use mathlib.Core.List.{List, [], ◌∷◌}
use native.Mathlib.Omega.{arith}
use parallax_runtime.Prelude.Tests.{◌==◌, if◌then◌else◌}
use parallax_runtime.Prelude.Lists.{All}

abbrev pub Map {ℓ} : Type ℓ → Type ℓ
Map V = List (ℕ × V)

module _ {ℓ} {V : Type ℓ} where
  unfoldable pub find : ℕ → Map V → Option V
  find k [] = none
  find k ((j, v) ∷ m) = if j == k then some v else find k m

  unfoldable pub insert : ℕ → V → Map V → Map V
  insert k v [] = (k, v) ∷ []
  insert k v ((j, w) ∷ m) = if j == k then (k, v) ∷ m else (j, w) ∷ insert k v m

  unfoldable pub erase : ℕ → Map V → Map V
  erase k [] = []
  erase k ((j, v) ∷ m) = if j == k then m else (j, v) ∷ erase k m

  pub find-insert :
      (k j : ℕ) (v : V) (m : Map V) → find j (insert k v m) ≡ (if k == j then some v else find j m)
  unfolding find insert
  find-insert k j v [] = refl
  find-insert k j v ((i, w) ∷ m) = ground (arith, find-insert k j v m)

  pub find-erase_ne : (k j : ℕ) (m : Map V) → k ≢ j → find j (erase k m) ≡ find j m
  unfolding find erase
  find-erase_ne k j [] h = refl
  find-erase_ne k j ((i, w) ∷ m) h = ground (arith, find-erase_ne k j m h)

  -- A predicate of every entry.
  pub All-insert {κ} :
      (P : ℕ × V → Type κ) (k : ℕ) (v : V) (m : Map V) → P (k, v) → All P m → All P (insert k v m)
  unfolding insert
  All-insert P k v [] p h = (p, tt)
  All-insert P k v ((j, w) ∷ m) p h =
      elim (j == k) as (λ b. All P (if b then (k, v) ∷ m else (j, w) ∷ insert k v m)) [
        | true ↦ (p, h.1)
        | false ↦ (h.0, All-insert P k v m p h.1)
      ]

  pub All-erase {κ} : (P : ℕ × V → Type κ) (k : ℕ) (m : Map V) → All P m → All P (erase k m)
  unfolding erase
  All-erase P k [] h = tt
  All-erase P k ((j, w) ∷ m) h =
      elim (j == k) as (λ b. All P (if b then m else (j, w) ∷ erase k m)) [
        | true ↦ h.1
        | false ↦ (h.0, All-erase P k m h.1)
      ]

  find-cons :
      (k j : ℕ) (v w : V) (m : Map V)
      → find k ((j, w) ∷ m) ≡ some v
      → ((j ≡ k) × (w ≡ v)) ⊎ (find k m ≡ some v)
  unfolding find
  find-cons k j v w m e = ground arith

  pub All-find {κ} :
      (P : ℕ × V → Type κ) (k : ℕ) (v : V) (m : Map V) → find k m ≡ some v → All P m → P (k, v)
  unfolding find
  All-find P k v [] e h = ground arith
  All-find P k v ((j, w) ∷ m) e h = elim (find-cons k j v w m e) [
    | inl c ↦ subst P (λ i. (c.0 i, c.1 i)) h.0
    | inr below ↦ All-find P k v m below h.1
  ]
