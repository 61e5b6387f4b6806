-- ===== src/Vulkan/Types.antt =====
-- The search for a memory type (`find_memory_type` of arena.cpp and of unified_buffer.cpp).
use parallax_runtime.Prelude.{
  ℕ, zero, suc, ◌+◌, ◌≤◌, ◌≡◌, refl, sym, ◌≢◌, ◌⊎◌, inl, inr, true, false, Option, none, some, List,
  [], ◌∷◌, arith, Bool-cases,
}
use mathlib.Core.Path.{subst}
use parallax_runtime.Vulkan.{suits, find_from, find_memory_type, no_type}

-- The property flags of type `i`.
abbrev pub flags_at : List ℕ → ℕ → Option ℕ
flags_at [] i = none
flags_at (f ∷ fs) zero = some f
flags_at (f ∷ fs) (suc i) = flags_at fs i

-- `i` is the first index from `n` on whose type suits; or none does, and `i` is `no_type`.
abbrev pub IsFirst : ℕ → ℕ → ℕ → List ℕ → ℕ → Type 0
IsFirst filter props n [] i = i ≡ no_type
IsFirst filter props n (f ∷ fs) i =
    ((suits filter props n f ≡ true) × (i ≡ n))
    ⊎ ((suits filter props n f ≡ false) × IsFirst filter props (n + 1) fs i)

find_from-IsFirst :
    (filter props n : ℕ) (types : List ℕ)
    → IsFirst filter props n types (find_from filter props n types)
unfolding find_from
find_from-IsFirst filter props n [] = refl
find_from-IsFirst filter props n (f ∷ fs) = elim (Bool-cases (suits filter props n f)) [
  | inl e ↦ inl (e, rw (e, find_from))
  | inr e ↦ inr (e, rw (e, find_from) (find_from-IsFirst filter props (n + 1) fs))
]

IsFirst-suits :
    (filter props n i : ℕ) (types : List ℕ)
    → IsFirst filter props n types i
    → i ≢ no_type
    → (k : ℕ) × (f : ℕ) × (i ≡ n + k)
      × (flags_at types k ≡ some f)
      × (suits filter props i f ≡ true)
IsFirst-suits filter props n i [] h ne = absurd (ne h)
IsFirst-suits filter props n i (f ∷ fs) (inl h) ne = (0, f, omega arith, refl, rw h.1 h.0)
IsFirst-suits filter props n i (f ∷ fs) (inr h) ne =
    let (k, g, e, at, ok) = IsFirst-suits filter props (n + 1) i fs h.1 ne in
    (suc k, g, omega arith, at, ok)

IsFirst-le :
    (filter props n i k f : ℕ) (types : List ℕ)
    → IsFirst filter props n types i
    → flags_at types k ≡ some f
    → suits filter props (n + k) f ≡ true
    → (i ≤ n + k)
IsFirst-le filter props n i k f [] h e s = cc
IsFirst-le filter props n i k f (g ∷ fs) (inl h) e s = omega arith
IsFirst-le filter props n i zero f (g ∷ fs) (inr h) e s = ground (arith, first n)
  where
    first : (m : ℕ) → m + 0 ≡ m
    first m = omega arith
IsFirst-le filter props n i (suc k) f (g ∷ fs) (inr h) e s =
    let shift : n + suc k ≡ n + 1 + k = omega arith in
    rw shift (IsFirst-le filter props (n + 1) i k f fs h.1 e (rw shift at s))

-- The type that is found is the device's first that suits the filter and the properties: it suits
-- them, and no index below it does; if any type suits, one is found.
pub find_memory_type_lem :
    (types : List ℕ) (filter props : ℕ)
    → (find_memory_type types filter props ≢ no_type
        → (f : ℕ) × (flags_at types (find_memory_type types filter props) ≡ some f)
          × (suits filter props (find_memory_type types filter props) f ≡ true))
      × ((k f : ℕ)
          → flags_at types k ≡ some f
          → suits filter props k f ≡ true
          → find_memory_type types filter props ≤ k)
unfolding find_memory_type
find_memory_type_lem types filter props = (sound, least)
  where
    i : ℕ
    i = find_from filter props 0 types

    first : IsFirst filter props 0 types i
    first = find_from-IsFirst filter props 0 types

    sound : i ≢ no_type → (f : ℕ) × (flags_at types i ≡ some f) × (suits filter props i f ≡ true)
    sound ne =
        let (k, f, e, at, ok) = IsFirst-suits filter props 0 i types first ne in
        let same : i ≡ k = omega arith in
        (f, subst (λ j. flags_at types j ≡ some f) (sym same) at, ok)

    least : (k f : ℕ) → flags_at types k ≡ some f → suits filter props k f ≡ true → i ≤ k
    least k f e s =
        let shift : 0 + k ≡ k = omega arith in
        rw shift at (IsFirst-le filter props 0 i k f types first e (rw shift s))
