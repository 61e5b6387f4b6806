-- ===== src/Launcher/Schedule.antt =====
-- The schedule of the stages of `launch_sort` (src/kernel/kernel_launcher.cpp).
use parallax_runtime.Prelude.{
  ℕ, zero, suc, ◌+◌, ◌-◌, ◌*◌, ◌/◌, ◌%◌, ◌^◌, ◌≤◌, ◌<◌, ◌≡◌, refl, sym, ap, ◌∙◌, none, some, List,
  [], ◌∷◌, ◌++◌, leb, le→leb, arith, true, false, ◌==◌,
}
use native.Mathlib.Nat.{pow-suc, one-le-pow, pow-le-pow_right, add-zero, add-suc, mul-mod_left}
use parallax_runtime.Launcher.Sort.{merge_stages, stages}

-- The merges with distances 2^d / 2, …, 1 inside runs of length k.
abbrev pub halvings : ℕ → ℕ → List (ℕ × ℕ)
halvings k zero = []
halvings k (suc d) = (k, 2 ^ d) ∷ halvings k d

-- The bitonic network on 2^m elements, from runs of 2^a / 2 elements on, where c phases are left.
abbrev pub network : ℕ → ℕ → List (ℕ × ℕ)
network a zero = []
network a (suc c) = halvings (2 ^ a) a ++ network (suc a) c

half_pow : (d : ℕ) → 2 ^ suc d / 2 ≡ 2 ^ d
half_pow d = omega (arith, pow-suc 2 d)

pow-ne-zero : (d : ℕ) → (2 ^ d == 0) ≡ false
pow-ne-zero d = ground (arith, one-le-pow d 2 (omega arith))

-- The inner loop, from half the length of the runs on.
merge_stages_lem : (fuel d k : ℕ) → d ≤ fuel → merge_stages fuel k (2 ^ d / 2) ≡ halvings k d
unfolding merge_stages
merge_stages_lem zero zero k h = refl
merge_stages_lem zero (suc d) k h = absurd (omega arith)
merge_stages_lem (suc f) zero k h = refl
merge_stages_lem (suc f) (suc d) k h =
    rw (half_pow d, pow-ne-zero d) (ap (λ l. (k, 2 ^ d) ∷ l) (merge_stages_lem f d k (omega arith)))

double_pow : (a : ℕ) → suc a ≤ 31 → 2 ^ a * 2 % 2 ^ 32 ≡ 2 ^ suc a
double_pow a h = omega (arith, pow-suc 2 a, pow-le-pow_right {n = 2} (omega arith) h)

past_end : (a n : ℕ) → n * 2 ≡ 2 ^ a → leb (2 ^ a) n ≡ false
past_end a n e = ground (arith, one-le-pow a 2 (omega arith))

not_past : (a c n : ℕ) → n * 2 ≡ 2 ^ (a + suc c) → leb (2 ^ a) n ≡ true
not_past a c n e = le→leb (2 ^ a) n (
    omega (
      arith,
      pow-suc 2 a,
      pow-le-pow_right {n = 2} (omega arith) {i = suc a} {j = a + suc c} (omega arith),
    ))

add_step : (a c : ℕ) → a + suc c ≡ suc a + c
add_step a c = omega arith

-- The outer loop, where the number of elements is below 2^31.
stages_lem :
    (fuel a c n : ℕ)
    → c < fuel
    → a + c ≤ 31
    → n * 2 ≡ 2 ^ (a + c)
    → stages fuel (2 ^ a) n ≡ some (network a c)
unfolding stages
stages_lem zero a c n h k e = absurd (omega arith)
stages_lem (suc f) a zero n h k e =
    rw (past_end a n (omega (arith, ap (λ i. 2 ^ i) (add-zero a)))) refl
stages_lem (suc f) a (suc c) n h k e = rw (
  not_past a c n e,
  double_pow a (omega arith),
  stages_lem f (suc a) c n (omega arith) (omega arith) (e ∙ ap (λ i. 2 ^ i) (add_step a c)),
  merge_stages_lem 32 a (2 ^ a) (omega arith),
)

-- k has wrapped around to 0.
stages_stuck : (fuel n : ℕ) → stages fuel 0 n ≡ none
unfolding stages
stages_stuck zero n = refl
stages_stuck (suc f) n = rw (stages_stuck f n) (ground arith)

stages_out : (k n : ℕ) → stages zero k n ≡ none
unfolding stages
stages_out k n = refl

stages_more :
    (fuel k n : ℕ)
    → leb k n ≡ true
    → stages fuel (k * 2 % 2 ^ 32) n ≡ none
    → stages (suc fuel) k n ≡ none
unfolding stages
stages_more fuel k n l e = rw (l, e) refl

-- From 2^31 elements on, the outer loop wraps.
stages_wrap : (fuel a c : ℕ) → a + c ≡ 31 → stages fuel (2 ^ a) (2 ^ 31) ≡ none
stages_wrap zero a c e = stages_out (2 ^ a) (2 ^ 31)
stages_wrap (suc f) a zero e =
    let top : a ≡ 31 = omega arith in
    rw top (stages_more f (2 ^ 31) (2 ^ 31) refl (stages_stuck f (2 ^ 31)))
stages_wrap (suc f) a (suc c) e =
    stages_more f (2 ^ a) (2 ^ 31)
      (le→leb (2 ^ a) (2 ^ 31)
        (pow-le-pow_right {n = 2} (omega arith) {i = a} {j = 31} (omega arith)))
      (rw (double_pow a (omega arith)) (stages_wrap f (suc a) c (omega arith)))

-- The count that the loops see.
abbrev pub cut : ℕ → ℕ
cut count = count % 2 ^ 32

cut_small : (m : ℕ) → m ≤ 31 → cut (2 ^ m) ≡ 2 ^ m
cut_small m h = omega (arith, pow-le-pow_right {n = 2} (omega arith) h)

pow_split : (d : ℕ) → 2 ^ (32 + d) ≡ 2 ^ d * 2 ^ 32
pow_split zero = refl
pow_split (suc d) =
    omega (arith, ap (λ i. 2 ^ i) (add-suc 32 d), pow-suc 2 (32 + d), pow-suc 2 d, pow_split d)

cut_large : (m : ℕ) → 32 ≤ m → cut (2 ^ m) ≡ 0
cut_large m h =
    let shift : m ≡ 32 + (m - 32) = omega arith in
    ap (λ i. cut (2 ^ i)) shift ∙ ap cut (pow_split (m - 32)) ∙ mul-mod_left (2 ^ (m - 32)) (2 ^ 32)

one_add : (m : ℕ) → 1 + m ≡ suc m
one_add m = omega arith

twice_pow : (m : ℕ) → 2 ^ m * 2 ≡ 2 ^ (1 + m)
twice_pow m = sym (ap (λ i. 2 ^ i) (one_add m) ∙ pow-suc 2 m)

stages_of_zero : stages 33 2 0 ≡ some []
unfolding stages
stages_of_zero = refl

-- What the loops of `launch_sort` run through for 2^m elements: up to 2^30 elements just the stages
-- of the bitonic network, from runs of 2 on; at 2^31 elements they never end, however many rounds are
-- made, since k wraps to 0; and from 2^32 elements on, where the count is cut to 0, no stage at all.
pub stages_cases :
    (m : ℕ)
    → (m ≤ 30 → stages 33 2 (cut (2 ^ m)) ≡ some (network 1 m))
      × (m ≡ 31 → (fuel : ℕ) → stages fuel 2 (cut (2 ^ m)) ≡ none)
      × (32 ≤ m → stages 33 2 (cut (2 ^ m)) ≡ some [])
stages_cases m = (small, wraps, none_left)
  where
    small : m ≤ 30 → stages 33 2 (cut (2 ^ m)) ≡ some (network 1 m)
    small h =
        rw (cut_small m (omega arith))
          (stages_lem 33 1 m (2 ^ m) (omega arith) (omega arith) (twice_pow m))

    wraps : m ≡ 31 → (fuel : ℕ) → stages fuel 2 (cut (2 ^ m)) ≡ none
    wraps e fuel = rw e (stages_wrap fuel 1 30 refl)

    none_left : 32 ≤ m → stages 33 2 (cut (2 ^ m)) ≡ some []
    none_left h = rw (cut_large m h) (stages_of_zero)
