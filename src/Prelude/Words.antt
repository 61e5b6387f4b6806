-- ===== src/Prelude/Words.antt =====
-- Arithmetic on 64-bit words, with its wrap-around, and the rounding that the runtime's two
-- allocators share (`align_up` of the arena, `round_up` of the heap pool).
use Prim.Native.Nat.{ℕ, ◌+◌, ◌-◌, ◌*◌, ◌/◌, ◌%◌, ◌^◌, ◌≤◌, ◌<◌, bit_and}
use mathlib.Core.Path.{◌≡◌, sym, ap, ◌∙◌}
use native.Mathlib.Nat.{
  div-mul-le_self, lt-div-mul-add, div-eq_of_lt-le, div-add-mod', one-le-pow, mul-mod_left,
}
use native.Mathlib.Omega.{arith}
use parallax_runtime.Prelude.Bits.{u64_mod, not64, bit_and-not64}

abbrev pub add64 : ℕ → ℕ → ℕ
add64 a b = (a + b) % u64_mod

abbrev pub sub64 : ℕ → ℕ → ℕ
sub64 a b = (a + u64_mod - b) % u64_mod

abbrev pub mul64 : ℕ → ℕ → ℕ
mul64 a b = a * b % u64_mod

-- `(v + a - 1) & ~(a - 1)`
unfoldable pub align_up : ℕ → ℕ → ℕ
align_up v a = bit_and (sub64 (add64 v a) 1) (not64 (sub64 a 1))

-- A power of two that fits a word.
pub record IsPow2 (a : ℕ) : Type 0 where
  pub exponent : ℕ
  pub fits : exponent < 64
  pub power : a ≡ 2 ^ exponent

pub IsPow2-pos : {a : ℕ} → IsPow2 a → 0 < a
IsPow2-pos p = omega (arith, p.power, one-le-pow p.exponent 2 (omega arith))

-- Without overflow the mask rounds the sum down to a multiple of `a`.
pub align_up_lem : (v a : ℕ) → IsPow2 a → v + a ≤ u64_mod → align_up v a ≡ (v + a - 1) / a * a
unfolding align_up
align_up_lem v a p h =
    rw (sum, mask)
      (bit_and-not64 p.exponent (v + a - 1) (omega (arith, p.fits)) (omega (arith, pos))
        ∙ ap (λ d. (v + a - 1) / d * d) (sym p.power))
  where
    pos : 0 < a
    pos = IsPow2-pos p

    sum : sub64 (add64 v a) 1 ≡ v + a - 1
    sum = omega (arith, pos)

    mask : not64 (sub64 a 1) ≡ not64 (2 ^ p.exponent - 1)
    mask = omega (arith, pos, p.power)

-- The least multiple of `a` that is not below `v`.
pub align_up_bounds :
    (v a : ℕ)
    → IsPow2 a
    → v + a ≤ u64_mod
    → (v ≤ align_up v a) × (align_up v a < v + a) × (align_up v a % a ≡ 0)
align_up_bounds v a p h = rw (align_up_lem v a p h) (
  omega (arith, pos, lt-div-mul-add {a = v + a - 1} pos),
  omega (arith, pos, div-mul-le_self (v + a - 1) a),
  mul-mod_left ((v + a - 1) / a) a,
)
  where
    pos : 0 < a
    pos = IsPow2-pos p

-- A multiple of `a` stays as it is.
pub align_up_fixed : (v a : ℕ) → IsPow2 a → v + a ≤ u64_mod → v % a ≡ 0 → align_up v a ≡ v
align_up_fixed v a p h m =
    align_up_lem v a p h
    ∙ ap (λ q. q * a)
        (div-eq_of_lt-le {k = v / a} a (omega (arith, pos, exact)) (omega (arith, pos, exact)))
    ∙ exact
  where
    pos : 0 < a
    pos = IsPow2-pos p

    exact : v / a * a ≡ v
    exact = omega (arith, m, div-add-mod' v a)
