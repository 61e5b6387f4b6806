-- ===== src/Prelude/Bits.antt =====
-- The mask `x & ~(a - 1)` on 64-bit words, and what it computes at a power of two.
use Prim.Native.Nat.{
  ℕ, zero, suc, ◌+◌, ◌-◌, ◌*◌, ◌/◌, ◌^◌, ◌%◌, ◌≤◌, ◌<◌, min, max, bit_and, bit_or, digits,
  bit_and-bitwise, bit_or-bitwise,
}
use mathlib.Core.Path.{◌≡◌, refl, sym, ap, ◌∙◌}
use native.Mathlib.Nat.{two-pow-succ, one-le-pow, div-div-eq-div-mul, zero-div}
use native.Mathlib.Omega.{arith}

-- `size_t`, `uintptr_t` and `VkDeviceSize` have 64 bits.
abbrev pub u64_mod : ℕ
u64_mod = 2 ^ 64

-- `~x` on 64 bits.
abbrev pub not64 : ℕ → ℕ
not64 x = u64_mod - 1 - x

-- `w` ones, and the same over `k` zeros.
ones : ℕ → ℕ
ones zero = 0
ones (suc w) = 2 * ones w + 1

shifted : ℕ → ℕ → ℕ
shifted zero w = ones w
shifted (suc k) w = 2 * shifted k w

ones-add : (w : ℕ) → ones w + 1 ≡ 2 ^ w
unfolding ones
ones-add zero = refl
ones-add (suc w) = omega (arith, ones-add w, two-pow-succ w)

-- 2 ^ k * 2 ^ w, by doubling.
scale : ℕ → ℕ → ℕ
scale zero w = 2 ^ w
scale (suc k) w = 2 * scale k w

add-suc_left : (k w : ℕ) → suc k + w ≡ suc (k + w)
add-suc_left k w = omega arith

scale-eq : (k w : ℕ) → scale k w ≡ 2 ^ (k + w)
unfolding scale
scale-eq zero w = ap (λ n. 2 ^ n) (omega arith)
scale-eq (suc k) w =
    omega (arith, scale-eq k w, two-pow-succ (k + w), ap (λ n. 2 ^ n) (add-suc_left k w))

shifted-add : (k w : ℕ) → shifted k w + 2 ^ k ≡ scale k w
unfolding shifted scale
shifted-add zero w = omega (arith, ones-add w)
shifted-add (suc k) w = omega (arith, shifted-add k w, two-pow-succ k)

-- The digits of a number under a mask of as many ones.
digits-ones : (n w x : ℕ) → x ≤ n → x < 2 ^ w → digits (λ b. zero) min n x (ones w) ≡ x
unfolding ones
digits-ones zero w zero h p = refl
digits-ones zero w (suc x) h p = absurd (omega arith)
digits-ones (suc n) w zero h p = refl
digits-ones (suc n) zero (suc x) h p = absurd (omega arith)
digits-ones (suc n) (suc w) (suc x) h p =
    let half : (2 * ones w + 1) / 2 ≡ ones w = omega arith in
    rw half
      (omega (arith, digits-ones n w (suc x / 2) (omega arith) (omega (arith, two-pow-succ w))))

-- The digits of a number under a mask whose last `k` digits are zeros.
digits-shifted :
    (n k w x : ℕ)
    → x ≤ n
    → x < scale k w
    → digits (λ b. zero) min n x (shifted k w) ≡ x / 2 ^ k * 2 ^ k
unfolding shifted scale
digits-shifted n zero w x h p = omega (arith, digits-ones n w x h p)
digits-shifted zero (suc k) w zero h p = rw (zero-div (2 ^ suc k)) (omega arith)
digits-shifted zero (suc k) w (suc x) h p = absurd (omega arith)
digits-shifted (suc n) (suc k) w zero h p = rw (zero-div (2 ^ suc k)) (omega arith)
digits-shifted (suc n) (suc k) w (suc x) h p =
    let half : 2 * shifted k w / 2 ≡ shifted k w = omega arith in
    let quotient : suc x / 2 ^ suc k ≡ suc x / 2 / 2 ^ k =
      ap (λ d. suc x / d) (two-pow-succ k ∙ omega arith)
      ∙ sym (div-div-eq-div-mul (suc x) 2 (2 ^ k)) in
    rw (half, quotient)
      (omega (
        arith,
        digits-shifted n k w (suc x / 2) (omega arith) (omega arith),
        ap (λ d. suc x / 2 / 2 ^ k * d) (two-pow-succ k),
      ))

-- `x & ~(2^k - 1)` rounds `x` down to a multiple of 2^k.
pub bit_and-not64 :
    (k x : ℕ) → k ≤ 64 → x < u64_mod → bit_and x (not64 (2 ^ k - 1)) ≡ x / 2 ^ k * 2 ^ k
bit_and-not64 k x h p = rw mask (
    bit_and-bitwise x (shifted k (64 - k))
    ∙ digits-shifted x k (64 - k) x (omega arith) (rw whole p))
  where
    whole : scale k (64 - k) ≡ u64_mod
    whole = let sum : k + (64 - k) ≡ 64 = omega arith in scale-eq k (64 - k) ∙ ap (λ n. 2 ^ n) sum

    mask : not64 (2 ^ k - 1) ≡ shifted k (64 - k)
    mask = omega (arith, whole, shifted-add k (64 - k), one-le-pow k 2 (omega arith))

-- The lowest digit, as a flag: `x | 0`, `x | 1` for an even `x`, and `x & 1`.
digits-or_zero : (n x : ℕ) → x ≤ n → digits (λ b. b) max n x 0 ≡ x
digits-or_zero zero zero h = refl
digits-or_zero zero (suc x) h = absurd (omega arith)
digits-or_zero (suc n) zero h = refl
digits-or_zero (suc n) (suc x) h = omega (arith, digits-or_zero n (suc x / 2) (omega arith))

digits-and_zero : (n x : ℕ) → digits (λ b. zero) min n x 0 ≡ 0
digits-and_zero zero x = refl
digits-and_zero (suc n) zero = refl
digits-and_zero (suc n) (suc x) = omega (arith, digits-and_zero n (suc x / 2))

pub bit_or-zero : (x : ℕ) → bit_or x 0 ≡ x
bit_or-zero x = bit_or-bitwise x 0 ∙ digits-or_zero x x (omega arith)

pub bit_or-one : (x : ℕ) → x % 2 ≡ 0 → bit_or x 1 ≡ x + 1
bit_or-one zero e = refl
bit_or-one (suc x) e =
    bit_or-bitwise (suc x) 1 ∙ omega (arith, digits-or_zero x (suc x / 2) (omega arith))

pub bit_and-one : (x : ℕ) → bit_and x 1 ≡ x % 2
bit_and-one zero = refl
bit_and-one (suc x) = bit_and-bitwise (suc x) 1 ∙ omega (arith, digits-and_zero x (suc x / 2))

-- `x & 15`, one digit of the mask at a time.
digits-and_1 : (n x : ℕ) → x ≤ n → digits (λ b. zero) min n x 1 ≡ x % 2
digits-and_1 zero zero h = refl
digits-and_1 zero (suc x) h = absurd (omega arith)
digits-and_1 (suc n) zero h = refl
digits-and_1 (suc n) (suc x) h = omega (arith, digits-and_zero n (suc x / 2))

digits-and_3 : (n x : ℕ) → x ≤ n → digits (λ b. zero) min n x 3 ≡ x % 4
digits-and_3 zero zero h = refl
digits-and_3 zero (suc x) h = absurd (omega arith)
digits-and_3 (suc n) zero h = refl
digits-and_3 (suc n) (suc x) h = omega (arith, digits-and_1 n (suc x / 2) (omega arith))

digits-and_7 : (n x : ℕ) → x ≤ n → digits (λ b. zero) min n x 7 ≡ x % 8
digits-and_7 zero zero h = refl
digits-and_7 zero (suc x) h = absurd (omega arith)
digits-and_7 (suc n) zero h = refl
digits-and_7 (suc n) (suc x) h = omega (arith, digits-and_3 n (suc x / 2) (omega arith))

digits-and_15 : (n x : ℕ) → x ≤ n → digits (λ b. zero) min n x 15 ≡ x % 16
digits-and_15 zero zero h = refl
digits-and_15 zero (suc x) h = absurd (omega arith)
digits-and_15 (suc n) zero h = refl
digits-and_15 (suc n) (suc x) h = omega (arith, digits-and_7 n (suc x / 2) (omega arith))

pub bit_and-15 : (x : ℕ) → bit_and x 15 ≡ x % 16
bit_and-15 x = bit_and-bitwise x 15 ∙ digits-and_15 x x (omega arith)

digits-and_2 : (n x : ℕ) → x ≤ n → digits (λ b. zero) min n x 2 ≡ x / 2 % 2 * 2
digits-and_2 zero zero h = refl
digits-and_2 zero (suc x) h = absurd (omega arith)
digits-and_2 (suc n) zero h = refl
digits-and_2 (suc n) (suc x) h = omega (arith, digits-and_1 n (suc x / 2) (omega arith))

-- `x & 2` is the second digit, in its place.
pub bit_and-two : (x : ℕ) → bit_and x 2 ≡ x / 2 % 2 * 2
bit_and-two x = bit_and-bitwise x 2 ∙ digits-and_2 x x (omega arith)
