-- ===== src/Prelude/Bits.antt =====
-- Masks of low ones are remainders, and properties of bytes by looking at each of them.
use Prim.Native.Nat.{
  ℕ, zero, suc, ◌+◌, ◌*◌, ◌-◌, ◌/◌, ◌%◌, ◌^◌, ◌≤◌, ◌<◌, min, bit_and, digits, bit_and-bitwise,
}
use mathlib.Core.Path.{◌≡◌, ◌∙◌}
use mathlib.Core.Bool.{Bool, true, false}
use native.Mathlib.Nat.{pow-suc, one-le-pow, div-div-eq-div-mul}
use native.Mathlib.Omega.{arith}
use nabu_charger.Prelude.Tests.{◌==◌, ==_iff, if◌then◌else◌}

-- Whether a test passes for every number below a bound.
unfoldable pub passes : (ℕ → Bool) → ℕ → Bool
passes test zero = true
passes test (suc top) = if test top then passes test top else false

pub passes-each :
    (test : ℕ → Bool) (bound : ℕ) → passes test bound ≡ true → (x : ℕ) → x < bound → test x ≡ true
unfolding passes
passes-each test zero all x below = elim below [ ]
passes-each test (suc top) all x below = ground (arith, passes-each test top _ x)

-- Two functions that agree at every number below a bound.
pub agree-each :
    (f g : ℕ → ℕ) (bound : ℕ)
    → passes (λ k. f k == g k) bound ≡ true
    → (x : ℕ) → x < bound
    → f x ≡ g x
agree-each f g bound all x below =
    (==_iff (f x) (g x)).0 (passes-each (λ k. f k == g k) bound all x below)

half_mask : (k : ℕ) → ((2 ^ suc k - 1) / 2 ≡ 2 ^ k - 1) × ((2 ^ suc k - 1) % 2 ≡ 1)
half_mask k =
    (omega (arith, pow-suc 2 k, one-le-pow k 2), omega (arith, pow-suc 2 k, one-le-pow k 2))

doubled : (p n : ℕ) → 1 ≤ p → n / 2 % p * 2 + n % 2 ≡ n % (2 * p)
doubled p n pos = grind (arith, div-div-eq-div-mul n 2 p)

-- The remainder by twice a power, digit by digit.
halved_remainder : (k n : ℕ) → n / 2 % 2 ^ k * 2 + n % 2 ≡ n % 2 ^ suc k
halved_remainder k n =
    let e : 2 ^ suc k ≡ 2 * 2 ^ k = omega (arith, pow-suc 2 k) in
    rw e (doubled (2 ^ k) n (omega (arith, one-le-pow k 2)))

-- The digits that the conjunction stands for, against a mask of `k` ones.
mask_digits : (fuel k a : ℕ) → a ≤ fuel → digits (λ rest. 0) min fuel a (2 ^ k - 1) ≡ a % 2 ^ k
mask_digits zero k a enough = omega (arith, one-le-pow k 2)
mask_digits (suc fuel) k zero enough = omega (arith, one-le-pow k 2)
mask_digits (suc fuel) zero (suc a) enough =
    omega (arith, mask_digits fuel zero (suc a / 2) (omega arith))
mask_digits (suc fuel) (suc k) (suc a) enough =
    let (half, odd) = half_mask k in
    rw (half, odd, mask_digits fuel k (suc a / 2) (omega arith))
      (omega (arith, halved_remainder k (suc a)))

-- A mask of `k` low ones leaves the remainder by `2 ^ k`.
pub bit_and-low : (k a : ℕ) → bit_and a (2 ^ k - 1) ≡ a % 2 ^ k
bit_and-low k a = bit_and-bitwise a (2 ^ k - 1) ∙ mask_digits a k a (omega arith)
