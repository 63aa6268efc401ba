-- ===== src/Bits.antt =====
-- The bit operations that the code uses, as arithmetic: `x & (2 ^ k - 1)` is the remainder by
-- 2 ^ k, and `x | (2 ^ s - 1)` sets the low digits.
pub mod Smear
use Prim.Native.Nat.{min, max, digits, bit_and, bit_or, bit_and-bitwise, bit_or-bitwise}
use native.Mathlib.Nat.{
  pow-suc, one-le-pow, mul_comm, mul-add-div, mul-add-mod_self_left, mod-eq_of_lt, div-eq_of_lt,
  div-add-mod, div-div-eq-div-mul,
}
use relativistic_hash_table.Base.{
  ℕ, zero, suc, ◌+◌, ◌-◌, ◌*◌, ◌/◌, ◌%◌, ◌^◌, ◌≤◌, ◌<◌, ◌≡◌, refl, sym, ◌∙◌, ap, arith,
}

-- `v |= v >> k` of a uint32_t
abbrev pub or_shift : ℕ → ℕ → ℕ
or_shift v k = bit_or v (v / 2 ^ k)

unfoldable pub smear : ℕ → ℕ
smear v = or_shift (or_shift (or_shift (or_shift (or_shift v 1) 2) 4) 8) 16

-- Any two counts of rounds that cover the first number give the same digits.
module _ (last : ℕ → ℕ) (digit : ℕ → ℕ → ℕ) where
  same_digits : (i j a b : ℕ) → a ≤ i → a ≤ j → digits last digit i a b ≡ digits last digit j a b
  same_digits i j zero b p q = no_digits i ∙ sym (no_digits j)
    where
      no_digits : (k : ℕ) → digits last digit k 0 b ≡ last b
      no_digits zero = refl
      no_digits (suc k) = refl
  same_digits zero j (suc a) b p q = elim p [ ]
  same_digits (suc i) zero (suc a) b p q = elim q [ ]
  same_digits (suc i) (suc j) (suc a) b p q =
      ap (λ (d : ℕ). d * 2 + digit (suc a % 2) (b % 2))
        (same_digits i j (suc a / 2) (b / 2) (omega arith) (omega arith))

and_digit : (a b : ℕ) → bit_and a b ≡ bit_and (a / 2) (b / 2) * 2 + min (a % 2) (b % 2)
and_digit zero b = simp bit_and-bitwise (omega arith)
and_digit (suc a) b = simp bit_and-bitwise (
    omega (
      arith,
      same_digits (λ y. 0) min a (suc a / 2) (suc a / 2) (b / 2) (omega arith) (omega arith),
    ))

pub or_digit : (a b : ℕ) → bit_or a b ≡ bit_or (a / 2) (b / 2) * 2 + max (a % 2) (b % 2)
or_digit zero b = simp bit_or-bitwise (omega arith)
or_digit (suc a) b = simp bit_or-bitwise (
    omega (
      arith,
      same_digits (λ y. y) max a (suc a / 2) (suc a / 2) (b / 2) (omega arith) (omega arith),
    ))

-- Strong induction by a bound: `& 0` and `| 0`.
and-zero_below : (n a : ℕ) → a ≤ n → bit_and a 0 ≡ 0
and-zero_below zero a h = rw (le_zero a h) refl
  where
    le_zero : (a : ℕ) → a ≤ 0 → a ≡ 0
    le_zero a h = omega arith
and-zero_below (suc n) a h = ground (arith, and_digit a 0, and-zero_below n (a / 2))

or-zero_below : (n a : ℕ) → a ≤ n → bit_or a 0 ≡ a
or-zero_below zero a h = rw (le_zero a h) refl
  where
    le_zero : (a : ℕ) → a ≤ 0 → a ≡ 0
    le_zero a h = omega arith
or-zero_below (suc n) a h = ground (arith, or_digit a 0, or-zero_below n (a / 2))

-- Quotient and remainder are known from a number's parts.
pub parts : (n q r : ℕ) → r < n → ((n * q + r) / n ≡ q) × ((n * q + r) % n ≡ r)
parts n q r h = (
  mul-add-div (omega arith) q r ∙ omega (arith, div-eq_of_lt h),
  mul-add-mod_self_left n q r ∙ mod-eq_of_lt h,
)

zero-and : (b : ℕ) → bit_and 0 b ≡ 0
zero-and b = bit_and-bitwise 0 b

-- An `and` is at most its second operand.
pub bit_and-le : (a b : ℕ) → bit_and a b ≤ b
bit_and-le a b = below a a b (omega arith)
  where
    below : (n a b : ℕ) → a ≤ n → bit_and a b ≤ b
    below zero zero b h = omega (arith, zero-and b)
    below zero (suc a) b h = elim h [ ]
    below (suc n) a b h = omega (arith, and_digit a b, below n (a / 2) (b / 2) (omega arith))

-- Halving moves both sides of a cut by a power of two one place down.
pub halve_cut :
    (p a : ℕ) → 0 < p → (a / (p * 2) ≡ a / 2 / p) × (a % (p * 2) ≡ a / 2 % p * 2 + a % 2)
halve_cut p a pos = (quotient, omega (arith, whole, div-add-mod (a / 2) p))
  where
    quotient : a / (p * 2) ≡ a / 2 / p
    quotient = rw (mul_comm p 2) (sym (div-div-eq-div-mul a 2 p))

    whole : p * 2 * (a / 2 / p) + a % (p * 2) ≡ a
    whole = rw (← quotient) (div-add-mod a (p * 2))

pub bit_and_mask : (k a : ℕ) → bit_and a (2 ^ k - 1) ≡ a % 2 ^ k
bit_and_mask zero a = ground (arith, and-zero_below a a)
bit_and_mask (suc k) a = ground (
  arith,
  pow-suc 2 k,
  one-le-pow k 2,
  and_digit a (2 ^ suc k - 1),
  bit_and_mask k (a / 2),
  halve_cut (2 ^ k) a,
)

pub bit_or_low : (s a : ℕ) → bit_or a (2 ^ s - 1) ≡ a / 2 ^ s * 2 ^ s + (2 ^ s - 1)
bit_or_low zero a = ground (arith, or-zero_below a a)
bit_or_low (suc s) a = ground (
  arith,
  pow-suc 2 s,
  one-le-pow s 2,
  or_digit a (2 ^ suc s - 1),
  bit_or_low s (a / 2),
  halve_cut (2 ^ s) a,
)
