-- ===== src/Bits/Smear.antt =====
-- `v |= v >> 1; v |= v >> 2; v |= v >> 4; v |= v >> 8; v |= v >> 16;` copies the top digit of a
-- 32-bit number to all the digits below it.
use Prim.Native.Nat.{bit_or}
use native.Mathlib.Decide.{dec_lt}
use native.Mathlib.Nat.{
  pow-le-pow_right, pow-suc, one-le-pow, add_comm, add-zero, add-suc, div-div-eq-div-mul,
  div-eq_of_lt, div-eq_of_lt-le,
}
use native.Mathlib.Omega.{not-le}
use relativistic_hash_table.Base.{
  ℕ, zero, suc, ◌+◌, ◌-◌, ◌*◌, ◌/◌, ◌%◌, ◌^◌, ◌≤◌, ◌<◌, ◌≡◌, refl, sym, ◌∙◌, ap, ap₂, arith,
}
use relativistic_hash_table.Bits.{smear, or_digit, bit_or_low, halve_cut}

pub pow-add : (a b : ℕ) → 2 ^ (a + b) ≡ 2 ^ a * 2 ^ b
pow-add a zero = omega (arith, ap (λ k. 2 ^ k) (add-zero a))
pow-add a (suc b) = omega (
  arith,
  pow-suc 2 (a + b),
  ap (λ (t : ℕ). 2 ^ a * t) (pow-suc 2 b),
  pow-add a b,
  ap (λ k. 2 ^ k) (add-suc a b),
)

div_pow-add : (x a b : ℕ) → x / 2 ^ a / 2 ^ b ≡ x / 2 ^ (a + b)
div_pow-add x a b = rw (pow-add a b) (div-div-eq-div-mul x (2 ^ a) (2 ^ b))

-- a number with `n` digits 1
abbrev pub ones : ℕ → ℕ
ones n = 2 ^ n - 1

div-pow-suc : (x i : ℕ) → x / 2 ^ suc i ≡ x / 2 / 2 ^ i
div-pow-suc x i = rw (pow-suc 2 i) (halve_cut (2 ^ i) x (one-le-pow i 2 (omega arith))).0

ones-half : (n : ℕ) → ones (suc n) / 2 ≡ ones n
ones-half n = omega (arith, pow-suc 2 n, one-le-pow n 2)

zero-div-pow : (i : ℕ) → 0 / 2 ^ i ≡ 0
zero-div-pow i = div-eq_of_lt (one-le-pow i 2 (omega arith))

div-one : (k : ℕ) → k / 1 ≡ k
div-one k = omega arith

ones-shift : (n i : ℕ) → ones n / 2 ^ i ≡ ones (n - i)
ones-shift n zero = div-one (ones n) ∙ ap ones (omega arith)
ones-shift zero (suc i) = zero-div-pow (suc i) ∙ ap ones {x = 0} {y = 0 - suc i} (omega arith)
ones-shift (suc n) (suc i) =
    div-pow-suc (ones (suc n)) i
    ∙ ap (λ k. k / 2 ^ i) (ones-half n)
    ∙ ones-shift n i
    ∙ ap ones (omega arith)

bit_or-shift : (t a b : ℕ) → bit_or a b / 2 ^ t ≡ bit_or (a / 2 ^ t) (b / 2 ^ t)
bit_or-shift zero a b = div-one (bit_or a b) ∙ ap₂ bit_or (sym (div-one a)) (sym (div-one b))
bit_or-shift (suc t) a b =
    div-pow-suc (bit_or a b) t
    ∙ ap (λ k. k / 2 ^ t) half
    ∙ bit_or-shift t (a / 2) (b / 2)
    ∙ ap₂ bit_or (sym (div-pow-suc a t)) (sym (div-pow-suc b t))
  where
    half : bit_or a b / 2 ≡ bit_or (a / 2) (b / 2)
    half = omega (arith, or_digit a b)

pred-mul : (a b : ℕ) → 1 ≤ a → (a - 1) * b + b ≡ a * b
pred-mul zero b h = elim h [ ]
pred-mul (suc a) b h = rw (sub-one' a) (omega arith)
  where
    sub-one' : (a : ℕ) → suc a - 1 ≡ a
    sub-one' a = omega arith

ones-mul : (j s : ℕ) → ones j * 2 ^ s + 2 ^ s ≡ 2 ^ (j + s)
ones-mul j s = pred-mul (2 ^ j) (2 ^ s) (one-le-pow j 2 (omega arith)) ∙ sym (pow-add j s)

-- `x | (2 ^ s - 1)` for an `x` with ones above its last `s` digits
or-fill : (s j x : ℕ) → x / 2 ^ s ≡ ones j → bit_or x (ones s) ≡ ones (j + s)
or-fill s j x top =
    omega (arith, bit_or_low s x, ap (λ k. k * 2 ^ s) top, ones-mul j s, one-le-pow s 2)

-- The upper `j` of the `n` digits of `x` are 1, or all of them if `n` is at most `j`.
abbrev Top : (n j x : ℕ) → Type 0
Top n j x = x / 2 ^ (n - j) ≡ ones (n - (n - j))

module _ (n j x : ℕ) where
  -- `Top` with the number of the other digits named.
  Top-of : (s : ℕ) → s ≡ n - j → x / 2 ^ s ≡ ones (n - s) → Top n j x
  Top-of s e h = rw (← e) h

  Top-at : (s : ℕ) → s ≡ n - j → Top n j x → x / 2 ^ s ≡ ones (n - s)
  Top-at s e h = rw e h

  Top-full : n ≤ j → x ≡ ones n → Top n j x
  Top-full small full = Top-of 0 (omega arith) (div-one x ∙ full ∙ ap ones (omega arith))

-- All digits are ones already: the shifted number is 0.
fill_full : (n j x : ℕ) → n ≤ j → x ≡ ones n → bit_or x (x / 2 ^ j) ≡ ones n
fill_full n j x small full =
    ap (bit_or x) (ap (λ k. k / 2 ^ j) full ∙ ones-shift n j ∙ ap ones {y = 0} (omega arith))
    ∙ or-fill 0 n x (div-one x ∙ full)
    ∙ ap ones (omega arith)

-- The ones are at least half of the digits: the shifted number is ones below them.
fill_half : (s j x : ℕ) → s ≤ j → x / 2 ^ s ≡ ones j → bit_or x (x / 2 ^ j) ≡ ones (j + s)
fill_half s j x small top = ap (bit_or x) shifted ∙ or-fill s j x top
  where
    same_rest : j - (j - s) ≡ s
    same_rest = omega arith

    split : (s j : ℕ) → s ≤ j → j ≡ s + (j - s)
    split s j small = omega arith

    shifted : x / 2 ^ j ≡ ones s
    shifted =
        ap (λ k. x / 2 ^ k) (split s j small)
        ∙ sym (div_pow-add x s (j - s))
        ∙ ap (λ k. k / 2 ^ (j - s)) top
        ∙ ones-shift j (j - s)
        ∙ ap ones (same_rest)

shifts_comm : (x i k : ℕ) → x / 2 ^ i / 2 ^ k ≡ x / 2 ^ k / 2 ^ i
shifts_comm x i k = div_pow-add x i k ∙ ap (λ m. x / 2 ^ m) (add_comm i k) ∙ sym (div_pow-add x k i)

Top-step : (n j x : ℕ) → Top n j x → Top n (j + j) (bit_or x (x / 2 ^ j))
Top-step n j x top = elim (dec_lt j n) [
  | no small ↦ Top-full n (j + j) (bit_or x (x / 2 ^ j)) (omega arith) (
      fill_full n j x (omega arith)
        (sym (div-one x) ∙ Top-at n j x 0 (omega arith) top ∙ ap ones (omega arith)))
  | yes more ↦ elim (dec_lt (j + j) n) [
    | no middle ↦
        Top-full n (j + j) (bit_or x (x / 2 ^ j)) (omega arith) (
          fill_half (n - j) j x (omega arith) (top ∙ ap ones (omega arith)) ∙ ap ones (omega arith))
    | yes large ↦ Top-of n (j + j) (bit_or x (x / 2 ^ j)) (n - (j + j)) refl (
        bit_or-shift (n - (j + j)) x (x / 2 ^ j)
        ∙ ap (bit_or (x / 2 ^ (n - (j + j)))) (shifts_comm x j (n - (j + j)))
        ∙ fill_half j j (x / 2 ^ (n - (j + j))) (omega arith) (
            div_pow-add x (n - (j + j)) j
            ∙ Top-at n j x (n - (j + j) + j) (omega arith) top
            ∙ ap ones (omega arith))
        ∙ ap ones (omega arith))
  ]
]

-- The five steps, on a number of `n` digits with the top one 1.
pub smear-ones : (n x : ℕ) → 1 ≤ n → n ≤ 32 → 2 ^ (n - 1) ≤ x → x < 2 ^ n → smear x ≡ ones n
unfolding smear
smear-ones n x pos fits low high =
    sym (div-one (smear x)) ∙ Top-at n 32 (smear x) 0 (omega arith) all ∙ ap ones (omega arith)
  where
    one_more : 2 ^ n ≡ 2 ^ (n - 1) * 2
    one_more = ap (λ k. 2 ^ k) {y = suc (n - 1)} (omega arith) ∙ pow-suc 2 (n - 1)

    top : Top n 1 x
    top = Top-of n 1 x (n - 1) refl (
        div-eq_of_lt-le (2 ^ (n - 1)) (omega arith) (omega (arith, one_more))
        ∙ ap ones {x = 1} (omega arith))

    all : Top n 32 (smear x)
    all = Top-step n 16 _ (Top-step n 8 _ (Top-step n 4 _ (Top-step n 2 _ (Top-step n 1 x top))))

-- the number of binary digits of `x`
top_digit :
    (f x : ℕ) → 1 ≤ x → x < 2 ^ f → (n : ℕ) × (1 ≤ n) × (n ≤ f) × (2 ^ (n - 1) ≤ x) × (x < 2 ^ n)
top_digit zero x pos high = absurd (omega arith)
top_digit (suc f) x pos high = elim (dec_lt x (2 ^ f)) [
  | yes lower ↦
      let (n, one, fits, low, up) = top_digit f x pos lower in (n, one, omega arith, low, up)
  | no same ↦ (suc f, omega arith, omega arith, omega (arith, ap (λ k. 2 ^ k) (pred_suc f)), high)
]
  where
    pred_suc : (f : ℕ) → suc f - 1 ≡ f
    pred_suc f = omega arith

-- `v--; smear; v++` on 2 to 2 ^ 31 gives the least power of two that is not below.
pub round_up :
    (v : ℕ)
    → 2 ≤ v
    → v ≤ 2 ^ 31
    → (k : ℕ) × ((smear (v - 1) + 1) % 2 ^ 32 ≡ 2 ^ k) × (v ≤ 2 ^ k) × (2 ^ k < 2 * v)
round_up v low high =
    let (n, one, fits, below, above) = top_digit 31 (v - 1) (omega arith) (omega arith) in
    let filled = smear-ones n (v - 1) one (omega arith) below above in
    let twice : 2 ^ n ≡ 2 ^ (n - 1) * 2 =
      ap (λ k. 2 ^ k) {y = suc (n - 1)} (omega arith) ∙ pow-suc 2 (n - 1) in
    (n, omega (arith, filled, twice), omega arith, omega (arith, twice))

pub lt_of-pow-lt : (k n : ℕ) → 2 ^ k < 2 ^ n → k < n
lt_of-pow-lt k n lt = not-le n k λ le. omega (arith, pow-le-pow_right {n = 2} (omega arith) le)
