-- ===== src/Rcu/Total.antt =====
-- Sums over the first `n` threads.
use relativistic_hash_table.Base.{
  ℕ, zero, suc, ◌+◌, ◌≤◌, ◌<◌, ◌≡◌, ◌≢◌, refl, arith, ◌==◌, Bool-cases, inl, inr,
}

pub total : ℕ → (ℕ → ℕ) → ℕ
total zero f = 0
total (suc n) f = total n f + f n

pub total-zero : (n : ℕ) (f : ℕ → ℕ) → ((i : ℕ) → f i ≡ 0) → total n f ≡ 0
unfolding total
total-zero zero f h = refl
total-zero (suc n) f h = omega (arith, total-zero n f h, h n)

pub total-le : (n : ℕ) (f : ℕ → ℕ) → ((i : ℕ) → f i ≤ 1) → total n f ≤ n
unfolding total
total-le zero f h = omega arith
total-le (suc n) f h = omega (arith, total-le n f h, h n)

pub le-total : (n : ℕ) (f : ℕ → ℕ) (i : ℕ) → i < n → f i ≤ total n f
unfolding total
le-total zero f i h = absurd (omega arith)
le-total (suc n) f i h = elim (Bool-cases (i == n)) [
  | inl e ↦ ground arith
  | inr e ↦ ground (arith, le-total n f i)
]

pub total-same_below : (n : ℕ) (f g : ℕ → ℕ) → ((j : ℕ) → j < n → g j ≡ f j) → total n g ≡ total n f
unfolding total
total-same_below zero f g h = refl
total-same_below (suc n) f g h =
    omega (arith, total-same_below n f g (λ j lt. h j (omega arith)), h n (omega arith))

-- A change at one thread changes the sum by as much.
pub total-change :
    (n : ℕ) (f g : ℕ → ℕ) (i : ℕ)
    → i < n
    → ((j : ℕ) → j ≢ i → g j ≡ f j)
    → total n g + f i ≡ total n f + g i
unfolding total
total-change zero f g i h same = absurd (omega arith)
total-change (suc n) f g i h same = elim (Bool-cases (i == n)) [
  | inl e ↦ ground (arith, total-same_below n f g (λ j lt. same j (ground arith)))
  | inr e ↦ ground (arith, total-change n f g i (ground arith) same, same n)
]

-- A sum that is not 0 has a thread that contributes.
pub total-pos : (n : ℕ) (f : ℕ → ℕ) → 0 < total n f → (i : ℕ) × (i < n) × (0 < f i)
unfolding total
total-pos zero f h = absurd (omega arith)
total-pos (suc n) f h = elim (Bool-cases (f n == 0)) [
  | inl e ↦ let (i, lt, p) = total-pos n f (ground arith) in (i, omega arith, p)
  | inr e ↦ (n, omega arith, ground arith)
]
