-- ===== src/Base/Lists.antt =====
-- Lists of addresses: membership as a Boolean, length over the native numbers.
use Prim.Native.Nat.{ℕ, suc, ◌+◌}
use mathlib.Core.Path.{◌≡◌, refl, ap}
use mathlib.Core.Logic.{◌≢◌}
use mathlib.Core.Bool.{Bool, true, false, ◌||◌, or_assoc}
use mathlib.Core.List.{List, [], ◌∷◌, ◌++◌}
use native.Mathlib.Omega.{arith}
use relativistic_hash_table.Base.Tests.{◌==◌, if◌then◌else◌}

abbrev pub has : ℕ → List ℕ → Bool
has a [] = false
has a (x ∷ xs) = (a == x) || has a xs

infix 40 ◌∈◌ ◌∉◌
abbrev pub ◌∈◌ : ℕ → List ℕ → Type 0
a ∈ xs = has a xs ≡ true

abbrev pub ◌∉◌ : ℕ → List ℕ → Type 0
a ∉ xs = has a xs ≡ false

pub has-append : (a : ℕ) (xs ys : List ℕ) → has a (xs ++ ys) ≡ (has a xs || has a ys)
has-append a [] ys = refl
has-append a (x ∷ xs) ys = rw (has-append a xs ys, or_assoc)

module _ {ℓ} {A : Type ℓ} where
  abbrev pub length : List A → ℕ
  length [] = 0
  length (x ∷ xs) = suc (length xs)

  pub length-append : (xs ys : List A) → length (xs ++ ys) ≡ length xs + length ys
  length-append [] ys = omega arith
  length-append (x ∷ xs) ys = omega (arith, length-append xs ys)

abbrev pub any : (ℕ → Bool) → List ℕ → Bool
any p [] = false
any p (x ∷ xs) = p x || any p xs

-- the first member of `xs` that satisfies `p`, or 0
abbrev pub find : (ℕ → Bool) → List ℕ → ℕ
find p [] = 0
find p (x ∷ xs) = if p x then x else find p xs

-- `xs` without the first member that satisfies `p`
abbrev pub erase : (ℕ → Bool) → List ℕ → List ℕ
erase p [] = []
erase p (x ∷ xs) = if p x then xs else x ∷ erase p xs

pub not-mem-erase : (a : ℕ) (p : ℕ → Bool) (xs : List ℕ) → a ∉ xs → a ∉ erase p xs
not-mem-erase a p [] out = refl
not-mem-erase a p (x ∷ xs) out = ground (arith, not-mem-erase a p xs)

pub ne_of_not_mem : {a x : ℕ} (xs : List ℕ) → a ∉ (x ∷ xs) → a ≢ x
ne_of_not_mem xs out e = ground arith

pub not-mem-cons_erase :
    (a l : ℕ) (p : ℕ → Bool) (xs : List ℕ) → a ∉ (l ∷ xs) → a ∉ (l ∷ erase p xs)
not-mem-cons_erase a l p xs out = ground (arith, not-mem-erase a p xs)

pub mem_of-mem-erase : (a : ℕ) (p : ℕ → Bool) (xs : List ℕ) → a ∈ erase p xs → a ∈ xs
mem_of-mem-erase a p xs at = ground (arith, not-mem-erase a p xs)

pub ne_of_mem : {a b : ℕ} (xs : List ℕ) → a ∉ xs → b ∈ xs → a ≢ b
ne_of_mem xs out at e = cc (ap (λ (k : ℕ). has k xs) e)
