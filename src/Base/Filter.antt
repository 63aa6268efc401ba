-- ===== src/Base/Filter.antt =====
-- Lists of addresses cut down by a Boolean test.
use Prim.Native.Nat.{ℕ, ◌≤◌}
use mathlib.Core.Path.{◌≡◌, refl}
use mathlib.Core.Bool.{Bool, true, false, not, ◌&&◌, ◌||◌}
use mathlib.Core.List.{List, [], ◌∷◌, ◌++◌}
use native.Mathlib.Omega.{arith}
use relativistic_hash_table.Base.Tests.{if◌then◌else◌, ==→eq}
use relativistic_hash_table.Base.Lists.{has, ◌∈◌, length, find}

abbrev pub all : (ℕ → Bool) → List ℕ → Bool
all p [] = true
all p (x ∷ xs) = p x && all p xs

abbrev pub filter : (ℕ → Bool) → List ℕ → List ℕ
filter p [] = []
filter p (x ∷ xs) = if p x then x ∷ filter p xs else filter p xs

-- `xs` from its first member on that satisfies `p`
abbrev pub drop_until : (ℕ → Bool) → List ℕ → List ℕ
drop_until p [] = []
drop_until p (x ∷ xs) = if p x then x ∷ xs else drop_until p xs

pub all-append : (p : ℕ → Bool) (xs ys : List ℕ) → all p (xs ++ ys) ≡ (all p xs && all p ys)
all-append p [] ys = refl
all-append p (x ∷ xs) ys = ground (arith, all-append p xs ys)

pub all-mem : (p : ℕ → Bool) (xs : List ℕ) (a : ℕ) → all p xs ≡ true → a ∈ xs → p a ≡ true
all-mem p [] a h at = absurd (ground arith)
all-mem p (x ∷ xs) a h at = ground (arith, all-mem p xs a)

pub all_of_mem : (p : ℕ → Bool) (xs : List ℕ) → ((a : ℕ) → a ∈ xs → p a ≡ true) → all p xs ≡ true
all_of_mem p [] h = refl
all_of_mem p (x ∷ xs) h = ground (arith, h x, all_of_mem p xs (λ a at. h a (ground arith)))

pub filter-append :
    (p : ℕ → Bool) (xs ys : List ℕ) → filter p (xs ++ ys) ≡ filter p xs ++ filter p ys
filter-append p [] ys = refl
filter-append p (x ∷ xs) ys = ground (arith, filter-append p xs ys)

pub filter-all : (p : ℕ → Bool) (xs : List ℕ) → all p xs ≡ true → filter p xs ≡ xs
filter-all p [] h = refl
filter-all p (x ∷ xs) h = ground (arith, filter-all p xs)

pub filter_none :
    (p q : ℕ → Bool) (xs : List ℕ)
    → ((a : ℕ) → p a ≡ true → q a ≡ false)
    → all p xs ≡ true
    → filter q xs ≡ []
filter_none p q [] apart h = refl
filter_none p q (x ∷ xs) apart h = ground (arith, apart x, filter_none p q xs apart)

pub has-filter : (p : ℕ → Bool) (a : ℕ) (xs : List ℕ) → has a (filter p xs) ≡ (has a xs && p a)
has-filter p a [] = refl
has-filter p a (x ∷ xs) = ground (arith, has-filter p a xs, ==→eq a x)

pub filter-drop_until : (p : ℕ → Bool) (xs : List ℕ) → filter p (drop_until p xs) ≡ filter p xs
filter-drop_until p [] = refl
filter-drop_until p (x ∷ xs) = ground (arith, filter-drop_until p xs)

pub mem_of-mem-drop_until : (p : ℕ → Bool) (a : ℕ) (xs : List ℕ) → a ∈ drop_until p xs → a ∈ xs
mem_of-mem-drop_until p a [] at = at
mem_of-mem-drop_until p a (x ∷ xs) at = ground (arith, mem_of-mem-drop_until p a xs)

pub all_other :
    (p q : ℕ → Bool) (xs : List ℕ)
    → all (λ x. not (p x)) xs ≡ true
    → all (λ x. p x || q x) xs ≡ true
    → all q xs ≡ true
all_other p q [] none_own either = refl
all_other p q (x ∷ xs) none_own either = ground (arith, all_other p q xs)

pub all_swap :
    (p q : ℕ → Bool) (xs : List ℕ)
    → all (λ x. p x || q x) xs ≡ true
    → all (λ x. q x || p x) xs ≡ true
all_swap p q [] either = refl
all_swap p q (x ∷ xs) either = ground (arith, all_swap p q xs)

pub filter_past :
    (p : ℕ → Bool) (xs gone ys : List ℕ)
    → all p xs ≡ true
    → all (λ x. not (p x)) gone ≡ true
    → filter p (xs ++ (gone ++ ys)) ≡ xs ++ filter p ys
filter_past p xs gone ys own foreign =
    rw
      (
        filter-append p xs (gone ++ ys),
        filter-append p gone ys,
        filter-all p xs own,
        filter_none (λ x. not (p x)) p gone (λ a e. ground arith) foreign,
      )
      refl

pub drop_until_past :
    (p q : ℕ → Bool) (xs ys : List ℕ)
    → ((a : ℕ) → p a ≡ true → q a ≡ false)
    → all p xs ≡ true
    → drop_until q (xs ++ ys) ≡ drop_until q ys
drop_until_past p q [] ys apart h = refl
drop_until_past p q (x ∷ xs) ys apart h = ground (arith, apart x, drop_until_past p q xs ys apart)

pub filter-same : (p q : ℕ → Bool) (xs : List ℕ) → ((x : ℕ) → p x ≡ q x) → filter p xs ≡ filter q xs
filter-same p q [] same = refl
filter-same p q (x ∷ xs) same = ground (arith, same x, filter-same p q xs same)

pub length-filter-le : (p : ℕ → Bool) (xs : List ℕ) → length (filter p xs) ≤ length xs
length-filter-le p [] = omega arith
length-filter-le p (x ∷ xs) = ground (arith, length-filter-le p xs)

-- Leaving out what `p` does not accept does not change what it finds.
pub find-filter :
    (p q : ℕ → Bool) (xs : List ℕ)
    → ((x : ℕ) → p x ≡ true → q x ≡ true)
    → find p (filter q xs) ≡ find p xs
find-filter p q [] weaker = refl
find-filter p q (x ∷ xs) weaker = ground (arith, weaker x, find-filter p q xs weaker)
