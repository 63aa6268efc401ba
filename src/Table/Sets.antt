-- ===== src/Table/Sets.antt =====
-- What a table loses as a set of nodes when a node is taken out of a list, or two lists become one.
use native.Mathlib.Nat.{add-mod_right, mod-eq_of_lt, one-le-pow}
use relativistic_hash_table.Base.{
  ℕ, suc, ◌+◌, ◌-◌, ◌%◌, ◌^◌, ◌≤◌, ◌<◌, ◌≡◌, ◌≢◌, inl, inr, refl, sym, ap, ◌∙◌, Bool, true, false,
  not, ◌&&◌, ◌||◌, List, [], ◌∷◌, ◌∈◌, ◌==◌, arith, Bool-cases, ==→eq, ==_false, has, has-append,
  find, erase, ◌⊎◌, ltb, ltb→lt, ne_of_mem, eq_false,
}
use relativistic_hash_table.Memory.{Ptr, null, Links, Mem}
use relativistic_hash_table.Memory.Chain.{Chain}
use relativistic_hash_table.Table.Shape.{IsTable, index-lt}
use relativistic_hash_table.Table.Detach.{erased}
use relativistic_hash_table.Table.Halving.{double, merged, mod_double, low-lt, high-lt}
use relativistic_hash_table.Table.Unreached.{find-mem}
use relativistic_hash_table.Table.Contents.{Holds}

pub find-accepted : (p : ℕ → Bool) (xs : List ℕ) → find p xs ≢ null → p (find p xs) ≡ true
find-accepted p [] live = absurd (live refl)
find-accepted p (x ∷ xs) live = elim (Bool-cases (p x)) [
  | inl taken ↦ rw taken taken
  | inr past ↦ rw past (find-accepted p xs (rw past at live))
]

-- Where the search of a list of cells finds null, it accepts none of them.
pub find-none :
    (p : ℕ → Bool) (next : Links) (stop : Ptr) (xs : List ℕ)
    → Chain next stop xs
    → find p xs ≡ null
    → (x : ℕ) → x ∈ xs
    → p x ≡ false
find-none p next stop [] c e x at = absurd (ground arith)
find-none p next stop (y ∷ ys) c e x at = elim (Bool-cases (p y)) [
  | inl taken ↦ absurd (c.0 (rw taken at e))
  | inr past ↦ elim (Bool-cases (x == y)) [
    | inl here ↦ ap p (==→eq x y here) ∙ past
    | inr off ↦ find-none p next stop ys c.3 (rw past at e) x (rw off at at)
  ]
]

taken_case : (b hx : Bool) → (b ≡ true → hx ≡ false) → hx ≡ ((b || hx) && not b)
taken_case true hx h = h refl
taken_case false true h = refl
taken_case false false h = refl

past_case :
    (b e hx g : Bool) → e ≡ (hx && not g) → (b ≡ true → g ≡ false) → (b || e) ≡ ((b || hx) && not g)
past_case true e hx g same h = rw (h refl) refl
past_case false e hx g same h = same

-- Erasing from a list of distinct cells takes out the one that is found.
pub has-erase :
    (p : ℕ → Bool) (next : Links) (stop : Ptr) (xs : List ℕ) (x : ℕ)
    → Chain next stop xs
    → find p xs ≢ null
    → has x (erase p xs) ≡ (has x xs && not (x == find p xs))
has-erase p next stop [] x c live = refl
has-erase p next stop (y ∷ ys) x c live = elim (Bool-cases (p y)) [
  | inl taken ↦
      rw taken (taken_case (x == y) (has x ys) λ here. ap (λ a. has a ys) (==→eq x y here) ∙ c.2)
  | inr past ↦
      let found = rw past at live in
      rw past (
        past_case (x == y) (has x (erase p ys)) (has x ys) (x == find p ys)
          (has-erase p next stop ys x c.3 found) λ here. off (==→eq x y here) found (find-mem p ys))
]
  where
    off : x ≡ y → find p ys ≢ null → (find p ys ∈ ys) ⊎ (find p ys ≡ 0) → (x == find p ys) ≡ false
    off here found (inl at) = eq_false x (find p ys) λ e. ne_of_mem ys c.2 at (sym here ∙ e)
    off here found (inr missed) = absurd (found missed)

and_of-false : (b g : Bool) → g ≡ false → (b && not g) ≡ b
and_of-false true g e = ap not e
and_of-false false g e = refl

or_false : (a b : Bool) → b ≡ false → (a || b) ≡ a
or_false true b e = refl
or_false false b e = e

or_true : (a b : Bool) → a ≡ false → (a || b) ≡ b
or_true true b e = ap (λ c. c || b) e
or_true false b e = refl

-- The digits of a number below `2 * n`.
mod_cases : (n j : ℕ) → j < n + n → (j ≡ j % n) ⊎ (j ≡ j % n + n)
mod_cases n j lt = elim (Bool-cases (ltb j n)) [
  | inl small ↦ inl (sym (mod-eq_of_lt (ltb→lt j n small)))
  | inr large ↦ inr (
      sym (
        ap (λ r. r + n)
          (ap (λ a. a % n) (sym (back (ge large)))
            ∙ add-mod_right (j - n) n
            ∙ mod-eq_of_lt (rest (ge large)))
        ∙ back (ge large)))
]
  where
    ge : ltb j n ≡ false → n ≤ j
    ge e = ground (arith, e)

    back : n ≤ j → j - n + n ≡ j
    back le = omega (arith, le)

    rest : n ≤ j → j - n < n
    rest le = omega (arith, le, lt)

-- Taking the found node out of its list takes it out of the set.
pub erased-Holds :
    (predict : Ptr → Bool) (nodes : Ptr → Bool) (k : ℕ) (base : Ptr) (h : ℕ) (chain : ℕ → List Ptr)
    (m : Mem)
    → IsTable m k base chain
    → Holds nodes m.hash k chain
    → find predict (chain (h % 2 ^ k)) ≢ null
    → Holds
        (λ x. nodes x && not (x == find predict (chain (h % 2 ^ k))))
        m.hash
        k
        (erased predict k base chain h)
erased-Holds predict nodes k base h chain m t holds live x =
    elim (Bool-cases (m.hash x % 2 ^ k == h % 2 ^ k)) [
      | inl here ↦ rw here (
          ap (λ b. b && not (x == found))
            (holds x ∙ ap (λ i. has x (chain i)) (==→eq (m.hash x % 2 ^ k) (h % 2 ^ k) here))
          ∙ sym (
              has-erase predict m.next null (chain (h % 2 ^ k)) x
                (t.lists (h % 2 ^ k) (index-lt k h)).3 live))
      | inr other ↦ rw other (
          and_of-false (nodes x) (x == found) (
            eq_false x found λ e. ==_false (m.hash x % 2 ^ k) (h % 2 ^ k) other (
              ap (λ y. m.hash y % 2 ^ k) e
              ∙ t.hashed (h % 2 ^ k) found (index-lt k h)
                  (member (find-mem predict (chain (h % 2 ^ k))))))
          ∙ holds x)
    ]
  where
    found : Ptr
    found = find predict (chain (h % 2 ^ k))

    member : (found ∈ chain (h % 2 ^ k)) ⊎ (found ≡ 0) → found ∈ chain (h % 2 ^ k)
    member (inl at) = at
    member (inr missed) = absurd (live missed)

-- Two buckets become one: the set stays.
pub merged-Holds :
    (nodes : Ptr → Bool) (hash : Ptr → ℕ) (k : ℕ) (chain : ℕ → List Ptr)
    → ((i x : ℕ) → i < 2 ^ suc k → x ∈ chain i → hash x % 2 ^ suc k ≡ i)
    → Holds nodes hash (suc k) chain
    → Holds nodes hash k (merged k chain)
merged-Holds nodes hash k chain hashed holds x =
    elim (mod_cases (2 ^ k) (hash x % 2 ^ suc k) below) [
      | inl low ↦
          holds x
          ∙ ap (λ j. has x (chain j)) (low ∙ mod_double k (hash x))
          ∙ sym (
              has-append x (chain i) (chain (i + 2 ^ k))
              ∙ or_false (has x (chain i)) (has x (chain (i + 2 ^ k))) (
                  not_in (i + 2 ^ k) (high-lt k i (index-lt k (hash x)))
                    λ e. omega (arith, low, mod_double k (hash x), e, one-le-pow k 2)))
      | inr high ↦
          holds x
          ∙ ap (λ j. has x (chain j)) (high ∙ ap (λ r. r + 2 ^ k) (mod_double k (hash x)))
          ∙ sym (
              has-append x (chain i) (chain (i + 2 ^ k))
              ∙ or_true (has x (chain i)) (has x (chain (i + 2 ^ k))) (
                  not_in i (low-lt k i (index-lt k (hash x)))
                    λ e. omega (arith, high, mod_double k (hash x), e, one-le-pow k 2)))
    ]
  where
    i : ℕ
    i = hash x % 2 ^ k

    below : hash x % 2 ^ suc k < 2 ^ k + 2 ^ k
    below = omega (arith, index-lt (suc k) (hash x), double k)

    not_in : (j : ℕ) → j < 2 ^ suc k → hash x % 2 ^ suc k ≢ j → has x (chain j) ≡ false
    not_in j lt ne = elim (Bool-cases (has x (chain j))) [
      | inl at ↦ absurd (ne (hashed j x lt at))
      | inr out ↦ out
    ]

pub erase-none :
    (p : ℕ → Bool) (next : Links) (stop : Ptr) (xs : List ℕ)
    → Chain next stop xs
    → find p xs ≡ null
    → erase p xs ≡ xs
erase-none p next stop [] c e = refl
erase-none p next stop (y ∷ ys) c e = elim (Bool-cases (p y)) [
  | inl taken ↦ absurd (c.0 (rw taken at e))
  | inr past ↦ rw past (ap (λ zs. y ∷ zs) (erase-none p next stop ys c.3 (rw past at e)))
]
