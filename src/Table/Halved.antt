-- ===== src/Table/Halved.antt =====
-- How the nodes of a table are shared out among twice as many buckets.
use native.Mathlib.Nat.{mod-eq_of_lt, add-mod_right}
use relativistic_hash_table.Base.{
  ℕ, suc, ◌+◌, ◌-◌, ◌%◌, ◌^◌, ◌≤◌, ◌<◌, ◌≡◌, inl, inr, sym, ap, ◌∙◌, true, false, ◌&&◌, List, ◌==◌,
  ◌∈◌, arith, subst, ==→eq, Bool-cases, ltb, filter, has-filter, filter-same, has,
}
use relativistic_hash_table.Memory.{Ptr, Links, Mem}
use relativistic_hash_table.Memory.Chain.{IsSlist}
use relativistic_hash_table.Unzip.{is}
use relativistic_hash_table.Table.Halving.{double}
use relativistic_hash_table.Table.Twice.{mask, is-mod}

-- The nodes that the bucket `i` of twice as many gets.
abbrev pub halved : (k : ℕ) → (hash : Ptr → ℕ) → (ℕ → List Ptr) → ℕ → List Ptr
halved k hash chain i = filter (λ x. hash x % 2 ^ suc k == i) (chain (i % 2 ^ k))

module _ (k : ℕ) (fresh : Ptr) (chain : ℕ → List Ptr) (m : Mem) (fits : suc k ≤ 30) where
  halved_list :
      (next : Links) (i j : ℕ)
      → i % 2 ^ k ≡ j
      → IsSlist next (fresh + i) (filter (is m.hash (mask k) i) (chain j))
      → IsSlist next (fresh + i) (halved k m.hash chain i)
  halved_list next i j e c =
      subst (λ l. IsSlist next (fresh + i) l)
        (filter-same (is m.hash (mask k) i) (λ x. m.hash x % 2 ^ suc k == i) (chain j)
            (λ x. is-mod m.hash k i x fits)
          ∙ ap (λ j. filter (λ x. m.hash x % 2 ^ suc k == i) (chain j)) (sym e))
        c

  pub halved_lists :
      (next : Links)
      → ((j : ℕ)
          → j < 2 ^ k
          → IsSlist next (fresh + j) (filter (is m.hash (mask k) j) (chain j))
            × IsSlist next
                (fresh + (j + 2 ^ k))
                (filter (is m.hash (mask k) (j + 2 ^ k)) (chain j)))
      → (i : ℕ) → i < 2 ^ suc k
      → IsSlist next (fresh + i) (halved k m.hash chain i)
  halved_lists next both i lt = elim (Bool-cases (ltb i (2 ^ k))) [
    | inl low ↦ halved_list next i i (mod-eq_of_lt (below low)) (both i (below low)).0
    | inr high ↦ halved_list next i (i - 2 ^ k) (remainder high) (
        subst (λ n. IsSlist next (fresh + n) (filter (is m.hash (mask k) n) (chain (i - 2 ^ k))))
          (back high) (both (i - 2 ^ k) (above high)).1)
  ]
    where
      below : ltb i (2 ^ k) ≡ true → i < 2 ^ k
      below low = ground (arith, low)

      above : ltb i (2 ^ k) ≡ false → i - 2 ^ k < 2 ^ k
      above high = ground (arith, high, double k)

      back : ltb i (2 ^ k) ≡ false → i - 2 ^ k + 2 ^ k ≡ i
      back high = ground (arith, high)

      remainder : ltb i (2 ^ k) ≡ false → i % 2 ^ k ≡ i - 2 ^ k
      remainder high =
          ap (λ n. n % 2 ^ k) (sym (back high))
          ∙ add-mod_right (i - 2 ^ k) (2 ^ k)
          ∙ mod-eq_of_lt (above high)

  pub halved-mem :
      (i x : ℕ) → x ∈ halved k m.hash chain i → (x ∈ chain (i % 2 ^ k)) × (m.hash x % 2 ^ suc k ≡ i)
  halved-mem i x at =
      (ground (arith, at, kept), ==→eq (m.hash x % 2 ^ suc k) i (ground (arith, at, kept)))
    where
      kept :
          has x (filter (λ x. m.hash x % 2 ^ suc k == i) (chain (i % 2 ^ k)))
          ≡ (has x (chain (i % 2 ^ k)) && (m.hash x % 2 ^ suc k == i))
      kept = has-filter (λ x. m.hash x % 2 ^ suc k == i) x (chain (i % 2 ^ k))
