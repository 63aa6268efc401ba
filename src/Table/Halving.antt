-- ===== src/Table/Halving.antt =====
-- The loop of shrinkBucketsByFac2ReturnOld over the buckets of the new array.
use native.Mathlib.Nat.{one-le-pow, mod-mod_of_dvd, dvd-mul_right}
use relativistic_hash_table.Base.{
  false, ap, ◌*◌, ◌/◌, ◌%◌, ℕ, suc, ◌+◌, ◌^◌, ◌≤◌, ◌<◌, ◌≡◌, ◌≢◌, sym, ◌∙◌, none, some, List, ◌∷◌,
  ◌++◌, arith, ◌∈◌, ◌∉◌, has-append, ◌⊎◌, length, ◌==◌, Bool-cases, inl, inr, subst, ==_false,
  ==→eq,
}
use relativistic_hash_table.Memory.{within, Ptr, null, Prog, Mem}
use relativistic_hash_table.Memory.Ensures.{Ensures, mono}
use relativistic_hash_table.Memory.Chain.{IsSlist, Chain-frame, Chain-used}
use relativistic_hash_table.Memory.Leads.{Keeps}
use relativistic_hash_table.Buckets.Setup.{for_each-Ensures, IsUnused, HasEmpty}
use relativistic_hash_table.Buckets.Splice.{AreApart, Spliced, shrink_two_buckets_to_one-Spliced}
use relativistic_hash_table.Buckets.{for_each, shrink_two_buckets_to_one}
use relativistic_hash_table.Table.Shape.{cell-not_node, IsTable, cells_apart}

pub double : (k : ℕ) → 2 ^ suc k ≡ 2 ^ k + 2 ^ k
double k = omega arith

pub half_double : (k : ℕ) → 2 ^ suc k / 2 ≡ 2 ^ k
half_double k = omega (arith, double k)

pub some_bucket : (k : ℕ) → 2 ^ k ≢ 0
some_bucket k e = omega (arith, one-le-pow k 2)

pub mod_double : (k h : ℕ) → h % 2 ^ suc k % 2 ^ k ≡ h % 2 ^ k
mod_double k h = ap (λ n. h % n % 2 ^ k) twice ∙ mod-mod_of_dvd (2 ^ k) h (dvd-mul_right (2 ^ k) 2)
  where
    twice : 2 ^ suc k ≡ 2 ^ k * 2
    twice = omega (arith, double k)

-- The nodes of two buckets of a table become those of one.
abbrev pub merged : (k : ℕ) → (ℕ → List Ptr) → ℕ → List Ptr
merged k chain i = chain i ++ chain (i + 2 ^ k)

pub low-lt : (k j : ℕ) → j < 2 ^ k → j < 2 ^ suc k
low-lt k j lt = omega (arith, double k)

pub high-lt : (k j : ℕ) → j < 2 ^ k → j + 2 ^ k < 2 ^ suc k
high-lt k j lt = omega (arith, double k)

pub merged-mem :
    (k : ℕ) (chain : ℕ → List Ptr) (i x : ℕ)
    → x ∈ merged k chain i
    → (x ∈ chain i) ⊎ (x ∈ chain (i + 2 ^ k))
merged-mem k chain i x at = ground (arith, has-append x (chain i) (chain (i + 2 ^ k)))

-- The memory when the buckets below `i` are done.
pub record Halving (k : ℕ) (base fresh : Ptr) (chain : ℕ → List Ptr) (m : Mem) (i : ℕ) (m' : Mem)
    : Type 0 where
  pub done : (j : ℕ) → j < 2 ^ k → j < i → IsSlist m'.next (fresh + j) (merged k chain j)
  pub low : (j : ℕ) → j < 2 ^ k → i ≤ j → IsSlist m'.next (base + j) (chain j)
  pub high : (j : ℕ) → j < 2 ^ k → i ≤ j → IsSlist m'.next (base + (j + 2 ^ k)) (chain (j + 2 ^ k))
  pub empty : (j : ℕ) → j < 2 ^ k → i ≤ j → m'.next (fresh + j) ≡ some null
  pub heads : (j : ℕ) → j < 2 ^ suc k → m'.next (base + j) ≡ m.next (base + j)
  pub null_unused : m'.next null ≡ none
  pub same_hash : m'.hash ≡ m.hash
  pub same_info : m'.buckets_info ≡ m.buckets_info
  pub same_size : m'.size ≡ m.size

module _ (k : ℕ) (base fresh : Ptr) (chain : ℕ → List Ptr) (m : Mem)
    (t : IsTable m (suc k) base chain) (unused : IsUnused m fresh (2 ^ k)) (live : fresh ≢ null)
    (null_free : m.next null ≡ none) where
  -- No cell of the table is one of the new array.
  pub ne_fresh :
      (j i a : ℕ) → j < 2 ^ suc k → i < 2 ^ k → a ∈ ((base + j) ∷ chain j) → a ≢ fresh + i
  ne_fresh j i a lt lt' at e =
      Chain-used m.next null ((base + j) ∷ chain j) a (t.lists j lt) at (ground (arith, unused a))

  fresh_out : (i j : ℕ) → i < 2 ^ k → j < 2 ^ suc k → (fresh + i) ∉ chain j
  fresh_out i j lt lt' = ground (arith, ne_fresh j i (fresh + i) lt' lt)

  -- The round `i` leaves the cells of other buckets alone.
  kept :
      (i j a : ℕ)
      → i < 2 ^ k
      → j < 2 ^ suc k
      → j ≢ i
      → a ∈ ((base + j) ∷ chain j)
      → a ∉ ((fresh + i) ∷ chain i)
  kept i j a lt lt' ne at =
      ground (arith, ne_fresh j i a lt' lt, cells_apart t j i a lt' (low-lt k i lt) ne)

  module _ (i : ℕ) (lt : i < 2 ^ k) (m' : Mem) (h : Halving k base fresh chain m i m') where
    apart_now :
        AreApart m' (base + i) (base + (i + 2 ^ k)) (fresh + i) (chain i) (chain (i + 2 ^ k))
    apart_now = record {
      list0 = h.low i lt (omega arith);
      list1 = h.high i lt (omega arith);
      apart =
          λ a at. ground (arith, cells_apart t i (i + 2 ^ k) a (low-lt k i lt) (high-lt k i lt));
      ne_null = λ e. live (omega arith);
      is_empty = h.empty i lt (omega arith);
      outside0 = fresh_out i i lt (low-lt k i lt);
      outside1 = fresh_out i (i + 2 ^ k) lt (high-lt k i lt);
      null_free = h.null_unused;
    }

    done_after :
        (m'' : Mem)
        → Spliced m' (fresh + i) (chain i) (chain (i + 2 ^ k)) m''
        → (j : ℕ) → j < 2 ^ k
        → j < i + 1
        → IsSlist m''.next (fresh + j) (merged k chain j)
    done_after m'' r j ltj lt' = elim (Bool-cases (j == i)) [
      | inl here ↦
          subst (λ j. IsSlist m''.next (fresh + j) (merged k chain j)) (sym (==→eq j i here))
            r.chain
      | inr other ↦
          Chain-frame m'.next m''.next null ((fresh + j) ∷ merged k chain j)
            (h.done j ltj (ground arith)) λ a at. r.outside a (off a (==_false j i other) at)
    ]
      where
        off : (a : Ptr) → j ≢ i → a ∈ ((fresh + j) ∷ merged k chain j) → a ∉ ((fresh + i) ∷ chain i)
        off a ne at = ground (
          arith,
          has-append a (chain j) (chain (j + 2 ^ k)),
          fresh_out j i ltj (low-lt k i lt),
          kept i j a lt (low-lt k j ltj) ne,
          kept i (j + 2 ^ k) a lt (high-lt k j ltj),
        )

    still :
        (m'' : Mem)
        → Spliced m' (fresh + i) (chain i) (chain (i + 2 ^ k)) m''
        → (j : ℕ) → j < 2 ^ suc k
        → j ≢ i
        → IsSlist m'.next (base + j) (chain j)
        → IsSlist m''.next (base + j) (chain j)
    still m'' r j ltj ne c =
        Chain-frame m'.next m''.next null ((base + j) ∷ chain j) c
          λ a at. r.outside a (kept i j a lt ltj ne at)

    null_off : null ∉ ((fresh + i) ∷ chain i)
    null_off =
        ground
          (arith, Chain-used m.next null ((base + i) ∷ chain i) null (t.lists i (low-lt k i lt)))

    round :
        (m'' : Mem)
        → Spliced m' (fresh + i) (chain i) (chain (i + 2 ^ k)) m''
        → Halving k base fresh chain m (i + 1) m''
    round m'' r = record {
      done = done_after m'' r;
      low = λ j ltj le.
          still m'' r j (low-lt k j ltj) (λ e. omega (arith, e)) (h.low j ltj (omega arith));
      high = λ j ltj le.
          still m'' r (j + 2 ^ k) (high-lt k j ltj) (λ e. omega (arith, e))
            (h.high j ltj (omega arith));
      empty = λ j ltj le.
          r.outside (fresh + j) (ground (arith, fresh_out j i ltj (low-lt k i lt)))
          ∙ h.empty j ltj (omega arith);
      heads = λ j ltj.
          r.outside (base + j) (
            ground (arith, ne_fresh j i (base + j) ltj lt, cell-not_node t j i ltj (low-lt k i lt)))
          ∙ h.heads j ltj;
      null_unused = r.outside null null_off ∙ h.null_unused;
      same_hash = r.same_hash ∙ h.same_hash;
      same_info = r.same_info ∙ h.same_info;
      same_size = r.same_size ∙ h.same_size;
    }

  pub start : (m' : Mem) → HasEmpty m fresh (2 ^ k) m' → Halving k base fresh chain m 0 m'
  start m' e = record {
    done = λ j lt below. absurd (omega arith);
    low = λ j lt le. old j (low-lt k j lt);
    high = λ j lt le. old (j + 2 ^ k) (high-lt k j lt);
    empty = λ j lt le. ground (arith, e.cells (fresh + j));
    heads = λ j lt. ground (arith, e.cells (base + j), ne_fresh_cell j lt);
    null_unused = ground (arith, e.cells null);
    same_hash = e.same_hash;
    same_info = e.same_info;
    same_size = e.same_size;
  }
    where
      ne_fresh_cell : (j : ℕ) → j < 2 ^ suc k → within fresh (2 ^ k) (base + j) ≡ false
      ne_fresh_cell j lt = ground (arith, unused (base + j), (t.lists j lt).1)

      old : (j : ℕ) → j < 2 ^ suc k → IsSlist m'.next (base + j) (chain j)
      old j lt = Chain-frame m.next m'.next null ((base + j) ∷ chain j) (t.lists j lt) λ a at.
          ground (
            arith,
            e.cells a,
            unused a,
            Chain-used m.next null ((base + j) ∷ chain j) a (t.lists j lt) at,
          )

  -- all rounds of the loop over the new buckets
  pub all_rounds :
      (fuel : ℕ) (m' : Mem)
      → ((i : ℕ) → i < 2 ^ k → length (chain i) < suc fuel)
      → Halving k base fresh chain m 0 m'
      → Ensures
          (Keeps null null)
          (λ _. Halving k base fresh chain m (2 ^ k))
          (for_each
            (2 ^ k)
            0
            (λ i. shrink_two_buckets_to_one fuel (base + i) (base + (i + 2 ^ k)) (fresh + i)))
          m'
  all_rounds fuel m' enough h =
      subst
        (λ n.
          Ensures (Keeps null null) (λ _. Halving k base fresh chain m n) (for_each (2 ^ k) 0 body)
            m')
        no_offset
        (for_each-Ensures (Halving k base fresh chain m) (2 ^ k) 0 body m'
          (λ i now low high held.
            let lt : i < 2 ^ k = omega (arith, high) in
            mono
              (shrink_two_buckets_to_one-Spliced now (base + i) (base + (i + 2 ^ k)) (fresh + i)
                fuel (chain i) (chain (i + 2 ^ k)) (apart_now i lt now held) (enough i lt))
              λ _ after r. round i lt now held after r)
          h)
    where
      body : ℕ → Prog (Unit {0})
      body i = shrink_two_buckets_to_one fuel (base + i) (base + (i + 2 ^ k)) (fresh + i)

      no_offset : 0 + 2 ^ k ≡ 2 ^ k
      no_offset = omega arith
