-- ===== src/Table/Reclaim.antt =====
-- rTableCoreShrinkBuckets2x: halving a table and freeing the old array.
use native.Mathlib.Nat.{one-le-pow}
use relativistic_hash_table.Base.{
  ℕ, suc, ◌+◌, ◌-◌, ◌^◌, ◌<◌, ◌≡◌, ◌≢◌, refl, eq_false, sym, ap, ◌∙◌, true, false, none, some,
  Option, List, ◌∷◌, arith, ◌∈◌, ◌⊎◌, length, ◌==◌, Bool-cases, inl, inr,
}
use relativistic_hash_table.Memory.{Ptr, null, BucketsInfo, Mem, Action, within, perform}
use relativistic_hash_table.Memory.Ensures.{
  Ensures, returns, loads_info, releases, bind-Ensures, weaken-Ensures, without_buckets,
  perform-load_info, perform-release,
}
use relativistic_hash_table.Memory.Watched.{Watched, ends, waits, goes, within_period, bind-Watched}
use relativistic_hash_table.Memory.Chain.{first, Chain-frame}
use relativistic_hash_table.Memory.Leads.{Keeps, Reads}
use relativistic_hash_table.Buckets.Setup.{IsUnused, allocate_and_init_buckets-HasEmpty}
use relativistic_hash_table.Buckets.{destroy_and_free_buckets}
use relativistic_hash_table.Resize.{shrink_buckets2x, free_old, shrink_buckets_by_fac2_return_old}
use relativistic_hash_table.Table.Shape.{IsTable, IsTable-head, array, few_buckets}
use relativistic_hash_table.Table.Halving.{
  Halving, merged, merged-mem, half_double, some_bucket, all_rounds, start,
}
use relativistic_hash_table.Table.Shrink.{
  shrink_buckets_by_fac2_return_old-IsTable, finish, head_stays,
}

-- An access that makes nothing unreachable, or the `free` of the array `old` when it is no longer the
-- one of the table.
abbrev pub KeepsOrFrees : (old : BucketsInfo) → Mem → Action → Mem → Type 0
KeepsOrFrees old m a m' =
    Keeps null null m a m'
    ⊎ ((a ≡ Action.release old.buckets old.nr_buckets_power_of2) × (m.buckets_info ≢ some old))

-- An access that makes nothing unreachable, or the `free` of the array `old` when it was not the one of
-- the table at the last grace period, so that every reader that entered it has left.
abbrev pub KeepsOrReclaims : (old : BucketsInfo) → Mem → Mem → Action → Mem → Type 0
KeepsOrReclaims old m0 m a m' =
    Keeps null null m a m'
    ⊎ ((a ≡ Action.release old.buckets old.nr_buckets_power_of2) × (m0.buckets_info ≢ some old))

-- What the halving with the new array `fresh` leaves of the table in `m`: the old array is free.
pub record Shrunk (k : ℕ) (base fresh : Ptr) (chain : ℕ → List Ptr) (m m' : Mem) : Type 0 where
  pub table : IsTable m' k fresh (merged k chain)
  pub freed : IsUnused m' base (2 ^ suc k)
  pub same_hash : m'.hash ≡ m.hash
  pub same_size : m'.size ≡ m.size

module _ (k : ℕ) (base fresh : Ptr) (chain : ℕ → List Ptr) (m : Mem)
    (t : IsTable m (suc k) base chain) (unused : IsUnused m fresh (2 ^ k)) where
  -- The new table has no cell in the old array.
  pub outside_old :
      (i a : ℕ)
      → i < 2 ^ k
      → a ∈ ((fresh + i) ∷ merged k chain i)
      → within base (2 ^ suc k) a ≡ false
  outside_old i a lt at = elim (Bool-cases (a == fresh + i)) [
    | inl here ↦ ground (arith, unused a, t.lists (a - base))
    | inr other ↦ elim (merged-mem k chain i a (ground arith)) [
      | inl low ↦ t.nodes i a (omega arith) low
      | inr high ↦ t.nodes (i + 2 ^ k) a (omega arith) high
    ]
  ]

  pub without_buckets-IsTable :
      (m' : Mem)
      → IsTable m' k fresh (merged k chain)
      → IsTable (without_buckets m' base (2 ^ suc k)) k fresh (merged k chain)
  without_buckets-IsTable m' t' = record {
    info = t'.info;
    fits = t'.fits;
    lists = λ i lt.
        Chain-frame m'.next (without_buckets m' base (2 ^ suc k)).next null
          ((fresh + i) ∷ merged k chain i) (t'.lists i lt)
          λ a at. ground (arith, outside_old i a lt at);
    hashed = t'.hashed;
    nodes = t'.nodes;
  }

  moved :
      (m' : Mem) → IsTable m' k fresh (merged k chain) → m'.buckets_info ≢ some (array (suc k) base)
  moved m' t' e = same_count (ap count (sym t'.info ∙ e))
    where
      count : Option BucketsInfo → ℕ
      count none = 0
      count (some info) = info.nr_buckets_power_of2

      same_count : 2 ^ k ≢ 2 ^ suc k
      same_count e = omega (arith, one-le-pow k 2)

  -- In a table of more than one bucket, given an unused array for half as many buckets,
  -- `shrink_buckets2x`, with at least as many rounds as each bucket of the lower half has nodes,
  -- returns true and leaves a table on the new array, whose bucket `i` holds the nodes of the old
  -- buckets `i` and `i + 2 ^ k`, with the old array freed and the size and all hashes as before. At
  -- every moment before the old array is freed a reader can reach all the nodes that it could reach
  -- before, and when it is freed it is not the array of the table.
  pub shrink_buckets2x-halves :
      fresh ≢ null
      → m.next null ≡ none
      → (fuel : ℕ) → ((i : ℕ) → i < 2 ^ k → length (chain i) < suc fuel)
      → Ensures
          (KeepsOrFrees (array (suc k) base))
          (λ shrunk m'. (shrunk ≡ true) × Shrunk k base fresh chain m m')
          (shrink_buckets2x fuel fresh)
          m
  unfolding shrink_buckets2x destroy_and_free_buckets
  shrink_buckets2x-halves live null_free fuel enough =
      bind-Ensures
        (weaken-Ensures (λ m a m' keeps. inl keeps)
          (shrink_buckets_by_fac2_return_old-IsTable k base fresh chain m t unused live null_free
            fuel enough))
        λ old m' (at, t', same_hash, same_size, head). rw at (
          releases (head ∙ IsTable-head t) (inr (refl, moved m' t')) (
            returns (
              refl,
              record {
                table = without_buckets-IsTable m' t';
                freed = λ a inside. rw inside refl;
                same_hash = same_hash;
                same_size = same_size;
              },
            )))

  -- The halving up to the `free`, judged against the memory at its grace period.
  return_old-Watched :
      fresh ≢ null
      → m.next null ≡ none
      → (fuel : ℕ) (m0 : Mem) → ((i : ℕ) → i < 2 ^ k → length (chain i) < suc fuel)
      → Watched
          (KeepsOrReclaims (array (suc k) base))
          (λ old m0' m'.
            (old ≡ some (array (suc k) base))
            × (m0' ≡ m')
            × Halving k base fresh chain m (2 ^ k) (record m' { buckets_info = m.buckets_info })
            × IsTable m' k fresh (merged k chain))
          (shrink_buckets_by_fac2_return_old fuel fresh)
          m0
          m
  unfolding shrink_buckets_by_fac2_return_old perform
  return_old-Watched live null_free fuel m0 enough =
      goes (perform-load_info (array (suc k) base) m t.info) (inl λ x t off ne r. r) (
        rw (half_double k, eq_false (2 ^ k) 0 (some_bucket k))
          (within_period
            (weaken-Ensures (λ m a m' keeps. inl keeps)
              (allocate_and_init_buckets-HasEmpty m fresh (2 ^ k) (eq_false fresh null live)
                (some_bucket k) (few_buckets k t) unused))
            λ info m1 (at, e). rw at (
              within_period
                (weaken-Ensures (λ m a m' keeps. inl keeps)
                  (all_rounds k base fresh chain m t unused live null_free fuel m1 enough
                    (start k base fresh chain m t unused live null_free m1 e)))
                λ _ m2 h. goes refl (inl λ x t off ne r. r) (
                  waits (
                    ends (
                      refl,
                      refl,
                      back m2 h,
                      finish k base fresh chain m t unused live null_free m2 h,
                    ))))))
    where
      back :
          (m2 : Mem)
          → Halving k base fresh chain m (2 ^ k) m2
          → Halving k base fresh chain m (2 ^ k) (record m2 { buckets_info = m.buckets_info })
      back m2 h = record {
        done = h.done;
        low = h.low;
        high = h.high;
        empty = h.empty;
        heads = h.heads;
        null_unused = h.null_unused;
        same_hash = h.same_hash;
        same_info = refl;
        same_size = h.same_size;
      }

  -- In a table of more than one bucket, given an unused array for half as many buckets,
  -- `shrink_buckets2x`, with at least as many rounds as each bucket of the lower half has nodes,
  -- returns true and leaves a table on the new array, whose bucket `i` holds the nodes of the old
  -- buckets `i` and `i + 2 ^ k`, with the old array freed and the size and all hashes as before. Each
  -- access makes no cell unreachable, but for one, the `free` of the old array, which was not that of
  -- the table any more when the last grace period ended.
  pub shrink_buckets2x-Shrunk :
      fresh ≢ null
      → m.next null ≡ none
      → (fuel : ℕ) (m0 : Mem) → ((i : ℕ) → i < 2 ^ k → length (chain i) < suc fuel)
      → Watched
          (KeepsOrReclaims (array (suc k) base))
          (λ shrunk m0' m'. (shrunk ≡ true) × Shrunk k base fresh chain m m')
          (shrink_buckets2x fuel fresh)
          m0
          m
  unfolding shrink_buckets2x free_old destroy_and_free_buckets
  shrink_buckets2x-Shrunk live null_free fuel m0 enough =
      bind-Watched (return_old-Watched live null_free fuel m0 enough)
        λ old m0' m' (at, same, h, t'). rw at (
          goes
            (perform-release base (2 ^ suc k) (first (chain 0) null) m' (
              head_stays k base fresh chain m t unused live null_free
                (record m' { buckets_info = m.buckets_info }) h
              ∙ IsTable-head t))
            (inr (refl, λ e. moved m' t' (ap (λ now. now.buckets_info) (sym same) ∙ e)))
            (ends (
              refl,
              record {
                table = without_buckets-IsTable m' t';
                freed = λ a inside. rw inside refl;
                same_hash = h.same_hash;
                same_size = h.same_size;
              },
            )))

-- A table of one bucket is not halved: `shrink_buckets2x` returns false and only reads.
pub shrink_buckets2x-single :
    (base fresh : Ptr) (chain : ℕ → List Ptr) (m : Mem) (fuel : ℕ)
    → IsTable m 0 base chain
    → Ensures Reads (λ shrunk m'. (shrunk ≡ false) × (m' ≡ m)) (shrink_buckets2x fuel fresh) m
unfolding shrink_buckets2x
shrink_buckets2x-single base fresh chain m fuel t = loads_info t.info refl (returns (refl, refl))
