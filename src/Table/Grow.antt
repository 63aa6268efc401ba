-- ===== src/Table/Grow.antt =====
-- rTableCoreExpandBuckets2x: doubling a table and freeing the old array.
use native.Mathlib.Nat.{mod-lt, one-le-pow}
use relativistic_hash_table.Base.{
  ℕ, suc, ◌+◌, ◌-◌, ◌%◌, ◌^◌, ◌≤◌, ◌<◌, ◌≡◌, ◌≢◌, ◌⊎◌, inl, inr, refl, sym, ap, ◌∙◌, true, false,
  ◌&&◌, Option, none, some, List, ◌∷◌, ◌==◌, ◌∈◌, arith, Bool-cases, has-filter, length, has,
}
use relativistic_hash_table.Memory.{Ptr, null, BucketsInfo, Mem, Action, within, perform}
use relativistic_hash_table.Memory.Ensures.{perform-release, without_buckets}
use relativistic_hash_table.Memory.Watched.{Watched, ends, goes, bind-Watched, weaken-Watched}
use relativistic_hash_table.Memory.Chain.{Chain-frame, Chain-used}
use relativistic_hash_table.Memory.Leads.{Unlinked}
use relativistic_hash_table.Buckets.{destroy_and_free_buckets}
use relativistic_hash_table.Buckets.Setup.{IsUnused}
use relativistic_hash_table.Resize.{expand_buckets2x}
use relativistic_hash_table.Table.Shape.{IsTable, array}
use relativistic_hash_table.Table.Halved.{halved}
use relativistic_hash_table.Table.Expand.{KeepsOrServes, expand_buckets_by_fac2_return_old-IsTable}

-- An access of the doubling, or the `free` of the old array when it was not the one of the table at
-- the last grace period.
abbrev pub Grows : (hash : Ptr → ℕ) (k base fresh : ℕ) → Mem → Mem → Action → Mem → Type 0
Grows hash k base fresh m0 m a m' =
    KeepsOrServes hash k fresh m0 m a m'
    ⊎ ((a ≡ Action.release base (2 ^ k)) × (m0.buckets_info ≢ some (array k base)))

-- What the doubling leaves of the table in `m`: the old array is free.
pub record Grown (k : ℕ) (base fresh : Ptr) (chain : ℕ → List Ptr) (m m' : Mem) : Type 0 where
  pub table : IsTable m' (suc k) fresh (halved k m.hash chain)
  pub freed : IsUnused m' base (2 ^ k)
  pub same_hash : m'.hash ≡ m.hash
  pub same_size : m'.size ≡ m.size

module _ (k : ℕ) (base fresh : Ptr) (chain : ℕ → List Ptr) (m : Mem) (t : IsTable m k base chain)
    (unused : IsUnused m fresh (2 ^ suc k)) where
  -- The new table has no cell in the old array.
  outside_old :
      (i a : ℕ)
      → i < 2 ^ suc k
      → a ∈ ((fresh + i) ∷ halved k m.hash chain i)
      → within base (2 ^ k) a ≡ false
  outside_old i a lt at = elim (Bool-cases (a == fresh + i)) [
    | inl here ↦ ground (arith, here, lt, unused a, used)
    | inr other ↦
        t.nodes (i % 2 ^ k) a (mod-lt i (one-le-pow k 2 (omega arith)))
          (ground (arith, at, other, kept))
  ]
    where
      used : within base (2 ^ k) a ≡ true → m.next a ≢ none
      used inside =
          Chain-used m.next null ((base + (a - base)) ∷ chain (a - base)) a
            (t.lists (a - base) (ground (arith, inside))) (ground (arith, inside))

      kept :
          has a (halved k m.hash chain i)
          ≡ (has a (chain (i % 2 ^ k)) && (m.hash a % 2 ^ suc k == i))
      kept = has-filter (λ x. m.hash x % 2 ^ suc k == i) a (chain (i % 2 ^ k))

  without_old :
      (m' : Mem)
      → IsTable m' (suc k) fresh (halved k m.hash chain)
      → IsTable (without_buckets m' base (2 ^ k)) (suc k) fresh (halved k m.hash chain)
  without_old m' t' = record {
    info = t'.info;
    fits = t'.fits;
    lists = λ i lt.
        Chain-frame m'.next (without_buckets m' base (2 ^ k)).next null
          ((fresh + i) ∷ halved k m.hash chain i) (t'.lists i lt)
          λ a at. ground (arith, outside_old i a lt at);
    hashed = t'.hashed;
    nodes = t'.nodes;
  }

  moved :
      (m' : Mem)
      → m'.buckets_info ≡ some (array (suc k) fresh)
      → m'.buckets_info ≢ some (array k base)
  moved m' info e = same_count (ap count (sym info ∙ e))
    where
      count : Option BucketsInfo → ℕ
      count none = 0
      count (some info) = info.nr_buckets_power_of2

      same_count : 2 ^ suc k ≢ 2 ^ k
      same_count e = omega (arith, one-le-pow k 2)

  -- In a table of `2 ^ k` buckets, `k` at most 29, to whose buckets no cell is linked, given an unused
  -- array for twice as many, no cell at null, and more rounds than each bucket has nodes,
  -- `expand_buckets2x` ends without a fault and leaves a table on
  -- the new array, whose bucket `i` has the nodes of the old bucket `i % 2 ^ k` with that hash, in the
  -- order of before, with the old array freed and the size and all hashes as before. Each access is
  -- one that makes no cell unreachable, or one that leaves every reader that may have entered a new
  -- bucket since the last grace period able to reach each node of that bucket that it could reach, or
  -- the `free` of the old array when it was not that of the table at the last grace period.
  pub expand_buckets2x-Grown :
      suc k ≤ 30
      → fresh ≢ null
      → m.next null ≡ none
      → ((i : ℕ) → i < 2 ^ k → Unlinked m.next (base + i))
      → (fuel : ℕ) (m0 : Mem) → ((i : ℕ) → i < 2 ^ k → length (chain i) < fuel)
      → Watched
          (Grows m.hash k base fresh)
          (λ r m0' m'. Grown k base fresh chain m m')
          (expand_buckets2x fuel fresh)
          m0
          m
  unfolding expand_buckets2x destroy_and_free_buckets perform
  expand_buckets2x-Grown fits live null_free heads fuel m0 enough =
      bind-Watched
        (weaken-Watched (λ m0 m a m' g. inl g) (λ r m0 m' d. d)
          (expand_buckets_by_fac2_return_old-IsTable k base fresh chain m t fits unused live
            null_free heads fuel m0 enough))
        λ old m0' m' ((at, t', same_hash, same_size, head), info). rw at (
          goes (perform-release base (2 ^ k) null m' head) (inr (refl, moved m0' info)) (
            ends (record {
              table = without_old m' t';
              freed = λ a inside. rw inside refl;
              same_hash = same_hash;
              same_size = same_size;
            })))
