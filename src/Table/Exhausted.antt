-- ===== src/Table/Exhausted.antt =====
-- A `malloc` that fails, which allocateAndInitBuckets of RCUHashTable.cpp does not look at.
use native.Mathlib.Nat.{one-le-pow}
use relativistic_hash_table.Base.{ℕ, suc, ◌/◌, ◌^◌, ◌≡◌, false, List, ◌==◌, arith, eq_false}
use relativistic_hash_table.Memory.{Ptr, null, Mem, run, faulted}
use relativistic_hash_table.Memory.Faults.{later, bind-Faults, run-Faults}
use relativistic_hash_table.Memory.Ensures.{perform-load_info}
use relativistic_hash_table.Buckets.Setup.{allocate_and_init_buckets-Faults}
use relativistic_hash_table.Resize.{
  expand_buckets2x, shrink_buckets2x, expand_buckets_by_fac2_return_old,
  shrink_buckets_by_fac2_return_old,
}
use relativistic_hash_table.Table.{init_detailed}
use relativistic_hash_table.Table.Shape.{IsTable, array}
use relativistic_hash_table.Table.Halving.{double}

-- If `malloc` returns null, then `init_detailed` is undefined behaviour for every number of buckets,
-- and so are `expand_buckets2x` and `shrink_buckets2x` in every table of more than one bucket.
pub resize-null :
    (k fuel : ℕ) (base : Ptr) (chain : ℕ → List Ptr) (m : Mem)
    → IsTable m (suc k) base chain
    → ((n : ℕ) → run (init_detailed null n) m ≡ faulted)
      × (run (expand_buckets2x fuel null) m ≡ faulted)
      × (run (shrink_buckets2x fuel null) m ≡ faulted)
unfolding init_detailed expand_buckets2x shrink_buckets2x expand_buckets_by_fac2_return_old
    shrink_buckets_by_fac2_return_old
resize-null k fuel base chain m t = (
  (λ n. run-Faults (bind-Faults _ (allocate_and_init_buckets-Faults _ m))),
  run-Faults (
      later (perform-load_info (array (suc k) base) m t.info)
        (bind-Faults _ (bind-Faults _ (allocate_and_init_buckets-Faults _ m)))),
  run-Faults (
      later (perform-load_info (array (suc k) base) m t.info)
        (rw some_left (bind-Faults _ (bind-Faults _ (allocate_and_init_buckets-Faults _ m))))),
)
  where
    some_left : (2 ^ suc k / 2 == 0) ≡ false
    some_left =
        eq_false (2 ^ suc k / 2) 0
          (λ e. absurd (omega (arith, e, double k, one-le-pow k 2 (omega arith))))
