-- ===== src/Table/Synchronize.antt =====
-- rTableCoreTryDetachAndSynchronize: what it returns, leaves, and waits for.
use relativistic_hash_table.Base.{
  ℕ, suc, ◌%◌, ◌^◌, ◌<◌, ◌≡◌, ◌≢◌, Bool, true, none, List, ◌==◌, Bool-cases, inl, inr, find, length,
}
use relativistic_hash_table.Memory.{Ptr, null, Mem, finished, run}
use relativistic_hash_table.Memory.Trace.{trace, settled}
use relativistic_hash_table.Resize.{Load}
use relativistic_hash_table.Memory.Ensures.{
  Ensures, returns, synchronizes, bind-Ensures, weaken-Ensures, run-Ensures,
}
use relativistic_hash_table.Buckets.Setup.{IsUnused}
use relativistic_hash_table.Table.Shape.{IsTable}
use relativistic_hash_table.Table.Detach.{erased}
use relativistic_hash_table.Table.Remove.{MaybeShrunk, try_detach_auto_shrink-MaybeShrunk}
use relativistic_hash_table.Table.{try_detach_and_synchronize}
use relativistic_hash_table.Table.Settle.{and_synchronize-settled}

module _ (load : Load) (k : ℕ) (base fresh : Ptr) (chain : ℕ → List Ptr) (fuel : ℕ)
    (predict : Ptr → Bool) (h : ℕ) (m : Mem) where
  pub try_detach_and_synchronize-MaybeShrunk :
      IsTable m (suc k) base chain
      → IsUnused m fresh (2 ^ k)
      → fresh ≢ null
      → m.next null ≡ none
      → ((i : ℕ) → i < 2 ^ suc k → length (chain i) < fuel)
      → Ensures
          (λ m a m'. Unit {0})
          (λ p m'.
            (p ≡ find predict (chain (h % 2 ^ suc k)))
            × ((s : Bool) × MaybeShrunk k base fresh (erased predict (suc k) base chain h) s m')
            × (m'.hash ≡ m.hash)
            × (m'.size ≡ m.size))
          (try_detach_and_synchronize load predict fuel fresh h)
          m
  unfolding try_detach_and_synchronize
  try_detach_and_synchronize-MaybeShrunk t unused live null_free enough =
      bind-Ensures
        (weaken-Ensures (λ m a m' g. tt)
          (try_detach_auto_shrink-MaybeShrunk load k base fresh chain fuel predict h m t unused live
            null_free enough))
        λ r m' (at, quiet, maybe, same_hash, same_size). elim (Bool-cases (r.0 == null)) [
          | inl absent ↦ rw absent (returns (at, (r.1, maybe), same_hash, same_size))
          | inr present ↦ rw present (elim (Bool-cases r.1) [
            | inl halved ↦ rw halved (returns (at, (r.1, maybe), same_hash, same_size))
            | inr kept ↦
                rw kept (synchronizes tt (returns (at, (r.1, maybe), same_hash, same_size)))
          ])
        ]

  -- In a table of more than one bucket, given an unused array for half as many buckets and more rounds
  -- than each bucket has nodes, `try_detach_and_synchronize` returns the first node of the bucket of
  -- the hash value that the predicate accepts, or null, and leaves a table without that node, halved or
  -- not. If it returns a node, then a whole rcuSynchronize lies behind the last access that changed a
  -- link or the array of the table.
  pub try_detach_and_synchronize-settled :
      IsTable m (suc k) base chain
      → IsUnused m fresh (2 ^ k)
      → fresh ≢ null
      → m.next null ≡ none
      → ((i : ℕ) → i < 2 ^ suc k → length (chain i) < fuel)
      → (p : Ptr) × (m' : Mem) × (run (try_detach_and_synchronize load predict fuel fresh h) m
          ≡ finished p m')
        × (p ≡ find predict (chain (h % 2 ^ suc k)))
        × ((s : Bool) × MaybeShrunk k base fresh (erased predict (suc k) base chain h) s m')
        × (p ≢ null
            → settled (trace (try_detach_and_synchronize load predict fuel fresh h) m) ≡ true)
  try_detach_and_synchronize-settled t unused live null_free enough =
      let (p, m', is, (at, maybe, same_hash, same_size)) =
        run-Ensures (try_detach_and_synchronize-MaybeShrunk t unused live null_free enough) in
      (p, m', is, at, maybe, and_synchronize-settled load predict fuel fresh h m p m' is)
