-- ===== src/Table/Find.antt =====
-- rTableCoreFind.
use relativistic_hash_table.Base.{ℕ, ◌+◌, ◌%◌, ◌^◌, ◌<◌, ◌≡◌, refl, Bool, List, length, find}
use relativistic_hash_table.Memory.{Ptr, Mem}
use relativistic_hash_table.Memory.Ensures.{Ensures, loads_info}
use relativistic_hash_table.Memory.Leads.{Reads}
use relativistic_hash_table.Slist.Find.{find_if-find}
use relativistic_hash_table.Table
use relativistic_hash_table.Table.Shape.{IsTable, bucket_of-mod, index-lt}

-- In a table, `find` with more rounds than the bucket of the hash value has nodes returns the first
-- node of that bucket which the predicate accepts, or null if it accepts none, and writes nothing. It
-- asks about every node of the bucket, of whatever hash.
pub find-find :
    (predict : Ptr → Bool) (fuel hash_val k : ℕ) (base : Ptr) (chain : ℕ → List Ptr) (m : Mem)
    → IsTable m k base chain
    → length (chain (hash_val % 2 ^ k)) < fuel
    → Ensures Reads
        (λ p m'. (p ≡ find predict (chain (hash_val % 2 ^ k))) × (m' ≡ m))
        (Table.find predict fuel hash_val)
        m
unfolding Table.find
find-find predict fuel h k base chain m t enough = loads_info t.info refl (
    rw (bucket_of-mod k base h t.fits) (
      find_if-find predict fuel (base + h % 2 ^ k) (chain (h % 2 ^ k)) m
        (t.lists (h % 2 ^ k) (index-lt k h)) enough))
