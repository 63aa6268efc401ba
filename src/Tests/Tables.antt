-- ===== src/Tests/Tables.antt =====
-- A table with the buckets 10 and 11, two nodes in the first one, and a free node.
use relativistic_hash_table.Base.{
  ℕ, zero, suc, ◌+◌, ◌<◌, ◌≡◌, refl, true, false, none, ◌^◌, length, some, List, [], ◌∷◌, arith,
  ◌==◌, if◌then◌else◌, find,
}
use relativistic_hash_table.Memory.{Ptr, null, Links, Mem, put, ◌>>◌}
use relativistic_hash_table.Memory.Watched.{Watched}
use relativistic_hash_table.Memory.Ensures.{Ensures}
use relativistic_hash_table.Memory.Chain.{IsSlist}
use relativistic_hash_table.Memory.Leads.{Keeps, Reads}
use relativistic_hash_table.Buckets.Setup.{IsUnused}
use relativistic_hash_table.Buckets.Splice.{AreApart}
use relativistic_hash_table.Table
use relativistic_hash_table.Table.Shape.{IsTable, array}
use relativistic_hash_table.Table.Find.{find-find}
use relativistic_hash_table.Table.Insert.{IsFree, Inserted, try_insert_no_expand-Inserted}
use relativistic_hash_table.Resize.{shrink_buckets2x}
use relativistic_hash_table.Table.Cycle.{KeepsOthers, try_insert_no_expand-try_detach_no_shrink}
use relativistic_hash_table.Table.Reclaim.{KeepsOrReclaims, Shrunk, shrink_buckets2x-Shrunk}
use relativistic_hash_table.Table.Detach.{Detached, try_detach_no_shrink-Detached}

-- The nodes 2 and 3 with the hashes 4 and 6, and the free node 5.
abbrev links : Links
links =
    put (put (put (put (put (λ _. none) 10 (some 2)) 2 (some 3)) 3 (some null)) 11 (some null)) 5
      (some null)

abbrev hashes : Ptr → ℕ
hashes p = if p == 2 then 4 else 6

abbrev mem : Mem
mem = record { next = links; hash = hashes; buckets_info = some (array 1 10); size = 2 }

abbrev chain : ℕ → List Ptr
chain i = if i == 0 then 2 ∷ 3 ∷ [] else []

lists : (i : ℕ) → i < 2 → IsSlist links (10 + i) (chain i)
lists zero h = ground arith
lists (suc zero) h = ground arith
lists (suc (suc i)) h = absurd (omega arith)

table : IsTable mem 1 10 chain
table = record {
  info = refl;
  fits = omega arith;
  lists = lists;
  hashed = λ i x lt at. ground arith;
  nodes = λ i x lt at. ground arith;
}

free : IsFree mem 1 10 chain 5
free = record {
  ne_null = omega arith;
  old_next = null;
  is_allocated = refl;
  is_unlinked = λ a e. ground arith;
  is_node = refl;
  is_outside = λ i lt. ground arith;
}

find-find_example :
    Ensures Reads
      (λ p m'. (p ≡ find (λ p. p == 3) (chain 0)) × (m' ≡ mem))
      (Table.find (λ p. p == 3) 3 6)
      mem
find-find_example = find-find (λ p. p == 3) 3 6 1 10 chain mem table (omega arith)

try_insert_no_expand-Inserted_example :
    Ensures
      (Keeps 5 null)
      (Inserted 1 10 chain 5 8 false mem)
      (Table.try_insert_no_expand (λ p q. p == q) 3 5 8)
      mem
try_insert_no_expand-Inserted_example =
    try_insert_no_expand-Inserted (λ p q. p == q) 3 1 10 chain 5 8 mem table free (omega arith)

try_detach_no_shrink-Detached_example :
    Ensures
      (Keeps null (find (λ p. p == 2) (chain 0)))
      (Detached (λ p. p == 2) 1 10 chain 4 mem)
      (Table.try_detach_no_shrink (λ p. p == 2) 3 4)
      mem
try_detach_no_shrink-Detached_example =
    try_detach_no_shrink-Detached (λ p. p == 2) 1 10 chain 4 3 mem table (omega arith)

-- The table with the node 4 in its second bucket, and the empty bucket 20.
abbrev two_lists : Mem
two_lists = record {
  next = put (put (put links 4 (some null)) 11 (some 4)) 20 (some null);
  hash = hashes;
  buckets_info = some (array 1 10);
  size = 3;
}

two_lists-AreApart : AreApart two_lists 10 11 20 (2 ∷ 3 ∷ []) (4 ∷ [])
two_lists-AreApart = record {
  list0 = ground arith;
  list1 = ground arith;
  apart = λ a at. ground arith;
  ne_null = omega arith;
  is_empty = refl;
  outside0 = refl;
  outside1 = refl;
  null_free = refl;
}

try_insert_no_expand-try_detach_no_shrink_example :
    Ensures
      (KeepsOthers 5)
      (λ p m'. (p ≡ 5) × IsTable m' 1 10 chain × (m'.size ≡ 3))
      (do
        Table.try_insert_no_expand (λ p q. p == q) 4 5 8
        Table.try_detach_no_shrink (λ p. p == 5) 4 8)
      mem
try_insert_no_expand-try_detach_no_shrink_example =
    try_insert_no_expand-try_detach_no_shrink (λ p q. p == q) (λ p. p == 5) 4 1 10 chain 5 8 mem
      table free (omega arith) refl refl

unused : IsUnused mem 20 1
unused a inside = ground arith

short : (i : ℕ) → i < 2 ^ 0 → length (chain i) < suc 2
short zero lt = omega arith
short (suc i) lt = absurd (omega arith)

shrink_buckets2x-Shrunk_example :
    Watched
      (KeepsOrReclaims (array 1 10))
      (λ shrunk m0 m'. (shrunk ≡ true) × Shrunk 0 10 20 chain mem m')
      (shrink_buckets2x 2 20)
      mem
      mem
shrink_buckets2x-Shrunk_example =
    shrink_buckets2x-Shrunk 0 10 20 chain mem table unused (λ e. omega (arith, e)) refl 2 mem short
