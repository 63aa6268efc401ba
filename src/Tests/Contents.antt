-- ===== src/Tests/Contents.antt =====
-- The table of Tests/Doubling as a set of two nodes, and an insertion that doubles it.
use relativistic_hash_table.Base.{Bool, ◌||◌, ◌==◌, refl, arith}
use relativistic_hash_table.Memory.{Ptr, put}
use relativistic_hash_table.Memory.Watched.{Watched}
use relativistic_hash_table.Table
use relativistic_hash_table.Table.TryInsert.{Inserts}
use relativistic_hash_table.Table.Contents.{Holds, Refined, try_insert-Insertion}
use relativistic_hash_table.Tests.Doubling.{
  load, mem, hashes, chain, table, free, unused, heads, longer,
}

abbrev nodes : Ptr → Bool
nodes x = (x == 2) || (x == 3)

holds : Holds nodes hashes 1 chain
holds x = ground arith

try_insert-Insertion_example :
    Watched
      (Inserts 5 (put hashes 5 8) 1 10 20)
      (λ inserted m0 m'. Refined (λ p q. p == q) 5 8 mem nodes inserted m')
      (Table.try_insert load (λ p q. p == q) 4 20 5 8)
      mem
      mem
try_insert-Insertion_example =
    try_insert-Insertion load (λ p q. p == q) 4 1 10 20 chain 5 8 mem mem nodes table holds free
      (λ x at e. ground arith) (omega arith) unused (λ e. omega (arith, e)) refl heads longer
