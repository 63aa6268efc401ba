-- ===== src/Tests/Withdrawals.antt =====
-- The table of Tests/Removals as a set of two nodes, which is searched and from which one is removed.
use relativistic_hash_table.Base.{◌≡◌, Bool, ◌||◌, ◌==◌, refl, arith}
use relativistic_hash_table.Memory.{Ptr}
use relativistic_hash_table.Memory.Ensures.{Ensures}
use relativistic_hash_table.Memory.Leads.{Reads}
use relativistic_hash_table.Table
use relativistic_hash_table.Table.Contents.{Holds, Represents}
use relativistic_hash_table.Table.Removal.{
  Search, Removal, find-Search, try_detach_and_synchronize-Removal,
}
use relativistic_hash_table.Tests.Removals.{load, mem, chain, mem-IsTable, unused, short}

abbrev nodes : Ptr → Bool
nodes x = (x == 2) || (x == 3)

holds : Holds nodes mem.hash 1 chain
holds x = ground arith

find-Search_example :
    Ensures Reads
      (λ p m'. Search (λ p. p == 3) nodes p × (m' ≡ mem))
      (Table.find (λ p. p == 3) 3 6)
      mem
find-Search_example =
    find-Search (λ p. p == 3) nodes 1 10 chain 6 mem mem-IsTable holds (λ x at e. ground arith) 3
      (omega arith)

try_detach_and_synchronize-Removal_example :
    Ensures
      (λ m a m'. Unit {0})
      (λ p m'.
        ((nodes' : Ptr → Bool) × Removal (λ p. p == 2) nodes p nodes' × Represents nodes' m')
        × (m'.hash ≡ mem.hash)
        × (m'.size ≡ 150))
      (Table.try_detach_and_synchronize load (λ p. p == 2) 3 20 4)
      mem
try_detach_and_synchronize-Removal_example =
    try_detach_and_synchronize-Removal (λ p. p == 2) nodes 0 10 20 chain 4 mem mem-IsTable holds
      load 3 (λ x at e. ground arith) unused (λ e. omega (arith, e)) refl short
