-- ===== src/Tests/Retirement.antt =====
-- A reader that stands at a node which is detached meanwhile, and comes back to the table.
use relativistic_hash_table.Base.{◌≡◌, ◌≢◌, refl, false, none, some, arith, ◌==◌}
use relativistic_hash_table.Memory.{Ptr, null, Mem, ret, put, perform}
use relativistic_hash_table.Memory.Sessions.{
  Session, inside, running, Races, stops, writes, calls, locks, enters, moves, unlocks, returns,
}
use relativistic_hash_table.Slist.{remove_if}
use relativistic_hash_table.Resize.{shrink_if_necessary}
use relativistic_hash_table.Table.{bucket_of, try_detach_and_synchronize}
use relativistic_hash_table.Table.Shape.{IsTable, array}
use relativistic_hash_table.Table.Retire.{try_detach_and_synchronize-unreached}
use relativistic_hash_table.Tests.Removals.{
  load, links, mem, chain, lists, unused, short, mem-IsTable,
}

-- too few nodes for halving
abbrev few : Mem
few = record mem { size = 2 }

few-IsTable : IsTable few 1 10 chain
few-IsTable = record {
  info = refl;
  fits = mem-IsTable.fits;
  lists = lists;
  hashed = mem-IsTable.hashed;
  nodes = mem-IsTable.nodes;
}

abbrev after : Mem
after = record few { next = put links 10 (some 3) }

abbrev node : Ptr
node = 2

abbrev place : Ptr
place = 3

-- The reader enters, comes to the node 2 and leaves while the writer waits; then it enters again.
race :
    Races
      (running (ret 2))
      after
      (inside false (some 3))
      (running (try_detach_and_synchronize load (λ p. p == 2) 3 20 4))
      few
      Session.outside
unfolding try_detach_and_synchronize bucket_of remove_if shrink_if_necessary perform
race = locks (
    enters (array 1 10) 0 refl (omega arith) (
      moves refl (
        writes refl refl (
          writes refl refl (
            writes refl refl (
              writes refl refl (
                writes refl refl (
                  writes refl refl (
                    calls (
                      unlocks (
                        returns (λ at e. cc e)
                          (locks (
                            enters (array 1 10) 0 refl (omega arith) (moves refl stops))))))))))))))

try_detach_and_synchronize-unreached_example :
    (node ≡ 2) × (place ≢ node) × (place ≢ null → after.next place ≢ none)
try_detach_and_synchronize-unreached_example =
    try_detach_and_synchronize-unreached load 0 10 20 chain 3 (λ p. p == 2) 4 few few-IsTable unused
      (λ e. omega (arith, e)) refl short 2 after Session.outside 3 false race
      (λ e. omega (arith, e))
