-- ===== src/Tests/Removals.antt =====
-- A table with many insertions behind it, from which a node is removed.
use relativistic_hash_table.Base.{
  ℕ, zero, suc, ◌+◌, ◌*◌, ◌<◌, ◌≡◌, ◌≢◌, Bool, true, refl, false, none, some, List, [], ◌∷◌, arith,
  ◌==◌, length, if◌then◌else◌, ltb,
}
use relativistic_hash_table.Memory.{Ptr, null, Links, Mem, put, run, finished}
use relativistic_hash_table.Memory.Ensures.{Ensures}
use relativistic_hash_table.Memory.Chain.{IsSlist}
use relativistic_hash_table.Buckets.Setup.{IsUnused}
use relativistic_hash_table.Resize.{Load}
use relativistic_hash_table.Table
use relativistic_hash_table.Memory.Trace.{trace, settled}
use relativistic_hash_table.Table.Synchronize.{try_detach_and_synchronize-settled}
use relativistic_hash_table.Table.Shape.{IsTable, array}
use relativistic_hash_table.Table.Detach.{erased}
use relativistic_hash_table.Table.Remove.{Removes, MaybeShrunk, try_detach_auto_shrink-MaybeShrunk}

-- whole numbers for `float`, with factors that call for halving
abbrev pub load : Load
load = record {
  Float = ℕ;
  of_size = λ n. n;
  times = λ a b. a * b;
  less = ltb;
  expand_factor = 1000;
  shrink_factor = 100;
}

-- The buckets 10 and 11, and the nodes 2 and 3 in the first one.
abbrev pub links : Links
links = put (put (put (put (λ _. none) 10 (some 2)) 2 (some 3)) 3 (some null)) 11 (some null)

abbrev pub mem : Mem
mem = record {
  next = links;
  hash = λ p. if p == 2 then 4 else 6;
  buckets_info = some (array 1 10);
  size = 150;
}

abbrev pub chain : ℕ → List Ptr
chain i = if i == 0 then 2 ∷ 3 ∷ [] else []

pub lists : (i : ℕ) → i < 2 → IsSlist links (10 + i) (chain i)
lists zero h = ground arith
lists (suc zero) h = ground arith
lists (suc (suc i)) h = absurd (omega arith)

pub mem-IsTable : IsTable mem 1 10 chain
mem-IsTable = record {
  info = refl;
  fits = omega arith;
  lists = lists;
  hashed = λ i x lt at. ground arith;
  nodes = λ i x lt at. ground arith;
}

pub unused : IsUnused mem 20 1
unused a inside = ground arith

pub short : (i : ℕ) → i < 2 → length (chain i) < 3
short zero lt = ground arith
short (suc i) lt = ground arith

try_detach_auto_shrink-MaybeShrunk_example :
    Ensures
      (Removes 2 (array 1 10))
      (λ r m'.
        (r.0 ≡ 2)
        × (2 ≡ null → r.1 ≡ false)
        × MaybeShrunk 0 10 20 (erased (λ p. p == 2) 1 10 chain 4) r.1 m'
        × (m'.hash ≡ mem.hash)
        × (m'.size ≡ 150))
      (Table.try_detach_auto_shrink load (λ p. p == 2) 3 20 4)
      mem
try_detach_auto_shrink-MaybeShrunk_example =
    try_detach_auto_shrink-MaybeShrunk load 0 10 20 chain 3 (λ p. p == 2) 4 mem mem-IsTable unused
      (λ e. omega (arith, e)) refl short

try_detach_and_synchronize-settled_example :
    (p : Ptr) × (m' : Mem) × (run (Table.try_detach_and_synchronize load (λ p. p == 2) 3 20 4) mem
      ≡ finished p m')
    × (p ≡ 2)
    × ((s : Bool) × MaybeShrunk 0 10 20 (erased (λ p. p == 2) 1 10 chain 4) s m')
    × (p ≢ null
        → settled (trace (Table.try_detach_and_synchronize load (λ p. p == 2) 3 20 4) mem) ≡ true)
try_detach_and_synchronize-settled_example =
    try_detach_and_synchronize-settled load 0 10 20 chain 3 (λ p. p == 2) 4 mem mem-IsTable unused
      (λ e. omega (arith, e)) refl short
