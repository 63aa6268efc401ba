-- ===== src/Tests/Failures.antt =====
-- An empty table whose `malloc` fails.
use relativistic_hash_table.Base.{
  ℕ, ◌≡◌, none, some, [], refl, arith, if◌then◌else◌, ltb, leb, ◌&&◌,
}
use relativistic_hash_table.Memory.{null, Mem, run, faulted}
use relativistic_hash_table.Resize.{expand_buckets2x, shrink_buckets2x}
use relativistic_hash_table.Table.{init_detailed}
use relativistic_hash_table.Table.Shape.{IsTable, array}
use relativistic_hash_table.Table.Exhausted.{resize-null}

-- the empty buckets 10 and 11
abbrev mem : Mem
mem = record {
  next = λ p. if leb 10 p && ltb p 12 then some null else none;
  hash = λ p. 0;
  buckets_info = some (array 1 10);
  size = 0;
}

table : IsTable mem 1 10 (λ i. [])
table = record {
  info = refl;
  fits = omega arith;
  lists = λ i lt. ground arith;
  hashed = λ i x lt at. absurd (ground arith);
  nodes = λ i x lt at. absurd (ground arith);
}

resize-null_example :
    ((n : ℕ) → run (init_detailed null n) mem ≡ faulted)
    × (run (expand_buckets2x 3 null) mem ≡ faulted)
    × (run (shrink_buckets2x 3 null) mem ≡ faulted)
resize-null_example = resize-null 0 3 10 (λ i. []) mem table
