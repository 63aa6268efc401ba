-- ===== src/Tests/Lives.antt =====
-- A table of two buckets that is set up at 100, with its counts at 16, and doubled to an array at 200
-- by the first insertion.
use relativistic_hash_table.Base.{
  ℕ, ◌*◌, ◌^◌, ◌≤◌, ◌≡◌, refl, true, false, none, some, [], ◌==◌, arith, if◌then◌else◌, ltb,
}
use relativistic_hash_table.Bits.{smear}
use relativistic_hash_table.Memory.{null, Mem, ◌>>◌}
use relativistic_hash_table.Memory.Ensures.{Ensures}
use relativistic_hash_table.Memory.Watched.{Watched}
use relativistic_hash_table.Memory.Leads.{Keeps}
use relativistic_hash_table.Buckets.{upper_bound_power_of2}
use relativistic_hash_table.Buckets.Setup.{IsUnused}
use relativistic_hash_table.Resize.{Load}
use relativistic_hash_table.Rcu
use relativistic_hash_table.Rcu.{init_zone_with_bucket_counts}
use relativistic_hash_table.Rcu.Storage.{Rings, Store}
use relativistic_hash_table.Rcu.Stored.{IsStored}
use relativistic_hash_table.Rcu.System.{IsNewZone}
use relativistic_hash_table.Table.Shape.{IsTable}
use relativistic_hash_table.Table.Contents.{Represents}
use relativistic_hash_table.RTable.{init, try_insert}
use relativistic_hash_table.RTable.Setup.{init-IsNewZone}
use relativistic_hash_table.RTable.Life.{IsReady, init-try_insert}

-- whole numbers for `float`, with factors that call for doubling
abbrev load : Load
load = record {
  Float = ℕ;
  of_size = λ n. n;
  times = λ a b. a * b;
  less = ltb;
  expand_factor = 0;
  shrink_factor = 0;
}

-- only the node 5
abbrev mem : Mem
mem = record {
  next = λ a. if a == 5 then some null else none;
  hash = λ p. 0;
  buckets_info = none;
  size = 0;
}

abbrev no_rings : Rings
no_rings = record {
  nr_hash_thread_buckets = 0;
  p_buckets = λ row. 0;
  epoch_latest = 0;
  epoch_oldest = 0;
}

abbrev no_store : Store
no_store = record { block = λ a. 0; count = λ a. 7 }

two : upper_bound_power_of2 2 ≡ 2
unfolding upper_bound_power_of2 smear
two = refl

unused : IsUnused mem 100 (upper_bound_power_of2 2)
unused a inside = ground (arith, two)

ready :
    IsReady load 8 100 2 mem 16 no_rings no_store
      (λ p q. p == q)
      2
      200
      5
      7
      (upper_bound_power_of2 2)
ready = record {
  unused = unused;
  unused2 = λ a inside. ground (arith, two);
  apart = λ a inside. ground (arith, two);
  heads = λ i lt a e. ground arith;
  old_next = null;
  is_allocated = refl;
  is_unlinked = λ a e. ground arith;
}

init-IsNewZone_example :
    let made = init load 8 16 100 no_rings no_store 2 in
    let zone = init_zone_with_bucket_counts (8 * 64) in
    IsStored (Rcu.upper_bound_power_of2 8) zone made.0.0.rcu_zone made.0.1
    × IsNewZone zone
    × (1 ≤ zone.nr_hash_thread_buckets)
    × (8 * 64 ≤ zone.nr_hash_thread_buckets)
    × Ensures
        (Keeps null null)
        (λ _ m'. Represents (λ x. false) m' × ((k : ℕ) × (2 ≤ 2 ^ k) × IsTable m' k 100 (λ _. [])))
        made.1
        mem
init-IsNewZone_example =
    init-IsNewZone load 8 16 100 no_rings no_store 2 mem (omega arith) (omega arith)
      (λ e. omega (arith, e)) unused

init-try_insert_example :
    let made = init load 8 16 100 no_rings no_store 2 in
    Watched
      (λ m0 m a m'. Unit {0})
      (λ inserted m0 m'. (inserted ≡ true) × Represents (λ x. x == 5) m')
      (do made.1; try_insert made.0.0 (λ p q. p == q) 2 200 5 7)
      mem
      mem
init-try_insert_example =
    init-try_insert load 8 100 2 mem 16 no_rings no_store (λ p q. p == q) 2 200 5 7 (omega arith)
      (λ e. omega (arith, e)) (λ e. omega (arith, e)) (λ e. omega (arith, e)) refl ready
      (omega arith)
