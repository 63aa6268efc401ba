-- ===== src/RTable/Setup.antt =====
-- rTableInit, and the destructor behind it.
use relativistic_hash_table.Base.{
  ℕ, ◌*◌, ◌%◌, ◌^◌, ◌≤◌, ◌≢◌, ◌+◌, ◌<◌, ◌≡◌, refl, subst, false, [], arith, ltb, if◌then◌else◌,
}
use relativistic_hash_table.Memory.{Ptr, null, Mem}
use relativistic_hash_table.Memory.Ensures.{Ensures, mono}
use relativistic_hash_table.Memory.Leads.{Keeps}
use relativistic_hash_table.Buckets.{upper_bound_power_of2}
use relativistic_hash_table.Buckets.Setup.{IsUnused}
use relativistic_hash_table.Rcu.System.{IsNewZone}
use relativistic_hash_table.Rcu
use relativistic_hash_table.Rcu.{init_zone_with_bucket_counts}
use relativistic_hash_table.Rcu.Storage
use relativistic_hash_table.Rcu.Storage.{Rings, Store}
use relativistic_hash_table.Rcu.Stored.{IsStored, init-IsStored}
use relativistic_hash_table.Rcu.Setup.{init_zone-IsNewZone, upper_bound_power_of2-least}
use relativistic_hash_table.Resize.{Load}
use relativistic_hash_table.Table.Shape.{IsTable}
use relativistic_hash_table.Table.Setup.{init_detailed-IsTable}
use relativistic_hash_table.Table.Contents.{Represents}
use relativistic_hash_table.RTable.{init_detailed, init}

-- The numbers of buckets of the zone fit an `int`.
pub zone-fits :
    (hc : ℕ)
    → hc * 64 ≤ 2 ^ 30
    → (init_zone_with_bucket_counts (hc * 64)).nr_hash_thread_buckets + Rcu.upper_bound_power_of2 hc
      < 2 ^ 31
unfolding init_zone_with_bucket_counts
zone-fits hc few =
    let asked = if ltb (hc * 64) 1 then 1 else hc * 64 in
    let (k, is, low, least) = upper_bound_power_of2-least asked (ground (arith, few)) in
    let (k', is', low', least') = upper_bound_power_of2-least hc (omega (arith, few)) in
    omega (arith, is, is', least 30 (ground (arith, few)), least' 24 (omega (arith, few)))

-- Given an unused array, at most 2 ^ 30 buckets, and a number of hardware threads of which 64 times
-- is at most 2 ^ 30, `init` gives the table a zone whose counts are stored as those of a zone at epoch
-- 0 with no reader counted, which has at least one bucket for unregistered threads and at least 64 for
-- each hardware thread, and makes its array a table of at least the buckets asked for, a power of two,
-- that represents the empty set.
pub init-IsNewZone :
    (float : Load) (hardware_concurrency : ℕ) (start fresh : Ptr) (rings : Rings) (store : Store)
    (nr_buckets : ℕ) (m : Mem)
    → nr_buckets ≤ 2 ^ 30
    → hardware_concurrency * 64 ≤ 2 ^ 30
    → fresh ≢ null
    → IsUnused m fresh (upper_bound_power_of2 nr_buckets)
    → let made = init float hardware_concurrency start fresh rings store nr_buckets in
      let zone = init_zone_with_bucket_counts (hardware_concurrency * 64) in
      IsStored (Rcu.upper_bound_power_of2 hardware_concurrency) zone made.0.0.rcu_zone made.0.1
      × IsNewZone zone
      × (1 ≤ zone.nr_hash_thread_buckets)
      × (hardware_concurrency * 64 ≤ zone.nr_hash_thread_buckets)
      × Ensures
          (Keeps null null)
          (λ _ m'.
            Represents (λ x. false) m'
            × ((k : ℕ) × (nr_buckets ≤ 2 ^ k) × IsTable m' k fresh (λ _. [])))
          made.1
          m
unfolding init init_detailed
init-IsNewZone float hc start fresh rings store nr m high few live unused =
    let (zone, some_bucket, enough) = init_zone-IsNewZone (hc * 64) (omega (arith, few)) in
    (
      subst
          (λ n.
            IsStored (Rcu.upper_bound_power_of2 hc) (init_zone_with_bucket_counts (hc * 64))
              (Storage.init (Rcu.upper_bound_power_of2 hc) n start rings store).0
              (Storage.init (Rcu.upper_bound_power_of2 hc) n start rings store).1)
          narrowed
          (init-IsStored (Rcu.upper_bound_power_of2 hc) (hc * 64) start rings store
            (zone-fits hc few)),
      zone,
      some_bucket,
      enough,
      mono (init_detailed-IsTable m fresh nr high live unused) λ _ m' (k, at_least, t). (
        record { count = k; array_at = fresh; chain = λ _. []; table = t; holds = λ x. refl },
        (k, at_least, t),
      ),
    )
  where
    narrowed : hc * 64 ≡ hc * 64 % 2 ^ 32
    narrowed = omega (arith, few)
