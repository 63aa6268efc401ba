-- ===== src/Tests/Counters.antt =====
-- A zone of one bucket for threads of each kind, with its four counts at 8.
use relativistic_hash_table.Base.{◌+◌, ◌^◌, ◌<◌, ◌≡◌, refl, some, arith, ◌==◌, if◌then◌else◌}
use relativistic_hash_table.Memory.{Ptr}
use relativistic_hash_table.Bits.{smear}
use relativistic_hash_table.Rcu.{
  Zone, upper_bound_power_of2, nr_buckets_per_epoch, init_zone_with_bucket_counts,
}
use relativistic_hash_table.Rcu.Storage.{Rings, Store, init, release, destruct}
use relativistic_hash_table.Rcu.Stored.{IsStored, init-IsStored}
use relativistic_hash_table.Rcu.Release.{release-destruct}

abbrev no_rings : Rings
no_rings = record {
  nr_hash_thread_buckets = 0;
  p_buckets = λ row. 0;
  epoch_latest = 0;
  epoch_oldest = 0;
}

abbrev no_store : Store
no_store = record { block = λ a. 0; count = λ a. 7 }

abbrev zone : Zone
zone = init_zone_with_bucket_counts 1

abbrev rings : Rings
rings = (init 1 1 8 no_rings no_store).0

abbrev store : Store
store = (init 1 1 8 no_rings no_store).1

fits : (init_zone_with_bucket_counts 1).nr_hash_thread_buckets + 1 < 2 ^ 31
unfolding init_zone_with_bucket_counts smear
fits = omega arith

at_eight : rings.p_buckets 0 ≡ 8
unfolding init upper_bound_power_of2 smear
at_eight = refl

two_counts : nr_buckets_per_epoch 1 zone ≡ 2
unfolding nr_buckets_per_epoch init_zone_with_bucket_counts smear
two_counts = refl

init-IsStored_example : IsStored 1 zone rings store
init-IsStored_example = init-IsStored 1 1 8 no_rings no_store fits

release-destruct_example :
    (rings' : Rings) × ((store' : Store) × (release rings store ≡ some (rings', store'))
      × (destruct rings store ≡ some (rings', store'))
      × (destruct rings' store' ≡ some (rings', store'))
      × ((a : Ptr) → store'.block a ≡ (if a == rings.p_buckets 0 then 0 else store.block a)))
release-destruct_example =
    release-destruct 1 zone rings store (init-IsStored 1 1 8 no_rings no_store fits)
      (omega (arith, two_counts)) (λ e. absurd (omega (arith, at_eight, e)))
