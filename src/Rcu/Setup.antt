-- ===== src/Rcu/Setup.antt =====
-- The sizes of a zone: rounding up to a power of two, and the buckets that threads get.
use native.Mathlib.Nat.{one-le-pow, pow-le-pow_right}
use relativistic_hash_table.Base.{
  ℕ, zero, suc, ◌+◌, ◌-◌, ◌*◌, ◌%◌, ◌^◌, ◌≤◌, ◌<◌, ◌≡◌, ◌⊎◌, refl, ap, ◌∙◌, arith, ◌==◌, ltb,
  if◌then◌else◌,
}
use relativistic_hash_table.Bits.{smear, bit_and-le}
use relativistic_hash_table.Bits.Smear.{smear-ones, round_up, lt_of-pow-lt}
use relativistic_hash_table.Rcu.{
  Zone, minus_one, upper_bound_power_of2, nr_buckets_per_epoch, init_zone_with_bucket_counts,
  fetch_thread_bucket_id,
}
use relativistic_hash_table.Rcu.System.{IsNewZone}

before :
    (v : ℕ)
    → suc (suc v) ≤ 2 ^ 31
    → ((if suc (suc v) == 0 then (suc (suc v) + 1) % 2 ^ 32 else suc (suc v)) + 2 ^ 32 - 1) % 2 ^ 32
      ≡ suc (suc v) - 1
before v high = ground arith

-- Up to 2 ^ 31, `upper_bound_power_of2` gives the least power of two that is at least its argument.
pub upper_bound_power_of2-least :
    (v : ℕ)
    → v ≤ 2 ^ 31
    → (k : ℕ) × (upper_bound_power_of2 v ≡ 2 ^ k)
      × (v ≤ 2 ^ k)
      × ((j : ℕ) → v ≤ 2 ^ j → 2 ^ k ≤ 2 ^ j)
unfolding upper_bound_power_of2 smear
upper_bound_power_of2-least zero high = (0, refl, omega arith, λ j h. one-le-pow j 2 (omega arith))
upper_bound_power_of2-least (suc zero) high =
    (0, refl, omega arith, λ j h. one-le-pow j 2 (omega arith))
upper_bound_power_of2-least (suc (suc v)) high =
    let (k, is, low, up) = round_up (suc (suc v)) (omega arith) high in
    (k, ap (λ x. (smear x + 1) % 2 ^ 32) (before v high) ∙ is, low, λ j h. least k j up h)
  where
    least : (k j : ℕ) → 2 ^ k < 2 * suc (suc v) → suc (suc v) ≤ 2 ^ j → 2 ^ k ≤ 2 ^ j
    least k j up h =
        pow-le-pow_right {n = 2} (omega arith)
          (omega (arith, lt_of-pow-lt k (suc j) (omega (arith, up, h))))

-- Above 2 ^ 31, up to the largest uint32_t, it wraps round to 0.
pub upper_bound_power_of2_wraps : (v : ℕ) → 2 ^ 31 < v → v < 2 ^ 32 → upper_bound_power_of2 v ≡ 0
unfolding upper_bound_power_of2
upper_bound_power_of2_wraps v low high =
    ap (λ x. (smear x + 1) % 2 ^ 32) {y = v - 1} (ground arith)
    ∙ ap (λ x. (x + 1) % 2 ^ 32)
        (smear-ones 32 (v - 1) (omega arith) (omega arith) (omega arith) (omega arith))

-- A zone set up for at most 2 ^ 31 buckets of unregistered threads starts at epoch 0 with no reader
-- counted, and has at least one such bucket.
pub init_zone-IsNewZone :
    (n : ℕ)
    → n ≤ 2 ^ 31
    → IsNewZone (init_zone_with_bucket_counts n)
      × (1 ≤ (init_zone_with_bucket_counts n).nr_hash_thread_buckets)
      × (n ≤ (init_zone_with_bucket_counts n).nr_hash_thread_buckets)
unfolding init_zone_with_bucket_counts
init_zone-IsNewZone n high =
    let (k, is, low, up) = upper_bound_power_of2-least (if ltb n 1 then 1 else n) (ground arith) in
    ((refl, refl, λ row b. refl), ground (arith, is, low), ground (arith, is, low))

-- The bucket of a thread is below the number of buckets per epoch, if the thread is registered with
-- an id that rcuRegisterReaderThread gives out or is not registered, and the zone has at least one
-- bucket for unregistered threads and fewer than 2 ^ 31 buckets in all.
pub fetch_thread_bucket_id-lt :
    (nr_non_overlapping tls hash : ℕ) (z : Zone)
    → 1 ≤ z.nr_hash_thread_buckets
    → z.nr_hash_thread_buckets + nr_non_overlapping < 2 ^ 31
    → (tls ≡ minus_one) ⊎ (tls < nr_non_overlapping)
    → fetch_thread_bucket_id nr_non_overlapping tls hash z
      < nr_buckets_per_epoch nr_non_overlapping z
unfolding fetch_thread_bucket_id nr_buckets_per_epoch
fetch_thread_bucket_id-lt nr tls hash z some_bucket fits id =
    ground (arith, bit_and-le hash (z.nr_hash_thread_buckets - 1))
