-- ===== src/Rcu.antt =====
-- The RCU zone, LibSource/RCU.cpp with include/RCUTypes.h: its types, the registry of reader
-- threads, and the setup of a zone. The children model the readers and the writer as threads.
-- An `int` or `uint32_t` is the number of its bit pattern, below 2 ^ 32.
pub mod Register
pub mod Setup
pub mod Total
pub mod System
pub mod Invariant
pub mod Grace
pub mod Lock
pub mod Progress
pub mod Storage
pub mod Stored
pub mod Release
use Prim.Native.Nat.{bit_and, bit_or}
use relativistic_hash_table.Bits.{smear}
use relativistic_hash_table.Base.{
  ℕ, ◌+◌, ◌-◌, ◌*◌, ◌/◌, ◌%◌, ◌^◌, Bool, true, false, not, ◌||◌, ◌&&◌, Option, none, some, ◌==◌,
  ltb, leb, if◌then◌else◌,
}

abbrev pub max_epoches : ℕ
max_epoches = 2

abbrev pub epoch_mask : ℕ
epoch_mask = max_epoches - 1

unfoldable pub upper_bound_power_of2 : ℕ → ℕ
upper_bound_power_of2 v =
    let v' = if v == 0 then (v + 1) % 2 ^ 32 else v in
    (smear ((v' + 2 ^ 32 - 1) % 2 ^ 32) + 1) % 2 ^ 32

-- struct RCUReaderThreadRegistry: the counter, and `tlsReaderBucketId` of each thread
pub record Registry : Type 0 where
  pub next_bucket_id : ℕ
  pub tls_reader_bucket_id : ℕ → ℕ

-- the bit pattern of -1
abbrev pub minus_one : ℕ
minus_one = 2 ^ 32 - 1

-- `a >= b` of two `int`s
abbrev pub int_ge : ℕ → ℕ → Bool
int_ge a b = leb ((b + 2 ^ 31) % 2 ^ 32) ((a + 2 ^ 31) % 2 ^ 32)

abbrev pub start_registry : Registry
start_registry = record { next_bucket_id = 0; tls_reader_bucket_id = λ t. minus_one }

-- rcuRegisterReaderThread, called by `thread`; the atomic increment orders concurrent calls.
unfoldable pub register_reader_thread : (nr_non_overlapping thread : ℕ) → Registry → Bool × Registry
register_reader_thread nr_non_overlapping thread r =
    if not (r.tls_reader_bucket_id thread == minus_one)
    then (false, r)
    else (let bucket_id = r.next_bucket_id in
        let r' = record r { next_bucket_id = (bucket_id + 1) % 2 ^ 32 } in
        if int_ge bucket_id nr_non_overlapping then (false, r') else (
          true,
          record r' {
            tls_reader_bucket_id = λ t. if t == thread then bucket_id else r.tls_reader_bucket_id t;
          },
        ))

-- struct RCUZone as rcuInitZoneWithBucketCounts leaves it. `count row bucket` is the reference count
-- at that place of the ring. `epoch_latest` and `epoch_oldest` are int64_t.
pub record Zone : Type 0 where
  pub nr_hash_thread_buckets : ℕ
  pub count : ℕ → ℕ → ℕ
  pub epoch_latest : ℕ
  pub epoch_oldest : ℕ

unfoldable pub nr_buckets_per_epoch : (nr_non_overlapping : ℕ) → Zone → ℕ
nr_buckets_per_epoch nr_non_overlapping zone =
    (zone.nr_hash_thread_buckets + nr_non_overlapping) % 2 ^ 32

unfoldable pub init_zone_with_bucket_counts : (nr_hash_thread_buckets : ℕ) → Zone
unfolding upper_bound_power_of2
init_zone_with_bucket_counts n = record {
  nr_hash_thread_buckets = upper_bound_power_of2 (if ltb n 1 then 1 else n);
  count = λ row bucket. 0;
  epoch_latest = 0;
  epoch_oldest = 0;
}

-- rcuInitZone: c_nrRCUBucketsPerHardwareThread times the number of hardware threads; the product of
-- a uint32_t and a size_t is narrowed to the uint32_t parameter.
unfoldable pub init_zone : (hardware_concurrency : ℕ) → Zone
unfolding init_zone_with_bucket_counts
init_zone n = init_zone_with_bucket_counts (n * 64 % 2 ^ 32)

-- `hash` is std::hash of the thread's id, a size_t.
unfoldable pub fetch_thread_bucket_id :
    (nr_non_overlapping : ℕ) (tls_reader_bucket_id hash : ℕ) → Zone → ℕ
fetch_thread_bucket_id nr_non_overlapping tls hash zone =
    if not (tls == minus_one)
    then tls
    else (nr_non_overlapping + bit_and hash (zone.nr_hash_thread_buckets - 1)) % 2 ^ 32
