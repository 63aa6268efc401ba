-- ===== src/Rcu/Storage.antt =====
-- Where a zone keeps its counts, LibSource/RCU.cpp with include/RCUTypes.h: the one array of both
-- epochs, its allocation by rcuInitZoneWithBucketCounts, and rcuReleaseZone with the destructor.
use relativistic_hash_table.Base.{
  ℕ, zero, suc, ◌+◌, ◌-◌, ◌*◌, ◌%◌, ◌^◌, Option, none, some, ◌==◌, ltb, if◌then◌else◌,
}
use relativistic_hash_table.Memory.{Ptr, null}
use relativistic_hash_table.Rcu.{max_epoches, upper_bound_power_of2}

-- struct RCUZone: `p_buckets row` is epochsRing[row].pBuckets, an address in units of one
-- RCUReaderRefCountBucket.
pub record Rings : Type 0 where
  pub nr_hash_thread_buckets : ℕ
  pub p_buckets : ℕ → Ptr
  pub epoch_latest : ℕ
  pub epoch_oldest : ℕ

-- The free store as far as counts go: the length of the array that `new` gave out at an address, 0
-- for none, and the count at each address.
pub record Store : Type 0 where
  pub block : Ptr → ℕ
  pub count : Ptr → ℕ

-- an `int` converted to size_t
abbrev pub to_size : ℕ → ℕ
to_size x = if ltb x (2 ^ 31) then x else x + 2 ^ 64 - 2 ^ 32

unfoldable pub nr_buckets_one_epoch : (nr_non_overlapping nr_hash_thread_buckets : ℕ) → ℕ
nr_buckets_one_epoch nr buckets = to_size ((buckets + nr) % 2 ^ 32)

-- The loop over the counts, with `left` of them left and `p` the next one.
unfoldable pub clear_counts : (left : ℕ) (p : Ptr) → (Ptr → ℕ) → Ptr → ℕ
clear_counts zero p count = count
clear_counts (suc left) p count = clear_counts left (p + 1) (λ a. if a == p then 0 else count a)

-- The loop over the epochs, with `left` of them left and `epoch` the next one.
unfoldable pub set_rows : (left epoch : ℕ) (start : Ptr) (nr_one_epoch : ℕ) → (ℕ → Ptr) → ℕ → Ptr
set_rows zero epoch start nr rows = rows
set_rows (suc left) epoch start nr rows =
    set_rows left (epoch + 1) start nr
      (λ row. if row == epoch then start + epoch * nr else rows row)

-- `start` is what `new` returns.
unfoldable pub init :
    (nr_non_overlapping nr_hash_thread_buckets : ℕ) (start : Ptr) → Rings → Store → Rings × Store
unfolding nr_buckets_one_epoch clear_counts set_rows
init nr n start zone store =
    let buckets = upper_bound_power_of2 (if ltb n 1 then 1 else n) in
    let one_epoch = nr_buckets_one_epoch nr buckets in
    let total = one_epoch * max_epoches % 2 ^ 64 in
    (
      record {
        nr_hash_thread_buckets = buckets;
        p_buckets = set_rows max_epoches 0 start one_epoch zone.p_buckets;
        epoch_latest = 0;
        epoch_oldest = 0;
      },
      record {
        block = λ a. if a == start then total else store.block a;
        count = clear_counts total start store.count;
      },
    )

-- `delete[]`: nothing for null, and undefined behaviour, `none`, for what is not an array of `new`
unfoldable pub delete_array : Ptr → Store → Option Store
delete_array p store =
    if p == null
    then some store
    else (if store.block p == 0
        then none
        else some (record store { block = λ a. if a == p then 0 else store.block a }))

-- What rcuReleaseZone does behind its `delete[]`.
unfoldable pub forget_rows : Rings → Option Store → Option (Rings × Store)
forget_rows zone none = none
forget_rows zone (some store) =
    some (record zone { p_buckets = λ row. if row == 0 then null else zone.p_buckets row }, store)

unfoldable pub release : Rings → Store → Option (Rings × Store)
unfolding delete_array forget_rows
release zone store = forget_rows zone (delete_array (zone.p_buckets 0) store)

-- RCUZone::~RCUZone
unfoldable pub destruct : Rings → Store → Option (Rings × Store)
unfolding release
destruct zone store = if zone.p_buckets 0 == null then some (zone, store) else release zone store

-- The count at a place of the ring.
abbrev pub place : Rings → (row bucket : ℕ) → Ptr
place zone row bucket = zone.p_buckets row + bucket
