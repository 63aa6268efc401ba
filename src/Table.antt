-- ===== src/Table.antt =====
-- The hash table, LibSource/include/RCUHashTableCoreApi.h and the functions of RCUHashTable.cpp that
-- set a table up and insert into it. An RNode is the address of its `head` member. The predicates of
-- the caller are functions of addresses.
pub mod Shape
pub mod Find
pub mod Insert
pub mod Detach
pub mod Setup
pub mod Cycle
pub mod Halving
pub mod Twice
pub mod Doubling
pub mod Halved
pub mod Published
pub mod Expand
pub mod Grow
pub mod TryInsert
pub mod Lookup
pub mod Exhausted
pub mod Contents
pub mod Sets
pub mod Removal
pub mod Shrink
pub mod Reclaim
pub mod Remove
pub mod Settle
pub mod Synchronize
pub mod Replace
pub mod Retire
pub mod Unreached
use Prim.Native.Nat.{bit_and}
use relativistic_hash_table.Base.{ℕ, ◌+◌, Bool, true, false, ◌==◌, if◌then◌else◌}
use relativistic_hash_table.Memory.{
  Ptr, null, BucketsInfo, Action, Prog, ret, act, ◌>>=◌, ◌>>◌, load_next, store_next,
}
use relativistic_hash_table.Slist
use relativistic_hash_table.Buckets.{mask_of, upper_bound_power_of2, allocate_and_init_buckets}
use relativistic_hash_table.Resize.{Load, expand_if_necessary, shrink_if_necessary}

-- rTableCoreInitDetailed; the factors are in `Load`. `nr_buckets` is the `int` as a uint32_t.
unfoldable pub init_detailed : (fresh : Ptr) (nr_buckets : ℕ) → Prog (Unit {0})
init_detailed fresh nr_buckets = do
  info ← allocate_and_init_buckets fresh (upper_bound_power_of2 nr_buckets)
  act (Action.store_info info) ret

-- `pBucketsInfo->pBuckets + (hash & (pBucketsInfo->nrBucketsPowerOf2 - 1))`
unfoldable pub bucket_of : BucketsInfo → (hash : ℕ) → Ptr
bucket_of info hash = info.buckets + bit_and hash (mask_of info.nr_buckets_power_of2)

pub insert_no_expand : (entry : Ptr) → Prog (Unit {0})
insert_no_expand entry = do
  info ← act Action.load_info ret
  hash ← act (Action.get_hash entry) ret
  first ← load_next (bucket_of info hash)
  store_next entry first
  store_next (bucket_of info hash) entry
  act (Action.add_size 1) ret

pub try_insert_no_expand :
    (predict : Ptr → Ptr → Bool) (fuel : ℕ) (entry : Ptr) (hash_val : ℕ) → Prog Bool
try_insert_no_expand predict fuel entry hash_val = do
  act (Action.set_hash entry hash_val) ret
  info ← act Action.load_info ret
  hash ← act (Action.get_hash entry) ret
  inserted ← Slist.prepend_if_no_match predict fuel (bucket_of info hash) entry
  if inserted then (do act (Action.add_size 1) ret; ret true) else ret false

module _ (predict : Ptr → Bool) where
  pub find : (fuel : ℕ) (hash_val : ℕ) → Prog Ptr
  find fuel hash_val = do
    info ← act Action.load_info ret
    Slist.find_if predict fuel (bucket_of info hash_val)

  pub try_detach_no_shrink : (fuel : ℕ) (hash_val : ℕ) → Prog Ptr
  try_detach_no_shrink fuel hash_val = do
    info ← act Action.load_info ret
    Slist.remove_if predict fuel (bucket_of info hash_val)

module _ (load : Load) where
  pub try_insert :
      (predict : Ptr → Ptr → Bool) (fuel : ℕ) (fresh entry : Ptr) (hash_val : ℕ) → Prog Bool
  unfolding try_insert_no_expand
  try_insert predict fuel fresh entry hash_val = do
    inserted ← try_insert_no_expand predict fuel entry hash_val
    if inserted
        then (do
          current_size ← act Action.load_size ret
          info ← act Action.load_info ret
          expand_if_necessary load fuel fresh current_size info.nr_buckets_power_of2
          ret true)
        else ret false

  -- The node and `outIfAlreadyRcuSynrhonized`.
  unfoldable pub try_detach_auto_shrink :
      (predict : Ptr → Bool) (fuel : ℕ) (fresh : Ptr) (hash_val : ℕ) → Prog (Ptr × Bool)
  unfolding try_detach_no_shrink
  try_detach_auto_shrink predict fuel fresh hash_val = do
    p ← try_detach_no_shrink predict fuel hash_val
    if p == null then ret (p, false) else (do
      current_size ← act Action.load_size ret
      info ← act Action.load_info ret
      synchronized ← shrink_if_necessary load fuel fresh current_size info.nr_buckets_power_of2
      ret (p, synchronized))

  unfoldable pub try_detach_and_synchronize :
      (predict : Ptr → Bool) (fuel : ℕ) (fresh : Ptr) (hash_val : ℕ) → Prog Ptr
  unfolding try_detach_auto_shrink
  try_detach_and_synchronize predict fuel fresh hash_val = do
    detached ← try_detach_auto_shrink predict fuel fresh hash_val
    if detached.0 == null
        then ret detached.0
        else (if detached.1
            then ret detached.0
            else (do act Action.synchronize ret; ret detached.0))
