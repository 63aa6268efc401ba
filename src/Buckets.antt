-- ===== src/Buckets.antt =====
-- The bucket arrays of the hash table, LibSource/RCUHashTable.cpp: setting one up, splicing two
-- buckets into one, and the steps that split the buckets of an array in two while readers walk them.
pub mod Setup
pub mod Splice
use Prim.Native.Nat.{bit_and}
use relativistic_hash_table.Base.{
  ℕ, zero, suc, ◌+◌, ◌-◌, ◌*◌, ◌/◌, ◌%◌, ◌^◌, Bool, true, false, not, ◌||◌, ◌&&◌, Option, none,
  some, ◌==◌, ltb, if◌then◌else◌,
}
use relativistic_hash_table.Bits.{smear}
use relativistic_hash_table.Memory.{
  Ptr, null, BucketsInfo, Prog, ret, act, fault, out_of_fuel, ◌>>=◌, ◌>>◌, load_next, store_next,
  Action,
}

-- the `upperBoundPowerOf2` of this file; its argument is a uint32_t
unfoldable pub upper_bound_power_of2 : ℕ → ℕ
upper_bound_power_of2 v = if v == 0 then 1 else (smear ((v + 2 ^ 32 - 1) % 2 ^ 32) + 1) % 2 ^ 32

-- `nrBuckets - 1` of a size_t
abbrev pub mask_of : ℕ → ℕ
mask_of nr = (nr + 2 ^ 64 - 1) % 2 ^ 64

-- `for (size_t i = from; rounds left; ++i) body(i)`
pub for_each : (rounds from : ℕ) → (ℕ → Prog (Unit {0})) → Prog (Unit {0})
for_each zero from body = ret tt
for_each (suc rounds) from body = do body from; for_each rounds (from + 1) body

-- The same with an `int` for `i`: an increment past 2 ^ 31 - 1 is undefined behaviour.
pub for_each_int : (rounds from : ℕ) → (ℕ → Prog (Unit {0})) → Prog (Unit {0})
for_each_int zero from body = ret tt
for_each_int (suc rounds) from body = do
  body from
  if ltb (from + 1) (2 ^ 31) then for_each_int rounds (from + 1) body else fault

-- `allocSize` of a size_t, for a BucketsInfo of two words and a Bucket of one, of 8 bytes each, and
-- the buckets that there is room for in so many bytes.
abbrev pub alloc_size : (nr_buckets_power_of2 : ℕ) → ℕ
alloc_size nr = (16 + nr * 8 % 2 ^ 64) % 2 ^ 64

abbrev pub room_in : (bytes : ℕ) → ℕ
room_in bytes = (bytes - 16) / 8

-- `base` is what `malloc` returns for the array; null makes the placement `new` a fault.
pub allocate_and_init_buckets : (base nr_buckets_power_of2 : ℕ) → Prog BucketsInfo
unfolding for_each_int
allocate_and_init_buckets base nr = if nr == 0 then fault else (do
  act (Action.allocate base (room_in (alloc_size nr))) ret
  for_each_int nr 0 (λ i. store_next (base + i) null)
  ret (record { nr_buckets_power_of2 = nr; buckets = base }))

unfoldable pub destroy_and_free_buckets : BucketsInfo → Prog (Unit {0})
destroy_and_free_buckets info = act (Action.release info.buckets info.nr_buckets_power_of2) ret

-- the walk of shrinkTwoBucketsToOne to the last element
last_loop : ℕ → (p : Ptr) → Prog Ptr
last_loop zero p = out_of_fuel
last_loop (suc fuel) p = do next ← load_next p; if next == null then ret p else last_loop fuel next

pub shrink_two_buckets_to_one : (fuel : ℕ) (src0 src1 dst : Ptr) → Prog (Unit {0})
unfolding last_loop
shrink_two_buckets_to_one fuel src0 src1 dst = do
  first0 ← load_next src0
  first1 ← load_next src1
  if first1 == null
      then store_next dst first0
      else (if first0 == null
          then store_next dst first1
          else (do last ← last_loop fuel first0; store_next last first1; store_next dst first0))

unfoldable pub compute_hash_bucket_id : (p : Ptr) (hash_mask : ℕ) → Prog ℕ
compute_hash_bucket_id p hash_mask = do h ← act (Action.get_hash p) ret; ret (bit_and h hash_mask)

-- The loop of unzipOneSegment: the last cell of the segment, or null if the segment ends the list,
-- and the cell behind the segment.
unfoldable pub segment_loop : ℕ → (id mask : ℕ) (next_jump_start : Ptr) → Prog (Ptr × Ptr)
unfolding compute_hash_bucket_id
segment_loop zero id mask next_jump_start = out_of_fuel
segment_loop (suc fuel) id mask next_jump_start = do
  next ← load_next next_jump_start
  if next == null then ret (null, null) else (do
    next_id ← compute_hash_bucket_id next mask
    if next_id == id then ret (next_jump_start, next) else segment_loop fuel id mask next)

-- A failing `assert` is a fault.
unfoldable pub unzip_one_segment :
    (fuel : ℕ) (zip_start : Ptr) (hash_mask_expanded : ℕ) → Prog (Unit {0})
unfolding compute_hash_bucket_id segment_loop
unzip_one_segment fuel zip_start mask = do
  jump_start ← load_next zip_start
  if jump_start == null then fault else (do
    asserted ← load_next jump_start
    if asserted == null then fault else (do
      id ← compute_hash_bucket_id jump_start mask
      next_jump_start ← load_next jump_start
      next_id ← compute_hash_bucket_id next_jump_start mask
      if next_id == id then fault else (do
        ends ← segment_loop fuel id mask next_jump_start
        store_next zip_start ends.0
        store_next jump_start ends.1)))

-- The loop of initTwinDstBuckets, with the two first elements found so far.
unfoldable pub twin_loop : ℕ → (p first0 first1 : Ptr) (id0 id1 mask : ℕ) → Prog (Ptr × Ptr)
unfolding compute_hash_bucket_id
twin_loop zero p first0 first1 id0 id1 mask = out_of_fuel
twin_loop (suc fuel) p first0 first1 id0 id1 mask = if p == null then ret (first0, first1) else (do
  id ← compute_hash_bucket_id p mask
  if not ((id == id0) || (id == id1))
      then fault
      else (let take0 = (first0 == null) && (id == id0) in
          let take1 = not take0 && ((first1 == null) && (id == id1)) in
          let first0' = if take0 then p else first0 in
          let first1' = if take1 then p else first1 in
          if not (first0' == null) && not (first1' == null)
          then ret (first0', first1')
          else (do next ← load_next p; twin_loop fuel next first0' first1' id0 id1 mask)))

unfoldable pub init_twin_dst_buckets :
    (fuel : ℕ) (src dst0 dst1 : Ptr) (id0 id1 mask : ℕ) → Prog (Unit {0})
unfolding twin_loop
init_twin_dst_buckets fuel src dst0 dst1 id0 id1 mask = do
  first ← load_next src
  firsts ← twin_loop fuel first null null id0 id1 mask
  store_next dst0 firsts.0
  store_next dst1 firsts.1

-- The loop of findFirstUnzipPoint: the last cell of the first segment, or null.
unfoldable pub unzip_point_loop : ℕ → (id mask : ℕ) (p : Ptr) → Prog Ptr
unfolding compute_hash_bucket_id
unzip_point_loop zero id mask p = out_of_fuel
unzip_point_loop (suc fuel) id mask p = do
  next ← load_next p
  if next == null then ret null else (do
    next_id ← compute_hash_bucket_id next mask
    if not (next_id == id) then ret p else unzip_point_loop fuel id mask next)

unfoldable pub find_first_unzip_point : (fuel : ℕ) (src : Ptr) (mask : ℕ) → Prog Bool
unfolding compute_hash_bucket_id unzip_point_loop
find_first_unzip_point fuel src mask = do
  p ← load_next src
  id ← compute_hash_bucket_id p mask
  point ← unzip_point_loop fuel id mask p
  store_next src point
  ret (not (point == null))
