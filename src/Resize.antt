-- ===== src/Resize.antt =====
-- Doubling and halving the bucket array of a table that readers use, LibSource/RCUHashTable.cpp.
-- `fresh` is what `malloc` returns for the new array; each loop over a list takes `fuel`.
use relativistic_hash_table.Base.{
  ℕ, zero, suc, ◌+◌, ◌*◌, ◌/◌, ◌%◌, ◌^◌, Bool, true, false, ◌&&◌, Option, none, some, ◌==◌, ltb,
  if◌then◌else◌,
}
use relativistic_hash_table.Memory.{
  Ptr, null, BucketsInfo, Action, Prog, ret, act, out_of_fuel, ◌>>=◌, ◌>>◌, load_next,
}
use relativistic_hash_table.Buckets.{
  mask_of, for_each, allocate_and_init_buckets, destroy_and_free_buckets, shrink_two_buckets_to_one,
  unzip_one_segment, init_twin_dst_buckets, find_first_unzip_point,
}

-- `float` and what the resize tests use of it, with the two factors of the table
pub record Load : Type 1 where
  pub Float : Type 0
  pub of_size : ℕ → Float
  pub times : Float → Float → Float
  pub less : Float → Float → Bool
  pub expand_factor : Float
  pub shrink_factor : Float

-- The loop of findFirstUnzipStarts from bucket `i` on; its result is `allFinished`.
unfoldable pub starts_loop :
    (rounds i fuel : ℕ) (old : BucketsInfo) (mask : ℕ) (all_finished : Bool) → Prog Bool
starts_loop zero i fuel old mask all_finished = ret all_finished
starts_loop (suc rounds) i fuel old mask all_finished = do
  first ← load_next (old.buckets + i)
  if first == null then starts_loop rounds (i + 1) fuel old mask all_finished else (do
    need_unzip ← find_first_unzip_point fuel (old.buckets + i) mask
    starts_loop rounds (i + 1) fuel old mask (if need_unzip then false else all_finished))

-- `return bucketsInfoOld` of a pointer that is not null is `true`.
unfoldable pub find_first_unzip_starts :
    (fuel : ℕ) → BucketsInfo → (bucket_mask_new : ℕ) → Prog Bool
unfolding starts_loop
find_first_unzip_starts fuel old mask = starts_loop old.nr_buckets_power_of2 0 fuel old mask true

-- One round of unzip over the buckets from `i` on.
unfoldable pub unzip_round :
    (rounds i fuel : ℕ) (old : BucketsInfo) (mask : ℕ) (all_finished : Bool) → Prog Bool
unzip_round zero i fuel old mask all_finished = ret all_finished
unzip_round (suc rounds) i fuel old mask all_finished = do
  first ← load_next (old.buckets + i)
  if first == null then unzip_round rounds (i + 1) fuel old mask all_finished else (do
    unzip_one_segment fuel (old.buckets + i) mask
    unzip_round rounds (i + 1) fuel old mask false)

unfoldable pub unzip : (fuel : ℕ) → BucketsInfo → (bucket_mask_new : ℕ) → Prog (Unit {0})
unfolding unzip_round
unzip zero old mask = out_of_fuel
unzip (suc fuel) old mask = do
  all_finished ← unzip_round old.nr_buckets_power_of2 0 (suc fuel) old mask true
  if all_finished then ret tt else (do act Action.synchronize ret; unzip fuel old mask)

unfoldable pub expand_buckets_by_fac2_return_old : (fuel : ℕ) (fresh : Ptr) → Prog BucketsInfo
unfolding find_first_unzip_starts unzip
expand_buckets_by_fac2_return_old fuel fresh = do
  old ← act Action.load_info ret
  let nr_old = old.nr_buckets_power_of2
  let nr_new = nr_old * 2 % 2 ^ 64
  let mask = mask_of nr_new
  info ← allocate_and_init_buckets fresh nr_new
  for_each nr_old 0 (λ i.
      init_twin_dst_buckets fuel (old.buckets + i) (info.buckets + i) (info.buckets + (i + nr_old))
        i (i + nr_old) mask)
  act (Action.store_info info) ret
  act Action.synchronize ret
  no_need_to_unzip ← find_first_unzip_starts fuel old mask
  if no_need_to_unzip then ret old else (do unzip fuel old mask; ret old)

-- `none` is the null pointer that is returned for a table with one bucket.
unfoldable pub shrink_buckets_by_fac2_return_old :
    (fuel : ℕ) (fresh : Ptr) → Prog (Option BucketsInfo)
shrink_buckets_by_fac2_return_old fuel fresh = do
  old ← act Action.load_info ret
  let nr_new = old.nr_buckets_power_of2 / 2
  if nr_new == 0 then ret none else (do
    info ← allocate_and_init_buckets fresh nr_new
    for_each nr_new 0 (λ i.
        shrink_two_buckets_to_one fuel (old.buckets + i) (old.buckets + (i + nr_new))
          (info.buckets + i))
    act (Action.store_info info) ret
    act Action.synchronize ret
    ret (some old))

unfoldable pub expand_buckets2x : (fuel : ℕ) (fresh : Ptr) → Prog (Unit {0})
unfolding expand_buckets_by_fac2_return_old
expand_buckets2x fuel fresh = do
  old ← expand_buckets_by_fac2_return_old fuel fresh
  destroy_and_free_buckets old

unfoldable pub free_old : Option BucketsInfo → Prog Bool
free_old none = ret false
free_old (some old) = do destroy_and_free_buckets old; ret true

unfoldable pub shrink_buckets2x : (fuel : ℕ) (fresh : Ptr) → Prog Bool
unfolding shrink_buckets_by_fac2_return_old free_old
shrink_buckets2x fuel fresh = do old ← shrink_buckets_by_fac2_return_old fuel fresh; free_old old

module _ (load : Load) where
  open load use {of_size, times, less, expand_factor, shrink_factor}

  unfoldable pub expand_if_necessary :
      (fuel : ℕ) (fresh : Ptr) (nr_elements nr_buckets : ℕ) → Prog (Unit {0})
  unfolding expand_buckets2x
  expand_if_necessary fuel fresh nr_elements nr_buckets =
      if less (times expand_factor (of_size nr_buckets)) (of_size nr_elements)
      then expand_buckets2x fuel fresh
      else ret tt

  unfoldable pub shrink_if_necessary :
      (fuel : ℕ) (fresh : Ptr) (nr_elements nr_buckets : ℕ) → Prog Bool
  unfolding shrink_buckets2x
  shrink_if_necessary fuel fresh nr_elements nr_buckets =
      if less (of_size nr_elements) (times shrink_factor (of_size nr_buckets))
        && ltb 128 nr_elements
      then shrink_buckets2x fuel fresh
      else ret false
