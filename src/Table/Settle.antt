-- ===== src/Table/Settle.antt =====
-- rTableCoreTryDetachAndSynchronize: the grace period that its caller may rely on.
use relativistic_hash_table.Base.{
  ℕ, ◌+◌, ◌/◌, ◌≡◌, ◌≢◌, sym, ap, ◌∙◌, Bool, true, false, ◌&&◌, Option, none, some, ◌++◌, ltb, ◌==◌,
  if◌then◌else◌, Bool-cases, inl, inr, ==→eq,
}
use relativistic_hash_table.Memory.{
  Ptr, null, BucketsInfo, Mem, Prog, ret, act, ◌>>=◌, ◌>>◌, finished, run, store_info, load_info,
  load_size, synchronize,
}
use relativistic_hash_table.Memory.Trace.{
  trace, settled, has_link, settled_before, settled_behind, run-bind, bind-settled,
  bind-settled_before, run-ret, synchronize-settled, ret-quiet, release-quiet,
}
use relativistic_hash_table.Buckets.{
  for_each, allocate_and_init_buckets, shrink_two_buckets_to_one, destroy_and_free_buckets,
}
use relativistic_hash_table.Resize.{
  Load, free_old, shrink_buckets_by_fac2_return_old, shrink_buckets2x, shrink_if_necessary,
}
use relativistic_hash_table.Table.{
  try_detach_no_shrink, try_detach_auto_shrink, try_detach_and_synchronize,
}

-- the loop of the halving, and what follows it
abbrev splice_all : (fuel : ℕ) (old info : BucketsInfo) → Prog (Unit {0})
splice_all fuel old info = for_each (old.nr_buckets_power_of2 / 2) 0 (λ i.
    shrink_two_buckets_to_one fuel (old.buckets + i)
      (old.buckets + (i + old.nr_buckets_power_of2 / 2)) (info.buckets + i))

abbrev publish : (old info : BucketsInfo) → Prog (Option BucketsInfo)
publish old info = do act (store_info info) ret; act synchronize ret; ret (some old)

-- A halving that returns the old array ends in a grace period.
return_old-settled :
    (fuel : ℕ) (fresh : Ptr) (m : Mem) (old : BucketsInfo) (m'' : Mem)
    → run (shrink_buckets_by_fac2_return_old fuel fresh) m ≡ finished (some old) m''
    → settled (trace (shrink_buckets_by_fac2_return_old fuel fresh) m) ≡ true
unfolding shrink_buckets_by_fac2_return_old
return_old-settled fuel fresh m old m'' e =
    bind-settled (act load_info ret) _ m (some old) m'' e λ now m1 e1.
      elim (Bool-cases (now.nr_buckets_power_of2 / 2 == 0)) [
        | inl one ↦ absurd (none_not_some (run-ret m1 (rw one at e1)))
        | inr more ↦ rw more (
            bind-settled (allocate_and_init_buckets fresh (now.nr_buckets_power_of2 / 2))
              (λ info. splice_all fuel now info >> publish now info) m1 (some old) m''
              (rw more at e1)
              λ info m2 e2.
                bind-settled (splice_all fuel now info) (λ _. publish now info) m2 (some old) m'' e2
                  λ u m3 e3.
                    bind-settled (act (store_info info) ret)
                      (λ _. do act synchronize ret; ret (some now)) m3 (some old) m'' e3
                      λ v m4 e4. synchronize-settled (some now) m4)
      ]
  where
    none_not_some : {o : BucketsInfo} → none ≢ some o
    none_not_some e = cc e

shrink_buckets2x-settled :
    (fuel : ℕ) (fresh : Ptr) (m m'' : Mem)
    → run (shrink_buckets2x fuel fresh) m ≡ finished true m''
    → settled (trace (shrink_buckets2x fuel fresh) m) ≡ true
unfolding shrink_buckets2x free_old destroy_and_free_buckets
shrink_buckets2x-settled fuel fresh m m'' e =
    bind-settled_before (shrink_buckets_by_fac2_return_old fuel fresh) free_old m true m'' e split
  where
    split :
        (old : Option BucketsInfo) (m' : Mem)
        → run (shrink_buckets_by_fac2_return_old fuel fresh) m ≡ finished old m'
        → run (free_old old) m' ≡ finished true m''
        → (settled (trace (shrink_buckets_by_fac2_return_old fuel fresh) m) ≡ true)
          × (has_link (trace (free_old old) m') ≡ false)
    split none m' first second = absurd (cc (run-ret m' second))
    split (some old) m' first second = (
      return_old-settled fuel fresh m old m' first,
      release-quiet old.buckets old.nr_buckets_power_of2 true m',
    )

module _ (load : Load) where
  shrink_if_necessary-settled :
      (fuel : ℕ) (fresh : Ptr) (n b : ℕ) (m m'' : Mem)
      → run (shrink_if_necessary load fuel fresh n b) m ≡ finished true m''
      → settled (trace (shrink_if_necessary load fuel fresh n b) m) ≡ true
  unfolding shrink_if_necessary
  shrink_if_necessary-settled fuel fresh n b m m'' e = elim (Bool-cases test) [
    | inl small ↦ rw small (shrink_buckets2x-settled fuel fresh m m'' (rw small at e))
    | inr large ↦ absurd (cc (run-ret m (rw large at e)))
  ]
    where
      test : Bool
      test =
          load.less (load.of_size n) (load.times load.shrink_factor (load.of_size b)) && ltb 128 n

  module _ (predict : Ptr → Bool) (fuel : ℕ) (fresh : Ptr) (h : ℕ) where
    -- what follows the removal of the node `p`
    abbrev shrink_after : Ptr → Prog (Ptr × Bool)
    shrink_after p = if p == null then ret (p, false) else (do
      current_size ← act load_size ret
      info ← act load_info ret
      synchronized ← shrink_if_necessary load fuel fresh current_size info.nr_buckets_power_of2
      ret (p, synchronized))

    auto_shrink-settled :
        (m : Mem) (q : Ptr) (m'' : Mem)
        → run (try_detach_auto_shrink load predict fuel fresh h) m ≡ finished (q, true) m''
        → settled (trace (try_detach_auto_shrink load predict fuel fresh h) m) ≡ true
    unfolding try_detach_auto_shrink
    auto_shrink-settled m q m'' e =
        bind-settled (try_detach_no_shrink predict fuel h) shrink_after m (q, true) m'' e
          λ p m1 e1. elim (Bool-cases (p == null)) [
            | inl absent ↦ absurd (cc (ap (λ r. r.1) (run-ret m1 (rw absent at e1))))
            | inr present ↦ rw present (
                bind-settled (act load_size ret) _ m1 (q, true) m'' (rw present at e1)
                  λ n m2 e2.
                    bind-settled (act load_info ret) _ m2 (q, true) m'' e2
                      λ info m3 e3.
                        bind-settled_before
                          (shrink_if_necessary load fuel fresh n info.nr_buckets_power_of2)
                          (λ s. ret (p, s)) m3 (q, true) m'' e3
                          λ s m4 first second. (
                            shrink_if_necessary-settled fuel fresh n info.nr_buckets_power_of2 m3 m4
                                (first
                                  ∙ ap (λ s. finished s m4) (ap (λ r. r.1) (run-ret m4 second))),
                            ret-quiet (p, s) m4,
                          ))
          ]

    -- what follows the removal that may halve the table
    abbrev wait_after : Ptr × Bool → Prog Ptr
    wait_after detached =
        if detached.0 == null
        then ret detached.0
        else (if detached.1 then ret detached.0 else (do act synchronize ret; ret detached.0))

    waits :
        (m : Mem) (q : Ptr) (s : Bool) (m' : Mem)
        → run (try_detach_auto_shrink load predict fuel fresh h) m ≡ finished (q, s) m'
        → settled (
            trace (try_detach_auto_shrink load predict fuel fresh h) m
            ++ trace (if s then ret q else (do act synchronize ret; ret q)) m')
          ≡ true
    waits m q true m' first =
        settled_before (trace (try_detach_auto_shrink load predict fuel fresh h) m)
          (trace (ret q) m') (auto_shrink-settled m q m' first) (ret-quiet q m')
    waits m q false m' first =
        settled_behind (trace (try_detach_auto_shrink load predict fuel fresh h) m)
          (trace (do act synchronize ret; ret q) m') (synchronize-settled q m')

    pub and_synchronize-settled :
        (m : Mem) (p : Ptr) (m'' : Mem)
        → run (try_detach_and_synchronize load predict fuel fresh h) m ≡ finished p m''
        → p ≢ null
        → settled (trace (try_detach_and_synchronize load predict fuel fresh h) m) ≡ true
    unfolding try_detach_and_synchronize
    and_synchronize-settled m p m'' e live =
        let (r, m', first, second, both) =
          run-bind (try_detach_auto_shrink load predict fuel fresh h) wait_after m p m'' e in
        rw both (split r.0 r.1 m' first second)
      where
        split :
            (q : Ptr) (s : Bool) (m' : Mem)
            → run (try_detach_auto_shrink load predict fuel fresh h) m ≡ finished (q, s) m'
            → run (wait_after (q, s)) m' ≡ finished p m''
            → settled (
                trace (try_detach_auto_shrink load predict fuel fresh h) m
                ++ trace (wait_after (q, s)) m')
              ≡ true
        split q s m' first second = elim (Bool-cases (q == null)) [
          | inl absent ↦
              absurd (live (sym (run-ret m' (rw absent at second)) ∙ ==→eq q null absent))
          | inr present ↦ rw present (waits m q s m' first)
        ]
