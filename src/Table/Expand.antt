-- ===== src/Table/Expand.antt =====
-- expandBucketsByFac2ReturnOld: doubling a table while readers walk it.
use native.Mathlib.Nat.{one-le-pow, pow-le-pow_right}
use relativistic_hash_table.Base.{
  ℕ, suc, ◌+◌, ◌*◌, ◌%◌, ◌^◌, ◌≤◌, ◌<◌, ◌≡◌, ◌≢◌, ◌⊎◌, inl, inr, refl, sym, true, none, some, List,
  arith, eq_false, subst, Bool-cases, if◌then◌else◌, length,
}
use relativistic_hash_table.Memory.{Ptr, BucketsInfo, null, Mem, Action, ret, ◌>>=◌, ◌>>◌, perform}
use relativistic_hash_table.Memory.Ensures.{weaken-Ensures, perform-load_info}
use relativistic_hash_table.Memory.Watched.{
  Watched, ends, waits, goes, within_period, bind-Watched, weaken-Watched,
}
use relativistic_hash_table.Memory.Leads.{Keeps, Unlinked}
use relativistic_hash_table.Buckets.Setup.{IsUnused, allocate_and_init_buckets-HasEmpty}
use relativistic_hash_table.Resize.{
  expand_buckets_by_fac2_return_old, find_first_unzip_starts, unzip,
}
use relativistic_hash_table.Unzip.{Serves}
use relativistic_hash_table.Unzip.Settled.{false_ne_true}
use relativistic_hash_table.Unzip.Starts.{starts_loop_lem}
use relativistic_hash_table.Unzip.Rounds.{unzip_lem}
use relativistic_hash_table.Table.Shape.{IsTable, array}
use relativistic_hash_table.Table.Halving.{double}
use relativistic_hash_table.Table.Twice.{mask, two_buckets}
use relativistic_hash_table.Table.Doubling.{Split, all_entered}
use relativistic_hash_table.Table.Published.{Doubled, apart, published, shared, round, finish}

-- An access that makes nothing unreachable, or one that serves the readers of the new array.
abbrev pub KeepsOrServes : (hash : Ptr → ℕ) (k fresh : ℕ) → Mem → Mem → Action → Mem → Type 0
KeepsOrServes hash k fresh m0 m a m' =
    Keeps null null m a m' ⊎ Serves hash (mask k) fresh (2 ^ k + 2 ^ k) m0 m a m'

module _ (k : ℕ) (base fresh : Ptr) (chain : ℕ → List Ptr) (m : Mem) (t : IsTable m k base chain)
    (fits : suc k ≤ 30) (unused : IsUnused m fresh (2 ^ suc k)) (live : fresh ≢ null)
    (null_free : m.next null ≡ none)
    (heads : (i : ℕ) → i < 2 ^ k → Unlinked m.next (base + i)) where
  -- The table is doubled, and the new array was that of the table at the last grace period.
  abbrev pub Grew : BucketsInfo → (m0 m' : Mem) → Type 0
  Grew old m0 m' =
      Doubled k base fresh chain m old m' × (m0.buckets_info ≡ some (array (suc k) fresh))

  module _ (m' : Mem) (s : Split k base fresh chain m t fits unused null_free (2 ^ k) m') where
    abbrev after : Mem
    after = published k base fresh chain m t fits unused live null_free heads m' s

    -- The part after the publication.
    unzips :
        (fuel : ℕ)
        → ((i : ℕ) → i < 2 ^ k → length (chain i) < fuel)
        → Watched
            (KeepsOrServes m.hash k fresh)
            (λ old m0 m''. Grew old m0 m'')
            (find_first_unzip_starts fuel (array k base) (mask k) >>= λ no_need.
              if no_need
              then ret (array k base)
              else (do unzip fuel (array k base) (mask k); ret (array k base)))
            after
            after
    unfolding find_first_unzip_starts
    unzips fuel enough =
        within_period
          (weaken-Ensures (λ m a m' serves. inr serves)
            (starts_loop_lem m.hash (mask k) fresh base (2 ^ k) chain
              (apart k base fresh chain m t fits unused live null_free heads) (2 ^ k) 0 fuel fuel
              true after after
              (record {
                two = λ j lt. two_buckets k base fresh chain m t fits m.hash j refl lt;
                short = λ j lt. omega (arith, enough j lt);
              })
              (omega arith) (omega arith)
              (record {
                round = round k base fresh chain m t fits unused live null_free heads m' s;
                passed = λ j lt. absurd (omega (arith, lt));
                to_come = λ j le lt.
                    shared k base fresh chain m t fits unused live null_free heads m' s j lt;
                finished = λ e j lt. absurd (omega (arith, lt));
                unfinished = λ e. absurd (false_ne_true (sym e));
              })))
          λ no_need m'' p. elim (Bool-cases no_need) [
            | inl e ↦
                subst
                  (λ b.
                    Watched (KeepsOrServes m.hash k fresh) (λ old m0 m''. Grew old m0 m'')
                      (if b
                        then ret (array k base)
                        else (do unzip fuel (array k base) (mask k); ret (array k base)))
                      after m'')
                  (sym e)
                  (ends (
                    finish k base fresh chain m t fits unused live null_free heads m' s m''
                        (record {
                          all_done = p.finished e;
                          same_hash = p.round.same_hash;
                          same_info = p.round.same_info;
                          same_size = p.round.same_size;
                        }),
                    refl,
                  ))
            | inr e ↦
                subst
                  (λ b.
                    Watched (KeepsOrServes m.hash k fresh) (λ old m0 m''. Grew old m0 m'')
                      (if b
                        then ret (array k base)
                        else (do unzip fuel (array k base) (mask k); ret (array k base)))
                      after m'')
                  (sym e)
                  (bind-Watched
                    (weaken-Watched (λ m0 m a m' serves. inr serves) (λ r m0 m' f. f)
                      (unzip_lem m.hash (mask k) fresh base (2 ^ k) chain
                        (apart k base fresh chain m t fits unused live null_free heads) fuel after
                        after m'' refl refl some_fuel p.round p.passed))
                    λ r m0 m3 (f, info). ends (
                      finish k base fresh chain m t fits unused live null_free heads m' s m3 f,
                      info,
                    ))
          ]
      where
        some_fuel : 0 < fuel
        some_fuel = omega (arith, enough 0 (one-le-pow k 2 (omega arith)))

  -- In a table of `2 ^ k` buckets, `k` at most 29, to whose buckets no cell is linked, given an unused
  -- array for twice as many, no cell at null, and more rounds than each bucket has nodes,
  -- `expand_buckets_by_fac2_return_old` ends without a fault, returns the old array and leaves a table
  -- on the new one, whose bucket `i` has the nodes of the old bucket `i % 2 ^ k` with that hash, in the
  -- order of before. The size and all hashes stay, and the new array was that of the table at the last
  -- grace period. Each access either makes no cell unreachable, or
  -- leaves every reader that may have entered a new bucket since the last grace period able to reach
  -- each node of that bucket that it could reach.
  pub expand_buckets_by_fac2_return_old-IsTable :
      (fuel : ℕ) (m0 : Mem)
      → ((i : ℕ) → i < 2 ^ k → length (chain i) < fuel)
      → Watched
          (KeepsOrServes m.hash k fresh)
          (λ old m0 m'. Grew old m0 m')
          (expand_buckets_by_fac2_return_old fuel fresh)
          m0
          m
  unfolding expand_buckets_by_fac2_return_old perform
  expand_buckets_by_fac2_return_old-IsTable fuel m0 enough =
      goes (perform-load_info (array k base) m t.info) (inl λ x t off ne r. r) (
        rw nr_new (
          within_period
            (weaken-Ensures (λ m a m' keeps. inl keeps)
              (allocate_and_init_buckets-HasEmpty m fresh (2 ^ suc k) (eq_false fresh null live)
                (λ e. absurd (omega (arith, e, one-le-pow (suc k) 2 (omega arith))))
                (omega (arith, pow-le-pow_right {n = 2} (omega arith) fits)) unused))
            λ info m1 (at, e). rw at (
              within_period
                (weaken-Ensures (λ m a m' keeps. inl keeps)
                  (all_entered k base fresh chain m t fits unused null_free fuel m1 live enough e))
                λ r m2 s. goes refl (inl λ x t off ne r. r) (waits (unzips m2 s fuel enough)))))
    where
      nr_new : 2 ^ k * 2 % 2 ^ 64 ≡ 2 ^ suc k
      nr_new = omega (arith, double k, pow-le-pow_right {n = 2} (omega arith) fits)
