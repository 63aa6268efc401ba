-- ===== src/Unzip/Rounds.antt =====
-- unzip and its rounds.
use Prim.Native.Nat.{◌≤◌}
use relativistic_hash_table.Base.{
  ℕ, zero, suc, ◌+◌, ◌<◌, ◌≡◌, ◌≢◌, inl, inr, refl, sym, ◌∙◌, Bool, true, false, some, List, ◌∷◌,
  arith, eq_false, subst, Bool-cases, if◌then◌else◌,
}
use relativistic_hash_table.Memory.{Ptr, null, Mem, Action, ret, act, ◌>>◌}
use relativistic_hash_table.Memory.Chain.{Chain-right}
use relativistic_hash_table.Memory.Ensures.{Ensures, returns, bind-Ensures, takes_else, mono}
use relativistic_hash_table.Memory.Watched.{Watched, ends, waits, within_period}
use relativistic_hash_table.Buckets.{unzip_one_segment}
use relativistic_hash_table.Resize.{unzip_round, unzip}
use relativistic_hash_table.Unzip.{Serves, unzipped, zip, zip_other, Touches}
use relativistic_hash_table.Unzip.Settled.{false_ne_true}
use relativistic_hash_table.Unzip.Segment.{loads_quietly}
use relativistic_hash_table.Unzip.OneSegment.{unzip_one_segment_lem}
use relativistic_hash_table.Unzip.Array.{
  Apart, Round, Round-next, Round-skip, Round-Settled, Round-Settled_other,
}
use relativistic_hash_table.Unzip.Progress.{
  swap-Zipping, old, Bucket, Done, Progress, Progress-skip, Progress-next, moved-Bucket,
}

module _ (hash : Ptr → ℕ) (mask fresh base half : ℕ) (chain : ℕ → List Ptr) where
  -- A round that has come to the bucket `i`.
  abbrev pub Come : (n i : ℕ) → Bool → Mem → Mem → Type 0
  Come n i =
      Progress hash mask fresh base half chain (Bucket hash mask fresh base half chain (suc n)) i n
        i

  -- The work on a bucket that is not yet unzipped.
  module _ (apart : Apart fresh base half chain) (n i : ℕ) (lt : i < half) (b : Bool) (m0 m : Mem)
      (p : Come n i b m0 m) where
    segment :
        (rounds fuel zipper : ℕ)
        → zipper ≢ null
        → m.next (base + i) ≡ some zipper
        → Ensures
            (Serves hash mask fresh (half + half) m0)
            (λ r m'.
              Bucket hash mask fresh base half chain n i m' × Touches (base + i) (chain i) m m')
            (unzip_one_segment fuel (base + i) mask)
            m
        → 0 < n
        → ((m' : Mem)
            → Come n (i + 1) false m0 m'
            → Ensures
                (Serves hash mask fresh (half + half) m0)
                (λ f m'. Come n half f m0 m')
                (unzip_round rounds (i + 1) fuel (old hash mask fresh base half chain) mask false)
                m')
        → Ensures
            (Serves hash mask fresh (half + half) m0)
            (λ f m'. Come n half f m0 m')
            (unzip_round (suc rounds) i fuel (old hash mask fresh base half chain) mask b)
            m
    unfolding unzip_round
    segment rounds fuel zipper live at work more rest =
        loads_quietly hash mask fresh (half + half) m0 at (
          takes_else _ _ (eq_false zipper null live) (
            bind-Ensures work λ r m' (left, t). rest m' (
              Progress-next hash mask fresh base half chain p false apart lt
                (Round-next hash fresh base half chain apart i lt m0 m m' t p.round) t
                (λ j j_lt other.
                  moved-Bucket hash mask fresh base half chain apart n i lt m m' t (suc n) j j_lt
                    other)
                left (λ e. absurd (false_ne_true e)) (λ e. more))))

  pub unzip_round_lem :
      Apart fresh base half chain
      → (rounds i n fuel : ℕ) (b : Bool) (m0 m : Mem) → rounds + i ≡ half
      → n ≤ fuel
      → Come n i b m0 m
      → Ensures
          (Serves hash mask fresh (half + half) m0)
          (λ f m'. Come n half f m0 m')
          (unzip_round rounds i fuel (old hash mask fresh base half chain) mask b)
          m
  unfolding unzip_round
  unzip_round_lem apart zero i n fuel b m0 m total enough p =
      returns (subst (λ i. Come n i b m0 m) (omega (arith, total)) p)
  unzip_round_lem apart (suc rounds) i n fuel b m0 m total enough p =
      elim (p.to_come i (omega arith) lt) [
        | unzipped u ↦ loads_quietly hash mask fresh (half + half) m0 u.at_end (
            unzip_round_lem apart rounds (i + 1) n fuel b m0 m (omega (arith, total)) enough (
              Progress-skip hash mask fresh base half chain p
                (Round-skip hash fresh base half chain apart i lt m0 m p.round) u))
        | zip z ↦
            segment apart n i lt b m0 m p rounds fuel z.zipper
              (Chain-right m.next null ((fresh + i) ∷ z.front) (z.zipper ∷ z.turn ∷ z.rest)
                z.list).0
              z.at_zipper
              (unzip_one_segment_lem hash mask fresh (half + half) (base + i) (chain i) i (i + half)
                n m0 m (Round-Settled hash fresh base half chain apart i lt m0 m p.round) z fuel
                enough)
              (omega (arith, z.enough))
              (λ m' p'.
                unzip_round_lem apart rounds (i + 1) n fuel false m0 m' (omega (arith, total))
                  enough p')
        | zip_other z ↦
            segment apart n i lt b m0 m p rounds fuel z.zipper
              (Chain-right m.next null ((fresh + (i + half)) ∷ z.front) (z.zipper ∷ z.turn ∷ z.rest)
                z.list).0
              z.at_zipper
              (mono
                (unzip_one_segment_lem hash mask fresh (half + half) (base + i) (chain i) (i + half)
                  i n m0 m (Round-Settled_other hash fresh base half chain apart i lt m0 m p.round)
                  z fuel enough)
                λ r m' (left, t). (swap-Zipping left, t))
              (omega (arith, z.enough))
              (λ m' p'.
                unzip_round_lem apart rounds (i + 1) n fuel false m0 m' (omega (arith, total))
                  enough p')
      ]
    where
      lt : i < half
      lt = omega (arith, total)

  -- A grace period ends a round.
  Round-restart :
      {m0 m : Mem}
      → Round hash fresh base half chain half m0 m
      → Round hash fresh base half chain 0 m m
  Round-restart r = record {
    same_hash = r.same_hash;
    same_info = refl;
    same_size = refl;
    null_free = r.null_free;
    null_free0 = r.null_free;
    heads = r.heads;
    heads0 = r.heads;
    agree = λ i a le lt at. refl;
  }

  -- Every bucket is unzipped, and the rest of the table is as in `m1`.
  pub record Finished (m1 m : Mem) : Type 0 where
    pub all_done : (j : ℕ) → j < half → Done hash mask fresh base half chain j m
    pub same_hash : m.hash ≡ hash
    pub same_info : m.buckets_info ≡ m1.buckets_info
    pub same_size : m.size ≡ m1.size

  -- Let the cells of the old array, the new one and the nodes be apart, no cell be linked to an old
  -- bucket, and nothing that a reader meets have changed since the last grace period. If each old
  -- bucket has less than `fuel` nodes behind its first segment, and `fuel` is not 0, then `unzip`
  -- with `fuel` rounds ends without a fault: the old buckets are empty, each new bucket has its own
  -- nodes in the order of before, and the array, the size and the hashes of the table stay, the array
  -- also at the last grace period. Each access leaves every reader that may have entered a new bucket
  -- since the last grace period able to reach each node of that bucket that it could reach, and leads
  -- none to a new place.
  pub unzip_lem :
      Apart fresh base half chain
      → (fuel : ℕ) (m1 m0 m : Mem) → m0.buckets_info ≡ m1.buckets_info
      → m0.size ≡ m1.size
      → 0 < fuel
      → Round hash fresh base half chain 0 m0 m
      → ((j : ℕ) → j < half → Bucket hash mask fresh base half chain fuel j m)
      → Watched
          (Serves hash mask fresh (half + half))
          (λ r m0' m'. Finished m1 m' × (m0'.buckets_info ≡ m1.buckets_info))
          (unzip fuel (old hash mask fresh base half chain) mask)
          m0
          m
  unfolding unzip
  unzip_lem apart zero m1 m0 m info size some_fuel r left = absurd (omega (arith, some_fuel))
  unzip_lem apart (suc fuel) m1 m0 m info size some_fuel r left =
      within_period
        (unzip_round_lem apart half 0 fuel (suc fuel) true m0 m (omega arith) (omega arith) start)
        λ all_finished m' p. elim (Bool-cases all_finished) [
          | inl all ↦
              subst
                (λ b.
                  Watched (Serves hash mask fresh (half + half))
                    (λ r m0' m'. Finished m1 m' × (m0'.buckets_info ≡ m1.buckets_info))
                    (if b then ret tt else (do
                      act Action.synchronize ret
                      unzip fuel (old hash mask fresh base half chain) mask))
                    m0 m')
                (sym all)
                (ends (
                  record {
                    all_done = p.finished all;
                    same_hash = p.round.same_hash;
                    same_info = p.round.same_info ∙ info;
                    same_size = p.round.same_size ∙ size;
                  },
                  info,
                ))
          | inr more ↦
              subst
                (λ b.
                  Watched (Serves hash mask fresh (half + half))
                    (λ r m0' m'. Finished m1 m' × (m0'.buckets_info ≡ m1.buckets_info))
                    (if b then ret tt else (do
                      act Action.synchronize ret
                      unzip fuel (old hash mask fresh base half chain) mask))
                    m0 m')
                (sym more)
                (waits (
                  unzip_lem apart fuel m1 m' m' (p.round.same_info ∙ info)
                    (p.round.same_size ∙ size) (p.unfinished more) (Round-restart p.round)
                    p.passed))
        ]
    where
      start : Come fuel 0 true m0 m
      start = record {
        round = r;
        passed = λ j lt. absurd (omega (arith, lt));
        to_come = λ j le lt. left j lt;
        finished = λ e j lt. absurd (omega (arith, lt));
        unfinished = λ e. absurd (false_ne_true (sym e));
      }
