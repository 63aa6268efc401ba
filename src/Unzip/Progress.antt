-- ===== src/Unzip/Progress.antt =====
-- A pass over the buckets of the old array, one after the other.
use Prim.Native.Nat.{◌≤◌}
use relativistic_hash_table.Base.{
  ℕ, ◌+◌, ◌<◌, ◌≡◌, ◌≢◌, inl, inr, sym, Bool, true, false, List, ◌==◌, arith, subst, ==→eq,
  ==_false, Bool-cases,
}
use relativistic_hash_table.Memory.{Ptr, Mem, BucketsInfo}
use relativistic_hash_table.Unzip.{Unzipped, Zipping, unzipped, zip, zip_other, Touches}
use relativistic_hash_table.Unzip.Array.{Apart, Round, Zip-frame, Unzipped-frame, touches_own}

-- What holds below `i` and at `i` holds up to `i`.
one_more : (P : ℕ → Type 0) (i : ℕ) → ((j : ℕ) → j < i → P j) → P i → (j : ℕ) → j < i + 1 → P j
one_more P i before here j lt = elim (Bool-cases (j == i)) [
  | inl e ↦ subst P (sym (==→eq j i e)) here
  | inr off ↦ before j (ground (arith, ==_false j i off, lt))
]

pub swap-Unzipped :
    {hash : Ptr → ℕ} {mask fresh src : ℕ} {nodes : List Ptr} {c d : ℕ} {m : Mem}
    → Unzipped hash mask fresh src nodes d c m
    → Unzipped hash mask fresh src nodes c d m
swap-Unzipped u = record { at_end = u.at_end; list = u.other; other = u.list }

pub swap-Zipping :
    {hash : Ptr → ℕ} {mask fresh src : ℕ} {nodes : List Ptr} {c d n : ℕ} {m : Mem}
    → Zipping hash mask fresh src nodes d c n m
    → Zipping hash mask fresh src nodes c d n m
swap-Zipping (unzipped u) = unzipped (swap-Unzipped u)
swap-Zipping (zip z) = zip_other z
swap-Zipping (zip_other z) = zip z

module _ (hash : Ptr → ℕ) (mask fresh base half : ℕ) (chain : ℕ → List Ptr) where
  abbrev pub old : BucketsInfo
  old = record { nr_buckets_power_of2 = half; buckets = base }

  -- The old bucket `i` with at most `n` nodes left to unzip, and one with none.
  abbrev pub Bucket : (n i : ℕ) → Mem → Type 0
  Bucket n i m = Zipping hash mask fresh (base + i) (chain i) i (i + half) n m

  abbrev pub Done : ℕ → Mem → Type 0
  Done i m = Unzipped hash mask fresh (base + i) (chain i) i (i + half) m

  -- A pass that has come to the bucket `i`; what it meets later is `Later`. The buckets from `from` on
  -- are as at the last grace period.
  pub record Progress (Later : ℕ → Mem → Type 0) (from n i : ℕ) (all_finished : Bool) (m0 m : Mem)
      : Type 0 where
    pub round : Round hash fresh base half chain from m0 m
    pub passed : (j : ℕ) → j < i → Bucket n j m
    pub to_come : (j : ℕ) → i ≤ j → j < half → Later j m
    pub finished : all_finished ≡ true → (j : ℕ) → j < i → Done j m
    pub unfinished : all_finished ≡ false → 0 < n

  module _ (apart : Apart fresh base half chain) (n i : ℕ) (lt : i < half) (m m' : Mem)
      (t : Touches (base + i) (chain i) m m') where
    pub moved-Done : (j : ℕ) → j < half → i ≢ j → Done j m → Done j m'
    moved-Done j j_lt other u =
        Unzipped-frame hash mask fresh (base + j) (chain j) j (j + half) n m m'
          (touches_own hash fresh base half chain apart i lt m m m' t j j_lt other) u

    pub moved-Bucket : (n j : ℕ) → j < half → i ≢ j → Bucket n j m → Bucket n j m'
    moved-Bucket n j j_lt other (unzipped u) = unzipped (moved-Done j j_lt other u)
    moved-Bucket n j j_lt other (zip z) = zip (
        Zip-frame hash mask fresh (base + j) (chain j) j (j + half) n m m'
          (touches_own hash fresh base half chain apart i lt m m m' t j j_lt other) z)
    moved-Bucket n j j_lt other (zip_other z) = zip_other (
        Zip-frame hash mask fresh (base + j) (chain j) (j + half) j n m m'
          (λ a at.
            touches_own hash fresh base half chain apart i lt m m m' t j j_lt other a
              (ground (arith, at)))
          z)

  module _ {Later : ℕ → Mem → Type 0} {from n i : ℕ} {b : Bool} {m0 m : Mem}
      (p : Progress Later from n i b m0 m) where
    pub Progress-skip :
        {from' : ℕ}
        → Round hash fresh base half chain from' m0 m
        → Done i m
        → Progress Later from' n (i + 1) b m0 m
    Progress-skip r u = record {
      round = r;
      passed = one_more (λ j. Bucket n j m) i p.passed (unzipped u);
      to_come = λ j le. p.to_come j (omega (arith, le));
      finished = λ e. one_more (λ j. Done j m) i (p.finished e) u;
      unfinished = p.unfinished;
    }

    pub Progress-next :
        {from' : ℕ} {m' : Mem} (b' : Bool)
        → Apart fresh base half chain
        → i < half
        → Round hash fresh base half chain from' m0 m'
        → Touches (base + i) (chain i) m m'
        → ((j : ℕ) → j < half → i ≢ j → Later j m → Later j m')
        → Bucket n i m'
        → (b' ≡ true → (b ≡ true) × Done i m')
        → (b' ≡ false → 0 < n)
        → Progress Later from' n (i + 1) b' m0 m'
    Progress-next {m' = m'} b' apart lt r t later left fin unf = record {
      round = r;
      passed =
          one_more (λ j. Bucket n j m') i
            (λ j j_lt.
              moved-Bucket apart n i lt m m' t n j (omega (arith, lt, j_lt))
                (λ e. absurd (omega (arith, e, j_lt))) (p.passed j j_lt))
            left;
      to_come = λ j le j_lt.
          later j j_lt (λ e. absurd (omega (arith, e, le))) (p.to_come j (omega (arith, le)) j_lt);
      finished = λ e.
          one_more (λ j. Done j m') i
            (λ j j_lt.
              moved-Done apart n i lt m m' t j (omega (arith, lt, j_lt))
                (λ e. absurd (omega (arith, e, j_lt))) (p.finished (fin e).0 j j_lt))
            (fin e).1;
      unfinished = unf;
    }
