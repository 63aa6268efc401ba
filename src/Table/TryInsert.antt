-- ===== src/Table/TryInsert.antt =====
-- rTableCoreTryInsert: an insertion that may double the table.
use relativistic_hash_table.Base.{
  ℕ, suc, ◌+◌, ◌%◌, ◌^◌, ◌≤◌, ◌<◌, ◌≡◌, ◌≢◌, ◌⊎◌, inl, inr, refl, sym, ◌∙◌, Bool, true, false, not,
  none, List, ◌==◌, arith, subst, Bool-cases, if◌then◌else◌, length, any,
}
use relativistic_hash_table.Memory.{Ptr, null, Mem, Action, ret, act, ◌>>=◌, ◌>>◌, perform}
use relativistic_hash_table.Memory.Ensures.{rehash, weaken-Ensures, perform-load_info}
use relativistic_hash_table.Memory.Watched.{
  Watched, ends, goes, within_period, bind-Watched, weaken-Watched,
}
use relativistic_hash_table.Memory.Chain.{first}
use relativistic_hash_table.Memory.Leads.{Keeps, Unlinked}
use relativistic_hash_table.Buckets.Setup.{IsUnused}
use relativistic_hash_table.Resize.{Load, expand_if_necessary}
use relativistic_hash_table.Unzip.Settled.{first-mem}
use relativistic_hash_table.Table.{try_insert}
use relativistic_hash_table.Table.Shape.{IsTable, array, index-lt, cell-not_node}
use relativistic_hash_table.Table.Insert.{
  IsFree, Inserted, inserted_mem, prepended, try_insert_no_expand-Inserted,
}
use relativistic_hash_table.Table.Grow.{Grows, Grown, expand_buckets2x-Grown}

module _ (load : Load) (k : ℕ) (base fresh : Ptr) (chain : ℕ → List Ptr) where
  pub expand_if_necessary-Grown :
      (fuel nr_elements nr_buckets : ℕ) (m0 m : Mem)
      → IsTable m k base chain
      → suc k ≤ 30
      → IsUnused m fresh (2 ^ suc k)
      → fresh ≢ null
      → m.next null ≡ none
      → ((i : ℕ) → i < 2 ^ k → Unlinked m.next (base + i))
      → ((i : ℕ) → i < 2 ^ k → length (chain i) < fuel)
      → Watched
          (Grows m.hash k base fresh)
          (λ r m0' m'. (m' ≡ m) ⊎ Grown k base fresh chain m m')
          (expand_if_necessary load fuel fresh nr_elements nr_buckets)
          m0
          m
  unfolding expand_if_necessary
  expand_if_necessary-Grown fuel n b m0 m t fits unused live null_free heads enough =
      elim (Bool-cases test) [
        | inl full ↦ rw full (
            weaken-Watched (λ m0 m a m' g. g) (λ r m0 m' g. inr g)
              (expand_buckets2x-Grown k base fresh chain m t unused fits live null_free heads fuel
                m0 enough))
        | inr room ↦ rw room (ends (inl refl))
      ]
    where
      test : Bool
      test = load.less (load.times load.expand_factor (load.of_size b)) (load.of_size n)

module _ (k : ℕ) (base fresh : Ptr) (chain : ℕ → List Ptr) (new : Ptr) (h : ℕ) (m : Mem)
    (t : IsTable m k base chain) (free : IsFree m k base chain new) where
  bucket : Ptr
  bucket = base + h % 2 ^ k

  inserted-IsUnused :
      IsUnused m fresh (2 ^ suc k) → IsUnused (inserted_mem k base chain new h m) fresh (2 ^ suc k)
  inserted-IsUnused unused a inside =
      ground (arith, unused a inside, free.is_allocated, (t.lists (h % 2 ^ k) (index-lt k h)).1)

  inserted-null : m.next null ≡ none → (inserted_mem k base chain new h m).next null ≡ none
  inserted-null null_free =
      ground (arith, null_free, free.ne_null, (t.lists (h % 2 ^ k) (index-lt k h)).0)

  first_off : (i : ℕ) → i < 2 ^ k → first (chain (h % 2 ^ k)) null ≢ base + i
  first_off i lt e = elim (first-mem (chain (h % 2 ^ k)) (chain (h % 2 ^ k)) (λ a at. at)) [
    | inl end ↦ absurd ((t.lists i lt).0 (sym e ∙ end))
    | inr node ↦ absurd (ground (arith, e, node, cell-not_node t i (h % 2 ^ k) lt (index-lt k h)))
  ]

  inserted-heads :
      ((i : ℕ) → i < 2 ^ k → Unlinked m.next (base + i))
      → (i : ℕ) → i < 2 ^ k
      → Unlinked (inserted_mem k base chain new h m).next (base + i)
  inserted-heads heads i lt a e = ground (arith, e, heads i lt a, first_off i lt, free.is_node)

  inserted-short :
      (fuel : ℕ)
      → ((i : ℕ) → i < 2 ^ k → length (chain i) + 1 < fuel)
      → (i : ℕ) → i < 2 ^ k
      → length (prepended k base chain new h i) < fuel
  inserted-short fuel enough i lt = elim (Bool-cases (i == h % 2 ^ k)) [
    | inl here ↦ rw here (omega (arith, enough (h % 2 ^ k) (index-lt k h)))
    | inr other ↦ rw other (omega (arith, enough i lt))
  ]

-- An access of an insertion, or one of the doubling after it.
abbrev pub Inserts :
    (new : Ptr) (hash : Ptr → ℕ) (k base fresh : ℕ) → Mem → Mem → Action → Mem → Type 0
Inserts new hash k base fresh m0 m a m' = Keeps new null m a m' ⊎ Grows hash k base fresh m0 m a m'

-- What an insertion leaves, if `matched` says that the bucket has an equal node.
abbrev pub MaybeGrown :
    (k : ℕ) (base fresh : Ptr) (chain : ℕ → List Ptr) (new : Ptr) (h : ℕ)
    → Mem
    → (matched : Bool) → Mem
    → Type 0
MaybeGrown k base fresh chain new h m true m' = m' ≡ rehash m new h
MaybeGrown k base fresh chain new h m false m' =
    (m' ≡ inserted_mem k base chain new h m)
    ⊎ Grown k base fresh (prepended k base chain new h) (inserted_mem k base chain new h m) m'

module _ (load : Load) (predict : Ptr → Ptr → Bool) (fuel k : ℕ) (base fresh : Ptr)
    (chain : ℕ → List Ptr) (new : Ptr) (h : ℕ) (m0 m : Mem) (t : IsTable m k base chain)
    (free : IsFree m k base chain new) (fits : suc k ≤ 30) (unused : IsUnused m fresh (2 ^ suc k))
    (live : fresh ≢ null) (null_free : m.next null ≡ none)
    (heads : (i : ℕ) → i < 2 ^ k → Unlinked m.next (base + i))
    (enough : (i : ℕ) → i < 2 ^ k → length (chain i) + 1 < fuel) where
  abbrev matched : Bool
  matched = any (λ x. predict x new) (chain (h % 2 ^ k))

  grows :
      (m' : Mem)
      → m' ≡ inserted_mem k base chain new h m
      → IsTable m' k base (prepended k base chain new h)
      → Watched
          (Inserts new (rehash m new h).hash k base fresh)
          (λ inserted m0' m''. (inserted ≡ true) × MaybeGrown k base fresh chain new h m false m'')
          (do
            current_size ← act Action.load_size ret
            info ← act Action.load_info ret
            expand_if_necessary load fuel fresh current_size info.nr_buckets_power_of2
            ret true)
          m0
          m'
  unfolding perform
  grows m' is t' = goes refl (inl λ x t off ne r. r) (
      goes (perform-load_info (array k base) m' t'.info) (inl λ x t off ne r. r) (
        subst
          (λ m'.
            Watched (Inserts new (rehash m new h).hash k base fresh)
              (λ inserted m0' m''.
                (inserted ≡ true) × MaybeGrown k base fresh chain new h m false m'')
              (expand_if_necessary load fuel fresh m'.size (2 ^ k) >> ret true) m0 m')
          (sym is)
          (bind-Watched
            (weaken-Watched (λ m0 m a m' g. inr g) (λ r m0 m' g. g)
              (expand_if_necessary-Grown load k base fresh (prepended k base chain new h) fuel
                (inserted_mem k base chain new h m).size (2 ^ k) m0
                (inserted_mem k base chain new h m)
                (subst (λ m'. IsTable m' k base (prepended k base chain new h)) is t') fits
                (inserted-IsUnused k base fresh chain new h m t free unused) live
                (inserted-null k base fresh chain new h m t free null_free)
                (inserted-heads k base fresh chain new h m t free heads)
                (inserted-short k base fresh chain new h m t free fuel enough)))
            λ r m0' m'' left. ends (refl, left))))

  concludes :
      (b inserted : Bool) (m' : Mem)
      → Inserted k base chain new h b m inserted m'
      → Watched
          (Inserts new (rehash m new h).hash k base fresh)
          (λ inserted m0' m''. (inserted ≡ not b) × MaybeGrown k base fresh chain new h m b m'')
          (if inserted
            then (do
              current_size ← act Action.load_size ret
              info ← act Action.load_info ret
              expand_if_necessary load fuel fresh current_size info.nr_buckets_power_of2
              ret true)
            else ret false)
          m0
          m'
  concludes true inserted m' (at, is, t') = rw at (ends (refl, is))
  concludes false inserted m' (at, is, t') = rw at (grows m' is t')

  -- Given a table of `2 ^ k` buckets, `k` at most 29, to whose buckets no cell is linked, a free node,
  -- an unused array for twice as many buckets, no cell at null, and at least two more rounds than each
  -- bucket has nodes, `try_insert` ends without a fault. If the predicate matches a node of the bucket
  -- with the new one, it returns false and only gives the new node its hash. Else it returns true, and
  -- the new node is in front of its bucket and counted; the table may then have been doubled, with each
  -- node in the new bucket of its hash and the old array freed. Each access is one that hides no cell
  -- from a reader that does not stand at the new node, or one of the doubling.
  pub try_insert-MaybeGrown :
      Watched
        (Inserts new (rehash m new h).hash k base fresh)
        (λ inserted m0' m'.
          (inserted ≡ not matched) × MaybeGrown k base fresh chain new h m matched m')
        (try_insert load predict fuel fresh new h)
        m0
        m
  unfolding try_insert
  try_insert-MaybeGrown =
      within_period
        (weaken-Ensures (λ m a m' g. inl g)
          (try_insert_no_expand-Inserted predict fuel k base chain new h m t free
            (omega (arith, enough (h % 2 ^ k) (index-lt k h)))))
        λ inserted m' left. concludes matched inserted m' left
