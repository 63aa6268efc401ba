-- ===== src/Unzip.antt =====
-- What a bucket is while its list is split in two under the eyes of readers, for unzipOneSegment,
-- initTwinDstBuckets and findFirstUnzipPoint of LibSource/RCUHashTable.cpp.
pub mod Segment
pub mod Serve
pub mod Settled
pub mod Effect
pub mod Step
pub mod OneSegment
pub mod PointLoop
pub mod Point
pub mod Array
pub mod Progress
pub mod Rounds
pub mod Reader
pub mod Shared
pub mod Starts
pub mod Twin
use Prim.Native.Nat.{bit_and}
use relativistic_hash_table.Base.{
  ℕ, suc, ◌+◌, ◌<◌, ◌≡◌, ◌≢◌, ◌⊎◌, Bool, true, false, ◌||◌, some, List, [], ◌∷◌, ◌++◌, ◌==◌, ◌∈◌,
  ◌∉◌, all, filter, length,
}
use relativistic_hash_table.Memory.{Ptr, null, Mem, Action}
use relativistic_hash_table.Memory.Chain.{IsSlist}
use relativistic_hash_table.Memory.Leads.{Leads, Unlinked}
use relativistic_hash_table.Memory.Trace.{is_synchronize}

-- Every place that a reader of a bucket below `nr` may have reached since the memory was `m0` leads, in
-- `m`, to such a place.
abbrev pub Stays : (fresh nr : ℕ) → (m0 m : Mem) → Type 0
Stays fresh nr m0 m =
    (c x y : ℕ)
    → c < nr
    → Leads m0.next x (fresh + c)
    → m.next x ≡ some y
    → Leads m0.next y (fresh + c)

module _ (hash : Ptr → ℕ) (mask : ℕ) where
  -- the test whether a node belongs to the new bucket `c`
  abbrev pub is : ℕ → Ptr → Bool
  is c x = bit_and (hash x) mask == c

  -- An access that serves every reader that has entered one of the `nr` buckets at `fresh` since the
  -- memory was `m0`: it can still reach each node of its own bucket that it could reach, and it is not
  -- led to a new place.
  pub record Serves (fresh nr : ℕ) (m0 m : Mem) (a : Action) (m' : Mem) : Type 0 where
    pub no_wait : is_synchronize a ≡ false
    pub finds :
        (c x t : ℕ)
        → c < nr
        → Leads m0.next x (fresh + c)
        → is c t ≡ true
        → t ≢ null
        → Leads m.next t x
        → Leads m'.next t x
    pub stays : Stays fresh nr m0 m → Stays fresh nr m0 m'

  module _ (fresh src : Ptr) (nodes : List Ptr) where
    -- The old bucket `src` points to `zipper`, the last node of a segment for the bucket `c`. Behind it
    -- comes `rest`, which starts with a segment for the bucket `d`. The readers of `c` meet `front`
    -- first, all of their own bucket, and those of `d` meet `passed` and then `rest`.
    pub record Zip (c d n : ℕ) (m : Mem) : Type 0 where
      pub zipper : Ptr
      pub front : List Ptr
      pub passed : List Ptr
      pub turn : Ptr
      pub rest : List Ptr
      pub at_zipper : m.next src ≡ some zipper
      pub list : IsSlist m.next (fresh + c) (front ++ zipper ∷ turn ∷ rest)
      pub other : IsSlist m.next (fresh + d) (passed ++ turn ∷ rest)
      pub own_front : all (is c) (front ++ zipper ∷ []) ≡ true
      pub own_passed : all (is d) passed ≡ true
      pub turns : is d turn ≡ true
      pub two : all (λ x. is c x || is d x) rest ≡ true
      pub content : filter (is c) (front ++ zipper ∷ turn ∷ rest) ≡ filter (is c) nodes
      pub other_content : filter (is d) (passed ++ turn ∷ rest) ≡ filter (is d) nodes
      pub in_nodes : (a : Ptr) → a ∈ (front ++ zipper ∷ turn ∷ rest) → a ∈ nodes
      pub passed_in_nodes : (a : Ptr) → a ∈ passed → a ∈ nodes
      pub enough : length rest + 1 < n

    -- The old bucket is empty, and each new one has its own nodes.
    pub record Unzipped (c d : ℕ) (m : Mem) : Type 0 where
      pub at_end : m.next src ≡ some null
      pub list : IsSlist m.next (fresh + c) (filter (is c) nodes)
      pub other : IsSlist m.next (fresh + d) (filter (is d) nodes)

    -- The bucket with at most `n` nodes left to unzip.
    pub data Zipping (c d n : ℕ) (m : Mem) : Type 0 where
      unzipped : Unzipped c d m → Zipping c d n m
      zip : Zip c d n m → Zipping c d n m
      zip_other : Zip d c n m → Zipping c d n m

-- What work on one bucket changes.
pub record Touches (src : Ptr) (nodes : List Ptr) (m m' : Mem) : Type 0 where
  pub outside : (a : Ptr) → a ≢ src → a ∉ nodes → m'.next a ≡ m.next a
  pub unlinked : (p : Ptr) → p ≢ null → p ∉ nodes → Unlinked m.next p → Unlinked m'.next p
  pub same_hash : m'.hash ≡ m.hash
  pub same_info : m'.buckets_info ≡ m.buckets_info
  pub same_size : m'.size ≡ m.size
