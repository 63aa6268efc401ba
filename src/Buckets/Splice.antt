-- ===== src/Buckets/Splice.antt =====
-- shrinkTwoBucketsToOne: two lists become one while readers walk them.
use mathlib.Core.List.{append-nil}
use relativistic_hash_table.Base.{
  ℕ, zero, suc, ◌<◌, ◌≡◌, ◌≢◌, refl, ◌∙◌, ap, none, some, List, [], ◌∷◌, ◌++◌, arith, eq_false,
  length, ◌∈◌, ◌∉◌, has-append, ne_of_mem, ne_of_not_mem,
}
use relativistic_hash_table.Memory.{Ptr, null, Mem, put}
use relativistic_hash_table.Memory.Ensures.{Ensures, returns, loads, stores, relink, bind-Ensures}
use relativistic_hash_table.Memory.Chain.{
  first, Chain, IsSlist, Chain-put, Chain-put_last, Chain-append, last_of, last_of-mem,
  last_of-stop, put_other,
}
use relativistic_hash_table.Memory.Leads.{Keeps, Leads-put_end}
use relativistic_hash_table.Buckets.{last_loop, shrink_two_buckets_to_one}

last_loop-last_of :
    (fuel : ℕ) (x : Ptr) (xs : List Ptr) (m : Mem)
    → Chain m.next null (x ∷ xs)
    → length (x ∷ xs) < suc fuel
    → Ensures (Keeps null null) (λ p m'. (p ≡ last_of x xs) × (m' ≡ m)) (last_loop fuel x) m
unfolding last_loop
last_loop-last_of zero x xs m c enough = absurd (omega arith)
last_loop-last_of (suc fuel) x [] m c enough = loads c.1 (λ y t off ne r. r) (returns (refl, refl))
last_loop-last_of (suc fuel) x (y ∷ ys) m c enough =
    loads c.1 (λ y t off ne r. r)
      (rw (eq_false y null c.3.0) (last_loop-last_of fuel y ys m c.3 (omega arith)))

-- Two lists that may be spliced into the bucket `dst`: they share no node, and `dst` is an empty
-- bucket of its own.
pub record AreApart (m : Mem) (src0 src1 dst : Ptr) (xs ys : List Ptr) : Type 0 where
  pub list0 : IsSlist m.next src0 xs
  pub list1 : IsSlist m.next src1 ys
  pub apart : (a : Ptr) → a ∈ xs → a ∉ ys
  pub ne_null : dst ≢ null
  pub is_empty : m.next dst ≡ some null
  pub outside0 : dst ∉ xs
  pub outside1 : dst ∉ ys
  pub null_free : m.next null ≡ none

-- What the splice leaves: `dst` has the nodes of both lists, and no other cell than `dst` and the
-- nodes of the first list has another link.
pub record Spliced (m : Mem) (dst : Ptr) (xs ys : List Ptr) (m' : Mem) : Type 0 where
  pub chain : IsSlist m'.next dst (xs ++ ys)
  pub outside : (a : Ptr) → a ∉ (dst ∷ xs) → m'.next a ≡ m.next a
  pub same_hash : m'.hash ≡ m.hash
  pub same_info : m'.buckets_info ≡ m.buckets_info
  pub same_size : m'.size ≡ m.size

module _ (m : Mem) (src0 src1 dst : Ptr) where
  -- One list is empty, and `dst` gets the other one.
  point_to :
      (xs : List Ptr)
      → dst ≢ null
      → dst ∉ xs
      → Chain m.next null xs
      → IsSlist (put m.next dst (some (first xs null))) dst xs
  point_to xs ne out c = (ne, ground arith, out, Chain-put m.next null dst (first xs null) xs c out)

  alone0 :
      (xs : List Ptr)
      → AreApart m src0 src1 dst xs []
      → Spliced m dst xs [] (relink m dst (first xs null))
  alone0 xs a = record {
    chain = rw (append-nil xs) (point_to xs a.ne_null a.outside0 a.list0.3);
    outside = λ b out. ground arith;
    same_hash = refl;
    same_info = refl;
    same_size = refl;
  }

  alone1 :
      (ys : List Ptr)
      → AreApart m src0 src1 dst [] ys
      → Spliced m dst [] ys (relink m dst (first ys null))
  alone1 ys a = record {
    chain = point_to ys a.ne_null a.outside1 a.list1.3;
    outside = λ b out. ground arith;
    same_hash = refl;
    same_info = refl;
    same_size = refl;
  }

  module _ (x : Ptr) (xs : List Ptr) (y : Ptr) (ys : List Ptr)
      (a : AreApart m src0 src1 dst (x ∷ xs) (y ∷ ys)) where
    -- the first list, ending in the second one
    joined : Chain (put m.next (last_of x xs) (some y)) null ((x ∷ xs) ++ y ∷ ys)
    joined =
        Chain-append (put m.next (last_of x xs) (some y)) null (x ∷ xs) (y ∷ ys)
          (Chain-put_last m.next null y x xs a.list0.3)
          (Chain-put m.next null (last_of x xs) y (y ∷ ys) a.list1.3
            (a.apart (last_of x xs) (last_of-mem x xs)))
          a.apart

    dst_out : dst ∉ ((x ∷ xs) ++ y ∷ ys)
    dst_out = rw (has-append dst (x ∷ xs) (y ∷ ys), a.outside0) a.outside1

    both : Spliced m dst (x ∷ xs) (y ∷ ys) (relink (relink m (last_of x xs) y) dst x)
    both = record {
      chain = (
        a.ne_null,
        ground arith,
        dst_out,
        Chain-put (put m.next (last_of x xs) (some y)) null dst x ((x ∷ xs) ++ y ∷ ys) joined
            dst_out,
      );
      outside = λ b out.
          put_other (put m.next (last_of x xs) (some y)) dst (some x) b (ne_of_not_mem (x ∷ xs) out)
          ∙ put_other m.next (last_of x xs) (some y) b
              (ne_of_mem (x ∷ xs) (behind b out) (last_of-mem x xs));
      same_hash = refl;
      same_info = refl;
      same_size = refl;
    }
      where
        behind : (b : Ptr) → b ∉ (dst ∷ x ∷ xs) → b ∉ (x ∷ xs)
        behind b out = ground arith

  -- The two lists become one in `dst`, given more rounds than the first one has nodes. At every moment
  -- a reader in either of the old buckets can reach all that it could reach before.
  pub shrink_two_buckets_to_one-Spliced :
      (fuel : ℕ) (xs ys : List Ptr)
      → AreApart m src0 src1 dst xs ys
      → length xs < suc fuel
      → Ensures
          (Keeps null null)
          (λ _. Spliced m dst xs ys)
          (shrink_two_buckets_to_one fuel src0 src1 dst)
          m
  unfolding shrink_two_buckets_to_one
  shrink_two_buckets_to_one-Spliced fuel xs [] a enough =
      loads a.list0.1 (λ y t off ne r. r)
        (loads a.list1.1 (λ y t off ne r. r)
          (stores (first xs null) a.is_empty
            (λ y t off ne r. Leads-put_end dst (first xs null) a.null_free a.is_empty ne r)
            (returns (alone0 xs a))))
  shrink_two_buckets_to_one-Spliced fuel [] (y ∷ ys) a enough =
      loads a.list0.1 (λ y t off ne r. r)
        (loads a.list1.1 (λ y t off ne r. r)
          (rw (eq_false y null a.list1.3.0) (
            stores y a.is_empty (λ z t off ne r. Leads-put_end dst y a.null_free a.is_empty ne r)
              (returns (alone1 (y ∷ ys) a)))))
  shrink_two_buckets_to_one-Spliced fuel (x ∷ xs) (y ∷ ys) a enough =
      loads a.list0.1 (λ y t off ne r. r)
        (loads a.list1.1 (λ y t off ne r. r)
          (rw (eq_false y null a.list1.3.0, eq_false x null a.list0.3.0)
            (bind-Ensures (last_loop-last_of fuel x xs m a.list0.3 enough) λ p m' (at, same).
              rw (at, same)
                (stores y (last_of-stop m.next null x xs a.list0.3)
                  (λ z t off ne r.
                    Leads-put_end (last_of x xs) y a.null_free
                      (last_of-stop m.next null x xs a.list0.3) ne r)
                  (stores x (still a)
                    (λ z t off ne r. Leads-put_end dst x (null_still a) (still a) ne r)
                    (returns (both x xs y ys a)))))))
    where
      still :
          AreApart m src0 src1 dst (x ∷ xs) (y ∷ ys)
          → put m.next (last_of x xs) (some y) dst ≡ some null
      still a =
          put_other m.next (last_of x xs) (some y) dst
            (ne_of_mem (x ∷ xs) a.outside0 (last_of-mem x xs))
          ∙ a.is_empty

      null_still :
          AreApart m src0 src1 dst (x ∷ xs) (y ∷ ys)
          → put m.next (last_of x xs) (some y) null ≡ none
      null_still a =
          put_other m.next (last_of x xs) (some y) null
            (λ e. cc (ap m.next e, a.null_free, last_of-stop m.next null x xs a.list0.3))
          ∙ a.null_free
