-- ===== src/Unzip/Twin.antt =====
-- initTwinDstBuckets: the two new buckets of an old one enter its list at their own first nodes.
use Prim.Native.Nat.{bit_and}
use relativistic_hash_table.Base.{
  ℕ, zero, suc, ◌<◌, ◌≡◌, ◌≢◌, inl, inr, refl, sym, ◌∙◌, Bool, true, false, not, ◌&&◌, ◌||◌, none,
  some, List, [], ◌∷◌, ◌==◌, arith, eq_false, subst, Bool-cases, if◌then◌else◌, all, drop_until,
  length,
}
use relativistic_hash_table.Memory.{Ptr, null, Mem, store_next, put, ◌>>◌}
use relativistic_hash_table.Memory.Chain.{first, Chain, put_other}
use relativistic_hash_table.Memory.Ensures.{
  Ensures, returns, loads, stores, gets_hash, relink, bind-Ensures, mono, takes_then, takes_else,
}
use relativistic_hash_table.Memory.Leads.{Keeps, Leads-put_end}
use relativistic_hash_table.Buckets.{twin_loop, init_twin_dst_buckets, compute_hash_bucket_id}
use relativistic_hash_table.Unzip.{is}

module _ (mask c d : ℕ) (apart : c ≢ d) (m : Mem) where
  abbrev in_c : Ptr → Bool
  in_c = is m.hash mask c

  abbrev in_d : Ptr → Bool
  in_d = is m.hash mask d

  -- the first member, if none has been found before
  abbrev pick : (p : Ptr → Bool) (found : Ptr) (xs : List Ptr) → Ptr
  pick p found xs = if found == null then first (drop_until p xs) null else found

  abbrev pair : Ptr → Ptr → Ptr × Ptr
  pair a b = (a, b)

  abbrev Picked : (found0 found1 : Ptr) (xs : List Ptr) → Ptr × Ptr → Mem → Type 0
  Picked found0 found1 xs r m' = (m' ≡ m) × (r ≡ (pick in_c found0 xs, pick in_d found1 xs))

  not_both : (x : Ptr) → in_c x ≡ true → in_d x ≡ false
  not_both x e = ground (arith, e, apart)

  -- what the loop has found after the node `x`
  abbrev next0 : (found0 x : Ptr) → Ptr
  next0 found0 x = if (found0 == null) && in_c x then x else found0

  abbrev next1 : (found0 found1 x : Ptr) → Ptr
  next1 found0 found1 x =
      if not ((found0 == null) && in_c x) && ((found1 == null) && in_d x) then x else found1

  pick-next0 :
      (found0 x : Ptr) (xs : List Ptr)
      → x ≢ null
      → pick in_c (next0 found0 x) xs ≡ pick in_c found0 (x ∷ xs)
  pick-next0 found0 x xs live = ground (arith, live)

  pick-next1 :
      (found0 found1 x : Ptr) (xs : List Ptr)
      → x ≢ null
      → pick in_d (next1 found0 found1 x) xs ≡ pick in_d found1 (x ∷ xs)
  pick-next1 found0 found1 x xs live = ground (arith, live, not_both x)

  module _ (x : Ptr) (xs : List Ptr) (found0 found1 : Ptr) (live : x ≢ null) where
    Picked-next :
        (r : Ptr × Ptr) (m' : Mem)
        → Picked (next0 found0 x) (next1 found0 found1 x) xs r m'
        → Picked found0 found1 (x ∷ xs) r m'
    Picked-next r m' (same, e) =
        (same, e ∙ pair_of (pick-next0 found0 x xs live) (pick-next1 found0 found1 x xs live))
      where
        pair_of : {a b a' b' : Ptr} → a ≡ a' → b ≡ b' → pair a b ≡ pair a' b'
        pair_of e e' = rw (e, e') refl

    both_found :
        (not (next0 found0 x == null) && not (next1 found0 found1 x == null)) ≡ true
        → Picked
            (next0 found0 x)
            (next1 found0 found1 x)
            xs
            (next0 found0 x, next1 found0 found1 x)
            m
    both_found both = (refl, settled (next0 found0 x) (next1 found0 found1 x) both)
      where
        settled :
            (a b : Ptr)
            → (not (a == null) && not (b == null)) ≡ true
            → pair a b ≡ pair (pick in_c a xs) (pick in_d b xs)
        settled a b both = ground (arith, both)

  twin_loop_lem :
      (fuel : ℕ) (xs : List Ptr) (found0 found1 : Ptr)
      → Chain m.next null xs
      → all (λ x. in_c x || in_d x) xs ≡ true
      → length xs < fuel
      → Ensures
          (Keeps null null)
          (Picked found0 found1 xs)
          (twin_loop fuel (first xs null) found0 found1 c d mask)
          m
  unfolding twin_loop compute_hash_bucket_id
  twin_loop_lem zero xs found0 found1 chain two enough = absurd (omega (arith, enough))
  twin_loop_lem (suc fuel) [] found0 found1 chain two enough = returns (refl, ground arith)
  twin_loop_lem (suc fuel) (x ∷ xs) found0 found1 chain two enough = rw (eq_false x null chain.0) (
      gets_hash chain.1 (λ y t off ne r. r)
        (takes_else _ _ valid
          (elim (Bool-cases (not (next0 found0 x == null) && not (next1 found0 found1 x == null))) [
            | inl both ↦ takes_then _ _ both (
                returns (
                  Picked-next x xs found0 found1 chain.0 (next0 found0 x, next1 found0 found1 x) m
                    (both_found x xs found0 found1 chain.0 both)))
            | inr open_one ↦ takes_else _ _ open_one (
                loads chain.1 (λ y t off ne r. r)
                  (mono
                    (twin_loop_lem fuel xs (next0 found0 x) (next1 found0 found1 x) chain.3
                      (ground (arith, two)) (omega (arith, enough)))
                    (Picked-next x xs found0 found1 chain.0)))
          ])))
    where
      valid : not ((bit_and (m.hash x) mask == c) || (bit_and (m.hash x) mask == d)) ≡ false
      valid = ground (arith, two)

  abbrev pub entered : (dst0 dst1 : Ptr) (xs : List Ptr) → Mem
  entered dst0 dst1 xs =
      relink (relink m dst0 (first (drop_until in_c xs) null)) dst1
        (first (drop_until in_d xs) null)

  pub init_twin_dst_buckets_lem :
      (fuel : ℕ) (src dst0 dst1 : Ptr) (xs : List Ptr)
      → m.next src ≡ some (first xs null)
      → m.next dst0 ≡ some null
      → m.next dst1 ≡ some null
      → dst0 ≢ dst1
      → dst0 ≢ null
      → m.next null ≡ none
      → Chain m.next null xs
      → all (λ x. in_c x || in_d x) xs ≡ true
      → length xs < fuel
      → Ensures
          (Keeps null null)
          (λ r m'. m' ≡ entered dst0 dst1 xs)
          (init_twin_dst_buckets fuel src dst0 dst1 c d mask)
          m
  unfolding init_twin_dst_buckets
  init_twin_dst_buckets_lem fuel src dst0 dst1 xs e e0 e1 other live null_free chain two enough =
      loads e (λ y t off ne r. r)
        (bind-Ensures (twin_loop_lem fuel xs null null chain two enough) λ r m' (same, found).
          subst
            (λ m'.
              Ensures (Keeps null null) (λ r m'. m' ≡ entered dst0 dst1 xs)
                (store_next dst0 r.0 >> store_next dst1 r.1) m')
            (sym same)
            (subst
              (λ r.
                Ensures (Keeps null null) (λ r m'. m' ≡ entered dst0 dst1 xs)
                  (store_next dst0 r.0 >> store_next dst1 r.1) m)
              (sym found)
              (stores (first (drop_until in_c xs) null) e0
                (λ y t off ne r.
                  Leads-put_end dst0 (first (drop_until in_c xs) null) null_free e0 ne r)
                (stores (first (drop_until in_d xs) null) end1
                  (λ y t off ne r.
                    Leads-put_end dst1 (first (drop_until in_d xs) null) null_free1 end1 ne r)
                  (returns refl)))))
    where
      end1 : put m.next dst0 (some (first (drop_until in_c xs) null)) dst1 ≡ some null
      end1 =
          put_other m.next dst0 (some (first (drop_until in_c xs) null)) dst1 (λ e. other (sym e))
          ∙ e1

      null_free1 : put m.next dst0 (some (first (drop_until in_c xs) null)) null ≡ none
      null_free1 =
          put_other m.next dst0 (some (first (drop_until in_c xs) null)) null (λ e. live (sym e))
          ∙ null_free
