-- ===== src/Table/Doubling.antt =====
-- The loop of expandBucketsByFac2ReturnOld over the buckets of the old array.
use relativistic_hash_table.Base.{
  ℕ, suc, ◌+◌, ◌^◌, ◌≤◌, ◌<◌, ◌≡◌, ◌≢◌, inl, inr, sym, ◌∙◌, false, Option, none, some, List, ◌∷◌,
  ◌==◌, arith, subst, ==→eq, ==_false, Bool-cases, drop_until, length,
}
use relativistic_hash_table.Memory.{Ptr, null, Links, Mem, Prog, put, within}
use relativistic_hash_table.Memory.Ensures.{Ensures, mono}
use relativistic_hash_table.Memory.Chain.{first, IsSlist, Chain-frame, put_other}
use relativistic_hash_table.Memory.Leads.{Keeps}
use relativistic_hash_table.Buckets.{for_each, init_twin_dst_buckets}
use relativistic_hash_table.Buckets.Setup.{for_each-Ensures, IsUnused, HasEmpty}
use relativistic_hash_table.Unzip.{is}
use relativistic_hash_table.Unzip.Twin.{init_twin_dst_buckets_lem, entered}
use relativistic_hash_table.Table.Shape.{IsTable}
use relativistic_hash_table.Table.Halving.{double, low-lt, high-lt}
use relativistic_hash_table.Table.Twice.{mask, two_buckets, unfresh}

put_here : (next : Links) (p : Ptr) (v : Option Ptr) → put next p v p ≡ v
put_here next p v = ground arith

module _ (k : ℕ) (base fresh : Ptr) (chain : ℕ → List Ptr) (m : Mem) (t : IsTable m k base chain)
    (fits : suc k ≤ 30) where
  module _ (unused : IsUnused m fresh (2 ^ suc k)) (null_free : m.next null ≡ none) where
    -- The memory when the old buckets below `i` are done. Only the new array has changed.
    pub record Split (i : ℕ) (m' : Mem) : Type 0 where
      pub cells : (a : Ptr) → within fresh (2 ^ suc k) a ≡ false → m'.next a ≡ m.next a
      pub done0 :
          (j : ℕ)
          → j < 2 ^ k
          → j < i
          → m'.next (fresh + j) ≡ some (first (drop_until (is m'.hash (mask k) j) (chain j)) null)
      pub done1 :
          (j : ℕ)
          → j < 2 ^ k
          → j < i
          → m'.next (fresh + (j + 2 ^ k))
            ≡ some (first (drop_until (is m'.hash (mask k) (j + 2 ^ k)) (chain j)) null)
      pub empty0 : (j : ℕ) → j < 2 ^ k → i ≤ j → m'.next (fresh + j) ≡ some null
      pub empty1 : (j : ℕ) → j < 2 ^ k → i ≤ j → m'.next (fresh + (j + 2 ^ k)) ≡ some null
      pub same_hash : m'.hash ≡ m.hash
      pub same_info : m'.buckets_info ≡ m.buckets_info
      pub same_size : m'.size ≡ m.size

    Split-start : (m' : Mem) → HasEmpty m fresh (2 ^ suc k) m' → Split 0 m'
    Split-start m' e = record {
      cells = λ a out. ground (arith, e.cells a, out);
      done0 = λ j lt below. absurd (omega (arith, below));
      done1 = λ j lt below. absurd (omega (arith, below));
      empty0 = λ j lt le. ground (arith, e.cells (fresh + j), double k);
      empty1 = λ j lt le. ground (arith, e.cells (fresh + (j + 2 ^ k)), double k);
      same_hash = e.same_hash;
      same_info = e.same_info;
      same_size = e.same_size;
    }

    -- The old buckets are as before.
    pub old_list :
        (i : ℕ) (m' : Mem) → Split i m' → (j : ℕ) → j < 2 ^ k → IsSlist m'.next (base + j) (chain j)
    old_list i m' s j lt =
        Chain-frame m.next m'.next null ((base + j) ∷ chain j) (t.lists j lt)
          λ a at. s.cells a (unfresh k base fresh chain m t fits unused null_free j a lt at)

    module _ (i : ℕ) (lt : i < 2 ^ k) (m' : Mem) (s : Split i m') where
      abbrev after : Mem
      after =
          entered (mask k) i (i + 2 ^ k) (λ e. absurd (omega (arith, e, lt))) m' (fresh + i)
            (fresh + (i + 2 ^ k)) (chain i)

      at0 :
          after.next (fresh + i) ≡ some (first (drop_until (is m'.hash (mask k) i) (chain i)) null)
      at0 =
          put_other
            (put m'.next (fresh + i)
              (some (first (drop_until (is m'.hash (mask k) i) (chain i)) null)))
            (fresh + (i + 2 ^ k))
            (some (first (drop_until (is m'.hash (mask k) (i + 2 ^ k)) (chain i)) null)) (fresh + i)
            (λ e. absurd (omega (arith, e, lt)))
          ∙ put_here m'.next (fresh + i)
              (some (first (drop_until (is m'.hash (mask k) i) (chain i)) null))

      at1 :
          after.next (fresh + (i + 2 ^ k))
          ≡ some (first (drop_until (is m'.hash (mask k) (i + 2 ^ k)) (chain i)) null)
      at1 =
          put_here
            (put m'.next (fresh + i)
              (some (first (drop_until (is m'.hash (mask k) i) (chain i)) null)))
            (fresh + (i + 2 ^ k))
            (some (first (drop_until (is m'.hash (mask k) (i + 2 ^ k)) (chain i)) null))

      off : (a : Ptr) → a ≢ fresh + i → a ≢ fresh + (i + 2 ^ k) → after.next a ≡ m'.next a
      off a ne0 ne1 =
          put_other
            (put m'.next (fresh + i)
              (some (first (drop_until (is m'.hash (mask k) i) (chain i)) null)))
            (fresh + (i + 2 ^ k))
            (some (first (drop_until (is m'.hash (mask k) (i + 2 ^ k)) (chain i)) null)) a ne1
          ∙ put_other m'.next (fresh + i)
              (some (first (drop_until (is m'.hash (mask k) i) (chain i)) null)) a ne0

      off0 : (j : ℕ) → j < 2 ^ k → j ≢ i → after.next (fresh + j) ≡ m'.next (fresh + j)
      off0 j lt' ne =
          off (fresh + j) (λ e. ne (omega (arith, e))) (λ e. absurd (omega (arith, e, lt')))

      off1 :
          (j : ℕ)
          → j < 2 ^ k
          → j ≢ i
          → after.next (fresh + (j + 2 ^ k)) ≡ m'.next (fresh + (j + 2 ^ k))
      off1 j lt' ne =
          off (fresh + (j + 2 ^ k)) (λ e. absurd (omega (arith, e, lt)))
            (λ e. ne (omega (arith, e)))

      Split-next : Split (i + 1) after
      Split-next = record {
        cells = λ a out.
            off a (λ e. absurd (in_new i (low-lt k i lt) out e))
              (λ e. absurd (in_new (i + 2 ^ k) (high-lt k i lt) out e))
            ∙ s.cells a out;
        done0 = λ j lt' below. elim (Bool-cases (j == i)) [
          | inl e ↦
              subst
                (λ j.
                  after.next (fresh + j)
                  ≡ some (first (drop_until (is m'.hash (mask k) j) (chain j)) null))
                (sym (==→eq j i e)) at0
          | inr e ↦ off0 j lt' (==_false j i e) ∙ s.done0 j lt' (ground (arith, e, below))
        ];
        done1 = λ j lt' below. elim (Bool-cases (j == i)) [
          | inl e ↦
              subst
                (λ j.
                  after.next (fresh + (j + 2 ^ k))
                  ≡ some (first (drop_until (is m'.hash (mask k) (j + 2 ^ k)) (chain j)) null))
                (sym (==→eq j i e)) at1
          | inr e ↦ off1 j lt' (==_false j i e) ∙ s.done1 j lt' (ground (arith, e, below))
        ];
        empty0 = λ j lt' le.
            off0 j lt' (λ e. absurd (omega (arith, e, le))) ∙ s.empty0 j lt' (omega (arith, le));
        empty1 = λ j lt' le.
            off1 j lt' (λ e. absurd (omega (arith, e, le))) ∙ s.empty1 j lt' (omega (arith, le));
        same_hash = s.same_hash;
        same_info = s.same_info;
        same_size = s.same_size;
      }
        where
          in_new :
              {a : Ptr} (j : ℕ) → j < 2 ^ suc k → within fresh (2 ^ suc k) a ≡ false → a ≢ fresh + j
          in_new j in_range out e = ground (arith, in_range, out, e)

    -- the whole loop
    pub all_entered :
        (fuel : ℕ) (m' : Mem)
        → fresh ≢ null
        → ((i : ℕ) → i < 2 ^ k → length (chain i) < fuel)
        → HasEmpty m fresh (2 ^ suc k) m'
        → Ensures
            (Keeps null null)
            (λ _. Split (2 ^ k))
            (for_each (2 ^ k) 0 (λ i.
              init_twin_dst_buckets fuel
                (base + i)
                (fresh + i)
                (fresh + (i + 2 ^ k))
                i
                (i + 2 ^ k)
                (mask k)))
            m'
    all_entered fuel m' live enough e =
        subst (λ n. Ensures (Keeps null null) (λ _. Split n) (for_each (2 ^ k) 0 body) m') no_offset
          (for_each-Ensures Split (2 ^ k) 0 body m'
            (λ i now low high s.
              let lt : i < 2 ^ k = omega (arith, high) in
              mono
                (init_twin_dst_buckets_lem (mask k) i (i + 2 ^ k)
                  (λ e. absurd (omega (arith, e, lt))) now fuel (base + i) (fresh + i)
                  (fresh + (i + 2 ^ k)) (chain i) (old_list i now s i lt).1
                  (s.empty0 i lt (omega arith)) (s.empty1 i lt (omega arith))
                  (λ e. absurd (omega (arith, e, lt))) (λ e. live (omega (arith, e)))
                  (s.cells null null_out ∙ null_free) (old_list i now s i lt).3
                  (two_buckets k base fresh chain m t fits now.hash i s.same_hash lt) (enough i lt))
                λ _ m'' same. subst (Split (i + 1)) (sym same) (Split-next i lt now s))
            (Split-start m' e))
      where
        body : ℕ → Prog (Unit {0})
        body i =
            init_twin_dst_buckets fuel (base + i) (fresh + i) (fresh + (i + 2 ^ k)) i (i + 2 ^ k)
              (mask k)

        no_offset : 0 + 2 ^ k ≡ 2 ^ k
        no_offset = omega arith

        null_out : within fresh (2 ^ suc k) null ≡ false
        null_out = ground (arith, live)
