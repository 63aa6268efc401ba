-- ===== src/Unzip/Starts.antt =====
-- findFirstUnzipStarts.
use Prim.Native.Nat.{◌≤◌}
use relativistic_hash_table.Base.{
  ℕ, zero, suc, ◌+◌, ◌<◌, ◌≡◌, ◌≢◌, ◌⊎◌, inl, inr, refl, sym, ap, ◌∙◌, Bool, true, false, ◌||◌,
  some, List, [], ◌∷◌, ◌∈◌, arith, eq_false, subst, Bool-cases, if◌then◌else◌, all, drop_until,
  filter, all_swap, has,
}
use relativistic_hash_table.Memory.{Ptr, null, Mem}
use relativistic_hash_table.Memory.Chain.{first, IsSlist}
use relativistic_hash_table.Memory.Ensures.{Ensures, returns, bind-Ensures, takes_else, mono}
use relativistic_hash_table.Resize.{starts_loop}
use relativistic_hash_table.Buckets.{find_first_unzip_point}
use relativistic_hash_table.Unzip.{is, Serves, unzipped, zip, zip_other, Touches}
use relativistic_hash_table.Unzip.Settled.{false_ne_true}
use relativistic_hash_table.Unzip.Segment.{loads_quietly}
use relativistic_hash_table.Unzip.Point.{find_first_unzip_point_lem}
use relativistic_hash_table.Unzip.Array.{
  Apart, Round, Round-Settled, Round-Settled_other, touches_own,
}
use relativistic_hash_table.Unzip.Progress.{
  swap-Zipping, swap-Unzipped, old, Bucket, Done, Progress, Progress-skip, Progress-next,
}
use relativistic_hash_table.Unzip.Shared.{Shared, Shared-frame, Lists}

module _ (hash : Ptr → ℕ) (mask fresh base half : ℕ) (chain : ℕ → List Ptr) where
  abbrev Search : (n i : ℕ) → Bool → Mem → Mem → Type 0
  Search n i =
      Progress hash mask fresh base half chain (Shared hash mask fresh base half chain) 0 n i

  module _ (apart : Apart fresh base half chain) (n i : ℕ) (lt : i < half) (m0 m : Mem) where
    -- The stores of the search go to the old buckets only.
    Round-keep :
        (m' : Mem)
        → Touches (base + i) (chain i) m m'
        → ((a : Ptr) → a ≢ base + i → m'.next a ≡ m.next a)
        → Round hash fresh base half chain 0 m0 m
        → Round hash fresh base half chain 0 m0 m'
    Round-keep m' t off r = record {
      same_hash = t.same_hash ∙ r.same_hash;
      same_info = t.same_info ∙ r.same_info;
      same_size = t.same_size ∙ r.same_size;
      null_free = off null (λ e. apart.base_live (omega (arith, e))) ∙ r.null_free;
      null_free0 = r.null_free0;
      heads = λ j j_lt.
          t.unlinked (base + j) (λ e. apart.base_live (omega (arith, e)))
            (apart.base_out j i j_lt lt) (r.heads j j_lt);
      heads0 = r.heads0;
      agree = λ j a le j_lt at. r.agree j a le j_lt at ∙ sym (off a (elsewhere j a j_lt at));
    }
      where
        elsewhere :
            (j a : ℕ) → j < half → a ∈ ((fresh + j) ∷ (fresh + (j + half)) ∷ chain j) → a ≢ base + i
        elsewhere j a j_lt at e = absurd (
            ground (
              arith,
              e,
              at,
              apart.base_off i j lt (omega (arith, j_lt)),
              apart.base_off i (j + half) lt (omega (arith, j_lt)),
              apart.base_out i j lt j_lt,
            ))

    Round-from : Round hash fresh base half chain 0 m0 m → Round hash fresh base half chain i m0 m
    Round-from r = record {
      same_hash = r.same_hash;
      same_info = r.same_info;
      same_size = r.same_size;
      null_free = r.null_free;
      null_free0 = r.null_free0;
      heads = r.heads;
      heads0 = r.heads0;
      agree = λ j a le. r.agree j a (omega arith);
    }

    -- An empty bucket is passed over.
    empty :
        chain i ≡ []
        → Shared hash mask fresh base half chain i m
        → Done hash mask fresh base half chain i m
    empty none_left s = record {
      at_end = s.head ∙ ap (λ l. some (first l null)) none_left;
      list =
          subst (λ l. IsSlist m.next (fresh + i) l)
            (ap (drop_until (is hash mask i)) none_left
              ∙ sym (ap (filter (is hash mask i)) none_left))
            s.entry0;
      other =
          subst (λ l. IsSlist m.next (fresh + (i + half)) l)
            (ap (drop_until (is hash mask (i + half))) none_left
              ∙ sym (ap (filter (is hash mask (i + half))) none_left))
            s.entry1;
    }

    -- What the search in one bucket finds.
    abbrev Left : Bool → Mem → Type 0
    Left left m' =
        (Bucket hash mask fresh base half chain n i m'
          × ((left ≡ false) → Done hash mask fresh base half chain i m')
          × ((left ≡ true) → 0 < n))
        × Touches (base + i) (chain i) m m'
        × ((a : Ptr) → a ≢ base + i → m'.next a ≡ m.next a)

    found :
        (lists : Lists hash mask fresh base half chain n)
        (r : Round hash fresh base half chain 0 m0 m)
        (s : Shared hash mask fresh base half chain i m) (fuel : ℕ) (x : Ptr) (xs : List Ptr)
        → chain i ≡ x ∷ xs
        → n ≤ fuel
        → Ensures
            (Serves hash mask fresh (half + half) m0)
            Left
            (find_first_unzip_point fuel (base + i) mask)
            m
    found lists r s fuel x xs whole enough = elim (Bool-cases (is hash mask i x)) [
      | inl own ↦
          mono
            (find_first_unzip_point_lem hash mask fresh (half + half) (base + i) (chain i) i
              (i + half) n m0 m
              (Round-Settled hash fresh base half chain apart i lt m0 m (Round-from r))
              (subst (λ l. IsSlist m.next (fresh + i) l)
                (ap (drop_until (is hash mask i)) whole ∙ rw own (sym whole)) s.entry0)
              s.entry1 (lists.two i lt) (lists.short i lt) fuel x xs whole head own enough)
            λ left m' (result, t, off). (
              elim result [
                | inl (e, z) ↦ (
                  zip z,
                  (λ e'. absurd (false_ne_true (sym e' ∙ e))),
                  (λ e'. omega (arith, z.enough)),
                )
                | inr (e, u) ↦ (unzipped u, (λ e'. u), (λ e'. absurd (false_ne_true (sym e ∙ e'))))
              ],
              t,
              off,
            )
      | inr foreign ↦
          mono
            (find_first_unzip_point_lem hash mask fresh (half + half) (base + i) (chain i)
              (i + half) i n m0 m
              (Round-Settled_other hash fresh base half chain apart i lt m0 m (Round-from r))
              (subst (λ l. IsSlist m.next (fresh + (i + half)) l)
                (ap (drop_until (is hash mask (i + half))) whole ∙ rw (other foreign) (sym whole))
                s.entry1)
              s.entry0
              (all_swap (is hash mask i) (is hash mask (i + half)) (chain i) (lists.two i lt))
              (lists.short i lt) fuel x xs whole head (other foreign) enough)
            λ left m' (result, t, off). (
              elim result [
                | inl (e, z) ↦ (
                  zip_other z,
                  (λ e'. absurd (false_ne_true (sym e' ∙ e))),
                  (λ e'. omega (arith, z.enough)),
                )
                | inr (e, u) ↦ (
                  swap-Zipping (unzipped u),
                  (λ e'. swap-Unzipped u),
                  (λ e'. absurd (false_ne_true (sym e ∙ e'))),
                )
              ],
              t,
              off,
            )
    ]
      where
        head : m.next (base + i) ≡ some x
        head = s.head ∙ ap (λ l. some (first l null)) whole

        other : is hash mask i x ≡ false → is hash mask (i + half) x ≡ true
        other foreign = ground (arith, foreign, either)
          where
            either : all (λ x. is hash mask i x || is hash mask (i + half) x) (x ∷ xs) ≡ true
            either =
                subst (λ l. all (λ x. is hash mask i x || is hash mask (i + half) x) l ≡ true) whole
                  (lists.two i lt)

  List-cases : (xs : List Ptr) → (xs ≡ []) ⊎ ((y : Ptr) × (ys : List Ptr) × (xs ≡ y ∷ ys))
  List-cases [] = inl refl
  List-cases (y ∷ ys) = inr (y, ys, refl)

  pub starts_loop_lem :
      Apart fresh base half chain
      → (rounds i n fuel : ℕ) (b : Bool) (m0 m : Mem) → Lists hash mask fresh base half chain n
      → rounds + i ≡ half
      → n ≤ fuel
      → Search n i b m0 m
      → Ensures
          (Serves hash mask fresh (half + half) m0)
          (λ f m'. Search n half f m0 m')
          (starts_loop rounds i fuel (old hash mask fresh base half chain) mask b)
          m
  unfolding starts_loop
  starts_loop_lem apart zero i n fuel b m0 m lists total enough p =
      returns (subst (λ i. Search n i b m0 m) (omega (arith, total)) p)
  starts_loop_lem apart (suc rounds) i n fuel b m0 m lists total enough p =
      elim (List-cases (chain i)) [
        | inl none_left ↦
            loads_quietly hash mask fresh (half + half) m0
              (here.head ∙ ap (λ l. some (first l null)) none_left)
              (starts_loop_lem apart rounds (i + 1) n fuel b m0 m lists (omega (arith, total))
                enough
                (Progress-skip hash mask fresh base half chain p p.round
                  (empty apart n i lt m0 m none_left here)))
        | inr (x, xs, whole) ↦
            loads_quietly hash mask fresh (half + half) m0
              (here.head ∙ ap (λ l. some (first l null)) whole)
              (takes_else _ _ (eq_false x null (live x xs whole)) (
                bind-Ensures (found apart n i lt m0 m lists p.round here fuel x xs whole enough)
                  λ left m' ((bucket, unz, more), t, off).
                    starts_loop_lem apart rounds (i + 1) n fuel (if left then false else b) m0 m'
                      lists (omega (arith, total)) enough
                      (Progress-next hash mask fresh base half chain p (if left then false else b)
                        apart lt (Round-keep apart n i lt m0 m m' t off p.round) t
                        (λ j j_lt other.
                          Shared-frame hash mask fresh base half chain j m m' (
                            touches_own hash fresh base half chain apart i lt m m m' t j j_lt
                              other))
                        bucket
                        (elim (Bool-cases left) [
                          | inl e ↦ rw e (λ e'. absurd (false_ne_true e'))
                          | inr e ↦ rw e (λ e'. (e', unz e))
                        ])
                        (elim (Bool-cases left) [
                          | inl e ↦ rw e (λ e'. more e)
                          | inr e ↦ rw e p.unfinished
                        ]))))
      ]
    where
      lt : i < half
      lt = omega (arith, total)

      here : Shared hash mask fresh base half chain i m
      here = p.to_come i (omega arith) lt

      live : (x : Ptr) (xs : List Ptr) → chain i ≡ x ∷ xs → x ≢ null
      live x xs whole e =
          absurd
            (false_ne_true (sym (apart.null_out i lt) ∙ ap (has null) whole ∙ ground (arith, e)))
