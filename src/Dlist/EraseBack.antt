-- ===== src/Dlist/EraseBack.antt =====
-- The loops of RcuDlistTest that walk backwards and remove what they are at.
use mathlib.Core.List.{reverse, reverse-cons, reverse-reverse, append_assoc, append-nil}
use relativistic_hash_table.Base.{
  ℕ, zero, suc, ◌<◌, ◌≡◌, refl, sym, ◌∙◌, ap, Bool, not, some, List, [], ◌∷◌, ◌++◌, arith, subst,
  length, filter-append, length-append, Bool-cases, inl, inr, ==-refl,
}
use relativistic_hash_table.Memory.{Ptr, Mem, bind}
use relativistic_hash_table.Memory.Ensures.{Ensures, returns, loads, bind-Ensures, mono}
use relativistic_hash_table.Memory.Chain.{first}
use relativistic_hash_table.Memory.Edit.{last_of-reverse}
use relativistic_hash_table.Dlist.{prev_of}
use relativistic_hash_table.Dlist.Iter.{
  safe_r_begin, safe_r_is_end, safe_r_advance, safe_r_remove_it,
}
use relativistic_hash_table.Dlist.Ring.{IsRing, Any}
use relativistic_hash_table.Dlist.Remove.{gone-prev, remove-IsRing}
use relativistic_hash_table.Dlist.Erase.{element_ne_head, kept}
use relativistic_hash_table.Dlist.Client.{r_erase_loop}

length-reverse : (xs : List Ptr) → length (reverse xs) ≡ length xs
length-reverse [] = refl
length-reverse (x ∷ xs) =
    ap length (reverse-cons x xs)
    ∙ length-append (reverse xs) (x ∷ [])
    ∙ omega (arith, length-reverse xs)

-- the elements before `back`, last one first
cut : (x : Ptr) (rs back : List Ptr) → reverse (x ∷ rs) ++ back ≡ reverse rs ++ (x ∷ back)
cut x rs back = ap (λ ys. ys ++ back) (reverse-cons x rs) ∙ append_assoc (reverse rs) (x ∷ []) back

prev-first :
    (m : Mem) (l x : Ptr) (rs back : List Ptr)
    → IsRing m.next l (reverse rs ++ (x ∷ back))
    → m.next (prev_of x) ≡ some (first rs l)
prev-first m l x rs back ring =
    gone-prev m l (reverse rs) x back ring ∙ ap some (last_of-reverse l rs)

-- Every cell of a ring has a predecessor.
pub predecessor :
    (m : Mem) (l : Ptr) (rs back : List Ptr)
    → IsRing m.next l (reverse rs ++ back)
    → (q : Ptr) × (m.next (prev_of (first rs l)) ≡ some q)
predecessor m l [] back ring = (first (reverse back) l, ring.backward.1)
predecessor m l (x ∷ rs) back ring =
    (first rs l, prev-first m l x rs back (subst (IsRing m.next l) (cut x rs back) ring))

same_next : (m : Mem) (x a b : Ptr) → m.next x ≡ some a → m.next x ≡ some b → a ≡ b
same_next m x a b e e' = ground (arith, e, e')

module _ (removes : Ptr → Bool) (l : Ptr) where
  pub r_erase_loop-IsRing :
      (fuel : ℕ) (rs back : List Ptr) (q : Ptr) (m : Mem)
      → IsRing m.next l (reverse rs ++ back)
      → m.next (prev_of (first rs l)) ≡ some q
      → length rs < fuel
      → Ensures Any
          (λ _ m'. IsRing m'.next l (reverse (kept removes l rs) ++ back))
          (r_erase_loop removes l fuel (record { pos = first rs l; prev = q }))
          m
  unfolding r_erase_loop safe_r_is_end safe_r_advance safe_r_remove_it
  r_erase_loop-IsRing zero rs back q m ring at enough = absurd (omega arith)
  r_erase_loop-IsRing (suc fuel) [] back q m ring at enough = rw (==-refl l) (returns ring)
  r_erase_loop-IsRing (suc fuel) (x ∷ rs) back q m ring at enough =
      let ring1 = subst (IsRing m.next l) (cut x rs back) ring in
      rw
        (
          element_ne_head m l (reverse rs) x back ring1,
          same_next m (prev_of x) q (first rs l) at (prev-first m l x rs back ring1),
        )
        (elim (Bool-cases (removes x)) [
          | inl erased ↦ rw erased (
              bind-Ensures (remove-IsRing m l (reverse rs) x back ring1) λ _ m' (at', ring', n, p).
                let (r, prev_at) = predecessor m' l rs back ring' in
                loads prev_at tt
                  (r_erase_loop-IsRing fuel rs back r m' ring' prev_at (omega (arith, enough))))
          | inr stays ↦ rw stays (
              let (r, prev_at) = predecessor m l rs (x ∷ back) ring1 in
              loads prev_at tt (
                mono
                  (r_erase_loop-IsRing fuel rs (x ∷ back) r m ring1 prev_at (omega (arith, enough)))
                  λ _ m'. subst (IsRing m'.next l) (sym (cut x (kept removes l rs) back))))
        ])

  kept-reverse : (xs : List Ptr) → kept removes l (reverse xs) ≡ reverse (kept removes l xs)
  kept-reverse [] = refl
  kept-reverse (x ∷ xs) =
      ap (kept removes l) (reverse-cons x xs)
      ∙ filter-append (λ x. not (removes x)) (reverse xs) (x ∷ [])
      ∙ ap (λ ys. ys ++ kept removes l (x ∷ [])) (kept-reverse xs)
      ∙ at_end
    where
      at_end :
          reverse (kept removes l xs) ++ kept removes l (x ∷ []) ≡ reverse (kept removes l (x ∷ xs))
      at_end = elim (Bool-cases (removes x)) [
        | inl erased ↦ rw erased (append-nil (reverse (kept removes l xs)))
        | inr stays ↦ rw stays (sym (reverse-cons x (kept removes l xs)))
      ]

  kept_reversed : (xs : List Ptr) → reverse (kept removes l (reverse xs)) ≡ kept removes l xs
  kept_reversed xs = ap reverse (kept-reverse xs) ∙ reverse-reverse (kept removes l xs)

  -- the whole loop, from the last element on
  pub r_erase_walk-IsRing :
      (fuel : ℕ) (xs : List Ptr) (m : Mem)
      → IsRing m.next l xs
      → length xs < fuel
      → Ensures Any
          (λ _ m'. IsRing m'.next l (kept removes l xs))
          (bind (safe_r_begin l) (λ it. r_erase_loop removes l fuel it))
          m
  unfolding safe_r_begin
  r_erase_walk-IsRing fuel xs m ring enough =
      let whole : IsRing m.next l (reverse (reverse xs) ++ []) =
        subst (IsRing m.next l) (sym (append-nil (reverse (reverse xs)) ∙ reverse-reverse xs))
          ring in
      let (q, prev_at) = predecessor m l (reverse xs) [] whole in
      loads ring.backward.1 tt (
        loads prev_at tt (
          mono
            (r_erase_loop-IsRing fuel (reverse xs) [] q m whole prev_at
              (rw (length-reverse xs) enough))
            λ _ m'.
              subst (IsRing m'.next l)
                (append-nil (reverse (kept removes l (reverse xs))) ∙ kept_reversed xs)))
