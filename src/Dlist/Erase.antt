-- ===== src/Dlist/Erase.antt =====
-- The loops of RcuDlistTest that walk forwards and remove what they are at.
use mathlib.Core.List.{append_assoc}
use relativistic_hash_table.Base.{
  ℕ, zero, suc, ◌<◌, ◌≡◌, sym, Bool, false, not, some, List, [], ◌∷◌, ◌++◌, arith, subst, ◌==◌,
  length, filter, Bool-cases, inl, inr, eq_false, has-append, ne_of_mem, ==-refl,
}
use relativistic_hash_table.Memory.{Ptr, Mem, bind}
use relativistic_hash_table.Memory.Ensures.{Ensures, returns, loads, bind-Ensures, mono}
use relativistic_hash_table.Memory.Chain.{first}
use relativistic_hash_table.Dlist.Iter.{safe_begin, safe_is_end, safe_advance, safe_remove_it}
use relativistic_hash_table.Dlist.Ring.{IsRing, Any}
use relativistic_hash_table.Dlist.Remove.{gone-next, remove-IsRing}
use relativistic_hash_table.Dlist.Client.{erase_loop}

-- Every cell of a ring has a successor.
pub successor :
    (m : Mem) (l : Ptr) (front back : List Ptr)
    → IsRing m.next l (front ++ back)
    → (q : Ptr) × (m.next (first back l) ≡ some q)
successor m l front [] ring = (first (front ++ []) l, ring.forward.1)
successor m l front (x ∷ back) ring = (first back l, gone-next m l front x back ring)

-- No element is the head.
pub element_ne_head :
    (m : Mem) (l : Ptr) (front : List Ptr) (x : Ptr) (back : List Ptr)
    → IsRing m.next l (front ++ (x ∷ back))
    → (x == l) ≡ false
element_ne_head m l front x back ring = eq_false x l λ e.
    ne_of_mem (front ++ (x ∷ back)) ring.forward.2 (ground (arith, has-append x front (x ∷ back)))
      (sym e)

same_next : (m : Mem) (x a b : Ptr) → m.next x ≡ some a → m.next x ≡ some b → a ≡ b
same_next m x a b e e' = ground (arith, e, e')

module _ (removes : Ptr → Bool) (l : Ptr) where
  -- what is left of the elements
  abbrev pub kept : List Ptr → List Ptr
  kept = filter (λ x. not (removes x))

  pub erase_loop-IsRing :
      (fuel : ℕ) (front back : List Ptr) (q : Ptr) (m : Mem)
      → IsRing m.next l (front ++ back)
      → m.next (first back l) ≡ some q
      → length back < fuel
      → Ensures Any
          (λ _ m'. IsRing m'.next l (front ++ kept back))
          (erase_loop removes l fuel (record { pos = first back l; next = q }))
          m
  unfolding erase_loop safe_is_end safe_advance safe_remove_it
  erase_loop-IsRing zero front back q m ring at enough = absurd (omega arith)
  erase_loop-IsRing (suc fuel) front [] q m ring at enough = rw (==-refl l) (returns ring)
  erase_loop-IsRing (suc fuel) front (x ∷ back) q m ring at enough =
      rw
        (
          element_ne_head m l front x back ring,
          same_next m x q (first back l) at (gone-next m l front x back ring),
        )
        (elim (Bool-cases (removes x)) [
          | inl erased ↦ rw erased (
              bind-Ensures (remove-IsRing m l front x back ring) λ _ m' (at', ring', n, p).
                let (r, next_at) = successor m' l front back ring' in
                loads next_at tt
                  (erase_loop-IsRing fuel front back r m' ring' next_at (omega (arith, enough))))
          | inr stays ↦ rw stays (
              let ring' : IsRing m.next l ((front ++ (x ∷ [])) ++ back) =
                subst (IsRing m.next l) (sym (append_assoc front (x ∷ []) back)) ring in
              let (r, next_at) = successor m l (front ++ (x ∷ [])) back ring' in
              loads next_at tt (
                mono
                  (erase_loop-IsRing fuel (front ++ (x ∷ [])) back r m ring' next_at
                    (omega (arith, enough)))
                  λ _ m'. subst (IsRing m'.next l) (append_assoc front (x ∷ []) (kept back))))
        ])

  -- the whole loop, from the first element on
  pub erase_walk-IsRing :
      (fuel : ℕ) (xs : List Ptr) (m : Mem)
      → IsRing m.next l xs
      → length xs < fuel
      → Ensures Any
          (λ _ m'. IsRing m'.next l (kept xs))
          (bind (safe_begin l) (λ it. erase_loop removes l fuel it))
          m
  unfolding safe_begin
  erase_walk-IsRing fuel xs m ring enough =
      let (q, next_at) = successor m l [] xs ring in
      loads ring.forward.1 tt
        (loads next_at tt (erase_loop-IsRing fuel [] xs q m ring next_at enough))
