-- ===== src/Dlist/Remove.antt =====
-- rcuDlistRemove.
use mathlib.Core.List.{append_assoc}
use relativistic_hash_table.Base.{
  ◌≡◌, ◌≢◌, refl, sym, ◌∙◌, ap, some, List, [], ◌∷◌, ◌++◌, arith, ◌∈◌, subst, Bool, true, ◌==◌,
  ◌||◌, inl, inr, ne_of_mem, ne_of_not_mem, has-append,
}
use relativistic_hash_table.Memory.{Ptr, Mem}
use relativistic_hash_table.Memory.Ensures.{Ensures, returns, loads, stores, relink}
use relativistic_hash_table.Memory.Chain.{
  first, last_of, last_of-mem, put_other, Chain-apart, Chain-right,
}
use relativistic_hash_table.Memory.Edit.{last_of-snoc}
use relativistic_hash_table.Dlist.{prev_of, remove_between, remove}
use relativistic_hash_table.Dlist.Ring.{IsRing, Any, Deletes-IsRing, mem-insert}
use relativistic_hash_table.Dlist.Edit.{
  prev_of-injective, first-cell, last_of-member, first-member, next-neighbour, prev-neighbour,
}

-- the memory after what is between `p` and `q` has been linked past
abbrev pub joined : Mem → (p q : Ptr) → Mem
joined m p q = relink (relink m p q) (prev_of q) p

joined-other : (m : Mem) (p q a : Ptr) → a ≢ p → a ≢ prev_of q → (joined m p q).next a ≡ m.next a
joined-other m p q a off_p off_q =
    put_other (relink m p q).next (prev_of q) (some p) a off_q ∙ put_other m.next p (some q) a off_p

module _ (m : Mem) (l : Ptr) (front : List Ptr) (gone : Ptr) (back : List Ptr)
    (ring : IsRing m.next l (front ++ (gone ∷ back))) where
  abbrev p : Ptr
  p = last_of l front

  abbrev q : Ptr
  q = first back l

  behind-IsRing : IsRing m.next l ((front ++ (gone ∷ [])) ++ back)
  behind-IsRing = subst (λ ys. IsRing m.next l ys) (sym (append_assoc front (gone ∷ []) back)) ring

  -- The element leads to both of its neighbours, and they to it.
  pub gone-next : m.next gone ≡ some q
  gone-next =
      ap m.next (sym (last_of-snoc l gone front))
      ∙ next-neighbour m.next l (front ++ (gone ∷ [])) back behind-IsRing

  pub gone-prev : m.next (prev_of gone) ≡ some p
  gone-prev = prev-neighbour m.next l front (gone ∷ back) ring

  from_next : m.next (prev_of q) ≡ some gone
  from_next =
      prev-neighbour m.next l (front ++ (gone ∷ [])) back behind-IsRing
      ∙ ap some (last_of-snoc l gone front)

  p-member : p ∈ (l ∷ (front ++ (gone ∷ back)))
  p-member = last_of-member m.next l front (gone ∷ back)

  past : (a : Ptr) → a ∈ (l ∷ (front ++ back)) → a ∈ (l ∷ (front ++ (gone ∷ back)))
  past a at = mem-insert a l front gone back ∙ or_right (a == gone) at
    where
      or_right : (c : Bool) {d : Bool} → d ≡ true → (c || d) ≡ true
      or_right c e = ground arith

  q-member : q ∈ (l ∷ (front ++ (gone ∷ back)))
  q-member = past q (first-member m.next l front back)

  p_off_q : p ≢ prev_of q
  p_off_q = ring.apart p q p-member q-member

  gone-member : gone ∈ (l ∷ (front ++ (gone ∷ back)))
  gone-member = mem-insert gone l front gone back ∙ ground arith

  gone_ne_p : gone ≢ p
  gone_ne_p e =
      ne_of_not_mem back
        (Chain-apart m.next l (l ∷ front) (gone ∷ back) ring.forward p (last_of-mem l front))
        (sym e)

  gone_ne_q : gone ≢ q
  gone_ne_q e = elim (first-cell back l) [
    | inl end ↦
        ne_of_mem (front ++ (gone ∷ back)) ring.forward.2
          (ground (arith, has-append gone front (gone ∷ back))) (sym (e ∙ end))
    | inr inside ↦
        ne_of_mem back (Chain-right m.next l (l ∷ front) (gone ∷ back) ring.forward).2 inside e
  ]

  pub joined-IsRing : IsRing (joined m p q).next l (front ++ back)
  joined-IsRing = Deletes-IsRing m.next (joined m p q).next l front back gone ring record {
    from_prev = ground (arith, p_off_q);
    from_next = ground arith;
    same = λ a at off. joined-other m p q a off (ring.apart a q (past a at) q-member);
    same_prev = λ a at off.
        joined-other m p q (prev_of a) (λ e. ring.apart p a p-member (past a at) (sym e))
          λ e. off (prev_of-injective a q e);
  }

  gone-next_after : (joined m p q).next gone ≡ some q
  gone-next_after =
      joined-other m p q gone gone_ne_p (ring.apart gone q gone-member q-member) ∙ gone-next

  gone-prev_after : (joined m p q).next (prev_of gone) ≡ some p
  gone-prev_after =
      joined-other m p q (prev_of gone) (λ e. ring.apart p gone p-member gone-member (sym e))
        (λ e. gone_ne_q (prev_of-injective gone q e))
      ∙ gone-prev

  -- In a list, `remove` of an element takes it out, changing no other link than the two of its
  -- neighbours that led to it. So a reader that stands at the element can still walk on in both
  -- directions.
  pub remove-IsRing :
      Ensures Any
        (λ _ m'.
          (m' ≡ joined m p q)
          × IsRing m'.next l (front ++ back)
          × (m'.next gone ≡ some q)
          × (m'.next (prev_of gone) ≡ some p))
        (remove gone)
        m
  unfolding remove remove_between
  remove-IsRing = loads gone-prev tt (
      loads gone-next tt (
        stores {o = gone} q (next-neighbour m.next l front (gone ∷ back) ring) tt (
          stores {o = gone} p (ground (arith, p_off_q, from_next)) tt
            (returns (refl, joined-IsRing, gone-next_after, gone-prev_after)))))
