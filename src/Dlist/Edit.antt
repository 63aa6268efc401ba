-- ===== src/Dlist/Edit.antt =====
-- rcuDlistInsertAfter, rcuDlistInsertBefore, rcuDlistAppend, rcuDlistPrepend, rcuDlistRemove, and the
-- two functions that make a list empty.
use mathlib.Core.List.{reverse, reverse-append, append-nil}
use relativistic_hash_table.Base.{
  ◌≡◌, ◌≢◌, refl, sym, ◌∙◌, ap, some, List, [], ◌∷◌, ◌++◌, arith, ◌∈◌, has-append, subst, ◌⊎◌, inl,
  inr, ne_of_mem, length, ◌==◌,
}
use relativistic_hash_table.Memory.{Ptr, null, Links, Mem}
use relativistic_hash_table.Memory.Ensures.{Ensures, returns, loads, stores, relink}
use relativistic_hash_table.Memory.Chain.{
  first, Chain, last_of, last_of-mem, last_of-stop, Chain-left, put_other,
}
use relativistic_hash_table.Memory.Edit.{first-reverse, last_of-reverse}
use relativistic_hash_table.Dlist.{
  prev_of, init, reset, is_empty, add_between, insert_after, insert_before, append, prepend,
}
use relativistic_hash_table.Dlist.Ring.{IsRing, IsSpareHead, Any, Inserts-IsRing}

-- the memory after `new` has been linked in between `p` and `q`
abbrev pub between : Mem → (p q new : Ptr) → Mem
between m p q new = relink (relink (relink (relink m new q) (prev_of new) p) p new) (prev_of q) new

pub prev_of-injective : (a b : Ptr) → prev_of a ≡ prev_of b → a ≡ b
prev_of-injective a b e = omega (arith, e)

pub between-other :
    (m : Mem) (p q new a : Ptr)
    → a ≢ new
    → a ≢ prev_of new
    → a ≢ p
    → a ≢ prev_of q
    → (between m p q new).next a ≡ m.next a
between-other m p q new a off off_prev off_p off_q =
    put_other (relink (relink (relink m new q) (prev_of new) p) p new).next (prev_of q) (some new) a
      off_q
    ∙ put_other (relink (relink m new q) (prev_of new) p).next p (some new) a off_p
    ∙ put_other (relink m new q).next (prev_of new) (some p) a off_prev
    ∙ put_other m.next new (some q) a off

pub first-cell : (xs : List Ptr) (stop : Ptr) → (first xs stop ≡ stop) ⊎ (first xs stop ∈ xs)
first-cell [] stop = inl refl
first-cell (x ∷ xs) stop = inr (ground arith)

module _ (next : Links) (l : Ptr) (front back : List Ptr) where
  pub last_of-member : last_of l front ∈ (l ∷ (front ++ back))
  last_of-member = ground (arith, has-append (last_of l front) front back, last_of-mem l front)

  pub first-member : first back l ∈ (l ∷ (front ++ back))
  first-member = ground (arith, has-append (first back l) front back, first-cell back l)

  pub next-neighbour : IsRing next l (front ++ back) → next (last_of l front) ≡ some (first back l)
  next-neighbour ring =
      last_of-stop next (first back l) l front (Chain-left next l (l ∷ front) back ring.forward)

  pub prev-neighbour :
      IsRing next l (front ++ back) → next (prev_of (first back l)) ≡ some (last_of l front)
  prev-neighbour ring =
      ap (λ a. next (prev_of a)) (sym (last_of-reverse l back))
      ∙ last_of-stop (λ a. next (prev_of a)) (first (reverse front) l) l (reverse back)
          (Chain-left (λ a. next (prev_of a)) l (l ∷ reverse back) (reverse front)
            (subst (λ ys. Chain (λ a. next (prev_of a)) l (l ∷ ys)) (reverse-append front back)
              ring.backward))
      ∙ ap some (first-reverse l front)

module _ (m : Mem) (l : Ptr) (front back : List Ptr) (new : Ptr)
    (ring : IsRing m.next l (front ++ back))
    (spare : IsSpareHead m.next new (l ∷ (front ++ back))) where
  abbrev p : Ptr
  p = last_of l front

  abbrev q : Ptr
  q = first back l

  -- The head and its two neighbours to be do not overlap.
  off_p : (p ≢ prev_of new) × (new ≢ prev_of p)
  off_p = spare.is_apart p (last_of-member m.next l front back)

  off_q : (q ≢ prev_of new) × (new ≢ prev_of q)
  off_q = spare.is_apart q (first-member m.next l front back)

  ne_p : new ≢ p
  ne_p = ne_of_mem (l ∷ (front ++ back)) spare.is_outside (last_of-member m.next l front back)

  ne_q : new ≢ q
  ne_q = ne_of_mem (l ∷ (front ++ back)) spare.is_outside (first-member m.next l front back)

  p_off_q : p ≢ prev_of q
  p_off_q = ring.apart p q (last_of-member m.next l front back) (first-member m.next l front back)

  same_next : (a : Ptr) → a ∈ (l ∷ (front ++ back)) → a ≢ p → (between m p q new).next a ≡ m.next a
  same_next a at off =
      between-other m p q new a (λ e. ne_of_mem (l ∷ (front ++ back)) spare.is_outside at (sym e))
        (spare.is_apart a at).0 off (ring.apart a q at (first-member m.next l front back))

  same_prev :
      (a : Ptr)
      → a ∈ (l ∷ (front ++ back))
      → a ≢ q
      → (between m p q new).next (prev_of a) ≡ m.next (prev_of a)
  same_prev a at off =
      between-other m p q new (prev_of a) (λ e. (spare.is_apart a at).1 (sym e))
        (λ e. ne_of_mem (l ∷ (front ++ back)) spare.is_outside at (sym (prev_of-injective a new e)))
        (λ e. ring.apart p a (last_of-member m.next l front back) at (sym e))
        λ e. off (prev_of-injective a q e)

  between-IsRing : IsRing (between m p q new).next l (front ++ (new ∷ back))
  between-IsRing =
      Inserts-IsRing m.next (between m p q new).next l front back new ring spare record {
        to_next = ground (arith, ne_p, ne_q, off_p, off_q);
        to_prev = ground (arith, ne_p, ne_q, off_p, off_q);
        from_prev = ground (arith, p_off_q);
        from_next = ground arith;
        same = same_next;
        same_prev = same_prev;
      }

  -- the four stores of rcuDlistAddBetween
  add_between-IsRing :
      Ensures Any
        (λ _ m'. (m' ≡ between m p q new) × IsRing m'.next l (front ++ (new ∷ back)))
        (add_between p q new)
        m
  unfolding add_between
  add_between-IsRing = stores q spare.has_next tt (
      stores {o = spare.old_prev} p (ground (arith, spare.has_prev)) tt (
        stores {o = q} new (ground (arith, ne_p, off_p, next-neighbour m.next l front back ring)) tt
          (stores {o = p} new
            (ground (arith, ne_q, off_q, p_off_q, prev-neighbour m.next l front back ring)) tt
            (returns (refl, between-IsRing)))))

  -- In a list, `insert_after` an element, or the head, puts a spare head in behind it, and changes
  -- only the links of the new head and of its two neighbours.
  pub insert_after-IsRing :
      Ensures Any
        (λ _ m'. (m' ≡ between m p q new) × IsRing m'.next l (front ++ (new ∷ back)))
        (insert_after p new)
        m
  unfolding insert_after
  insert_after-IsRing = loads (next-neighbour m.next l front back ring) tt add_between-IsRing

  -- So does `insert_before` an element, or the head, in front of it.
  pub insert_before-IsRing :
      Ensures Any
        (λ _ m'. (m' ≡ between m p q new) × IsRing m'.next l (front ++ (new ∷ back)))
        (insert_before q new)
        m
  unfolding insert_before
  insert_before-IsRing = loads (prev-neighbour m.next l front back ring) tt add_between-IsRing

-- In a list, `append` puts a spare head in behind all elements, and `prepend` in front of them.
pub append-IsRing :
    (m : Mem) (l : Ptr) (xs : List Ptr) (new : Ptr)
    → IsRing m.next l xs
    → IsSpareHead m.next new (l ∷ xs)
    → Ensures Any
        (λ _ m'. (m' ≡ between m (last_of l xs) l new) × IsRing m'.next l (xs ++ (new ∷ [])))
        (append l new)
        m
      × Ensures Any
          (λ _ m'. (m' ≡ between m l (first xs l) new) × IsRing m'.next l (new ∷ xs))
          (prepend l new)
          m
unfolding append prepend
append-IsRing m l xs new ring spare = (
  insert_before-IsRing m l xs [] new (subst (λ ys. IsRing m.next l ys) (sym (append-nil xs)) ring)
      (subst (λ ys. IsSpareHead m.next new (l ∷ ys)) (sym (append-nil xs)) spare),
  insert_after-IsRing m l [] xs new ring spare,
)

-- `init`, and `reset`, of a head that is allocated make it an empty list, for which `is_empty` says
-- so; it says so for no other list.
pub init-IsRing :
    (m : Mem) (l : Ptr) (a b : Ptr)
    → l ≢ null
    → m.next l ≡ some a
    → m.next (prev_of l) ≡ some b
    → Ensures Any (λ _ m'. IsRing m'.next l []) (init l) m
      × Ensures Any (λ _ m'. IsRing m'.next l []) (reset l) m
unfolding init reset
init-IsRing m l a b live at at_prev = (made, made)
  where
    done : IsRing (relink (relink m (prev_of l) l) l l).next l []
    done = record {
      forward = (live, ground arith, refl, tt);
      backward = (live, ground arith, refl, tt);
      apart = λ x y at at'. ground arith;
    }

    made : Ensures Any (λ _ m'. IsRing m'.next l []) (init l) m
    made = stores l at_prev tt (stores {o = a} l (ground (arith, at)) tt (returns done))

pub is_empty-IsRing :
    (m : Mem) (l : Ptr) (xs : List Ptr)
    → IsRing m.next l xs
    → Ensures (λ m a m'. m' ≡ m) (λ empty m'. (empty ≡ (length xs == 0)) × (m' ≡ m)) (is_empty l) m
unfolding is_empty
is_empty-IsRing m l [] ring = loads ring.forward.1 refl (returns (ground arith, refl))
is_empty-IsRing m l (x ∷ xs) ring =
    loads ring.forward.1 refl (returns (ground (arith, ring.forward.2), refl))
