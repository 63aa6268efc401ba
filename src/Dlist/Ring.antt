-- ===== src/Dlist/Ring.antt =====
-- What a doubly linked list is in memory: a ring in both directions.
use mathlib.Core.List.{reverse, reverse-append, reverse-cons, append_assoc}
use relativistic_hash_table.Base.{
  ◌≡◌, ◌≢◌, sym, ◌∙◌, ap, some, List, [], ◌∷◌, ◌++◌, arith, ◌∈◌, ◌∉◌, has, has-append, subst, true,
  false, ==→eq, ◌==◌, ◌||◌, Bool-cases, inl, inr,
}
use relativistic_hash_table.Memory.{Ptr, null, Links, Mem, Action}
use relativistic_hash_table.Memory.Chain.{first, Chain, last_of}
use relativistic_hash_table.Memory.Edit.{
  Chain-insert, Chain-delete, has-reverse, first-reverse, last_of-reverse,
}
use relativistic_hash_table.Dlist.{prev_of}

-- The list with the head `l` holds the elements `xs`: from `l` the `next` links lead through them, in
-- this order, and back to `l`, the `prev` links the other way round, and no head overlaps another one.
pub record IsRing (next : Links) (l : Ptr) (xs : List Ptr) : Type 0 where
  pub forward : Chain next l (l ∷ xs)
  pub backward : Chain (λ a. next (prev_of a)) l (l ∷ reverse xs)
  pub apart : (a b : Ptr) → a ∈ (l ∷ xs) → b ∈ (l ∷ xs) → a ≢ prev_of b

-- `new` is allocated and apart from the elements.
pub record IsSpareHead (next : Links) (new : Ptr) (xs : List Ptr) : Type 0 where
  pub ne_null : new ≢ null
  pub old_next : Ptr
  pub has_next : next new ≡ some old_next
  pub old_prev : Ptr
  pub has_prev : next (prev_of new) ≡ some old_prev
  pub is_outside : new ∉ xs
  pub is_apart : (a : Ptr) → a ∈ xs → (a ≢ prev_of new) × (new ≢ prev_of a)

-- any access
abbrev pub Any : Mem → Action → Mem → Type 0
Any m a m' = Unit {0}

-- A ring read backwards, cut in two.
same_members :
    (a l : Ptr) (front back : List Ptr)
    → has a (l ∷ (reverse back ++ reverse front)) ≡ has a (l ∷ (front ++ back))
same_members a l front back =
    rw
      (
        has-append a (reverse back) (reverse front),
        has-append a front back,
        has-reverse a front,
        has-reverse a back,
      )
      (ground arith)

pub reverse-insert :
    (front : List Ptr) (new : Ptr) (back : List Ptr)
    → reverse (front ++ (new ∷ back)) ≡ reverse back ++ (new ∷ reverse front)
reverse-insert front new back =
    reverse-append front (new ∷ back)
    ∙ ap (λ ys. ys ++ reverse front) (reverse-cons new back)
    ∙ append_assoc (reverse back) (new ∷ []) (reverse front)

pub mem-insert :
    (a l : Ptr) (front : List Ptr) (new : Ptr) (back : List Ptr)
    → has a (l ∷ (front ++ (new ∷ back))) ≡ ((a == new) || has a (l ∷ (front ++ back)))
mem-insert a l front new back =
    rw (has-append a front (new ∷ back), has-append a front back) (ground arith)

module _ (next next' : Links) (l : Ptr) (front back : List Ptr) (new : Ptr) where
  abbrev backwards : Links → Links
  backwards next a = next (prev_of a)

  -- the four writes of an insertion
  pub record Inserts : Type 0 where
    pub to_next : next' new ≡ some (first back l)
    pub to_prev : next' (prev_of new) ≡ some (last_of l front)
    pub from_prev : next' (last_of l front) ≡ some new
    pub from_next : next' (prev_of (first back l)) ≡ some new
    pub same : (a : Ptr) → a ∈ (l ∷ (front ++ back)) → a ≢ last_of l front → next' a ≡ next a
    pub same_prev :
        (a : Ptr)
        → a ∈ (l ∷ (front ++ back))
        → a ≢ first back l
        → next' (prev_of a) ≡ next (prev_of a)

  pub Inserts-IsRing :
      IsRing next l (front ++ back)
      → IsSpareHead next new (l ∷ (front ++ back))
      → Inserts
      → IsRing next' l (front ++ (new ∷ back))
  Inserts-IsRing ring spare w = record {
    forward =
        Chain-insert next next' l l front back new ring.forward spare.ne_null spare.is_outside
          w.to_next w.from_prev w.same;
    backward =
        subst (λ ys. Chain (backwards next') l (l ∷ ys)) (sym (reverse-insert front new back))
          (Chain-insert (backwards next) (backwards next') l l (reverse back) (reverse front) new
            (subst (λ ys. Chain (backwards next) l (l ∷ ys)) (reverse-append front back)
              ring.backward)
            spare.ne_null (same_members new l front back ∙ spare.is_outside)
            (w.to_prev ∙ ap some (sym (first-reverse l front)))
            (ap (backwards next') (last_of-reverse l back) ∙ w.from_next)
            λ a at off.
              w.same_prev a (sym (same_members a l front back) ∙ at)
                (λ e. off (e ∙ sym (last_of-reverse l back))));
    apart = λ a b at at'.
        apart_all a b (sym (mem-insert a l front new back) ∙ at)
          (sym (mem-insert b l front new back) ∙ at');
  }
    where
      apart_all :
          (a b : Ptr)
          → ((a == new) || has a (l ∷ (front ++ back))) ≡ true
          → ((b == new) || has b (l ∷ (front ++ back))) ≡ true
          → a ≢ prev_of b
      apart_all a b at at' = elim (Bool-cases (a == new)) [
        | inl here ↦ elim (Bool-cases (b == new)) [
          | inl here' ↦ λ e. omega (arith, ==→eq a new here, ==→eq b new here', e)
          | inr off' ↦ λ e. (spare.is_apart b (past b at' off')).1 (sym (==→eq a new here) ∙ e)
        ]
        | inr off ↦ elim (Bool-cases (b == new)) [
          | inl here' ↦
              λ e. (spare.is_apart a (past a at off)).0 (e ∙ ap prev_of (==→eq b new here'))
          | inr off' ↦ ring.apart a b (past a at off) (past b at' off')
        ]
      ]
        where
          past :
              (a : Ptr)
              → ((a == new) || has a (l ∷ (front ++ back))) ≡ true
              → (a == new) ≡ false
              → a ∈ (l ∷ (front ++ back))
          past a at off = ground (arith, at, off)

  -- the two writes of a removal
  pub record Deletes : Type 0 where
    pub from_prev : next' (last_of l front) ≡ some (first back l)
    pub from_next : next' (prev_of (first back l)) ≡ some (last_of l front)
    pub same : (a : Ptr) → a ∈ (l ∷ (front ++ back)) → a ≢ last_of l front → next' a ≡ next a
    pub same_prev :
        (a : Ptr)
        → a ∈ (l ∷ (front ++ back))
        → a ≢ first back l
        → next' (prev_of a) ≡ next (prev_of a)

  pub Deletes-IsRing :
      IsRing next l (front ++ (new ∷ back)) → Deletes → IsRing next' l (front ++ back)
  Deletes-IsRing ring w = record {
    forward = Chain-delete next next' l l front back new ring.forward w.from_prev w.same;
    backward =
        subst (λ ys. Chain (backwards next') l (l ∷ ys)) (sym (reverse-append front back))
          (Chain-delete (backwards next) (backwards next') l l (reverse back) (reverse front) new
            (subst (λ ys. Chain (backwards next) l (l ∷ ys)) (reverse-insert front new back)
              ring.backward)
            (ap (backwards next') (last_of-reverse l back)
              ∙ w.from_next
              ∙ ap some (sym (first-reverse l front)))
            λ a at off.
              w.same_prev a (sym (same_members a l front back) ∙ at)
                (λ e. off (e ∙ sym (last_of-reverse l back))));
    apart = λ a b at at'.
        ring.apart a b (mem-insert a l front new back ∙ weaken a at)
          (mem-insert b l front new back ∙ weaken b at');
  }
    where
      weaken :
          (a : Ptr) → a ∈ (l ∷ (front ++ back)) → ((a == new) || has a (l ∷ (front ++ back))) ≡ true
      weaken a at = ground (arith, at)
