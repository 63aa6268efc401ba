-- ===== src/Dlist/Fill.antt =====
-- The loops of RcuDlistTest that append, and prepend, all elements.
use mathlib.Core.List.{reverse, reverse-cons, append_assoc, append-nil}
use relativistic_hash_table.Base.{
  ◌≡◌, ◌≢◌, sym, ◌∙◌, ap, List, [], ◌∷◌, ◌++◌, arith, ◌∈◌, has, has-append, subst, ◌==◌, ◌||◌,
  ne_of_mem,
}
use relativistic_hash_table.Memory.{Ptr, Links, Mem}
use relativistic_hash_table.Memory.Ensures.{Ensures, returns, bind-Ensures, mono}
use relativistic_hash_table.Memory.Chain.{first, last_of, last_of-mem}
use relativistic_hash_table.Dlist.{prev_of}
use relativistic_hash_table.Dlist.Ring.{IsRing, IsSpareHead, Any}
use relativistic_hash_table.Dlist.Edit.{
  between, between-other, prev_of-injective, first-member, append-IsRing,
}
use relativistic_hash_table.Dlist.Client.{append_all, prepend_all}

-- Each of the heads is spare, for the elements and for the heads before it.
abbrev pub AreSpare : Links → (xs items : List Ptr) → Type 0
AreSpare next xs [] = Unit
AreSpare next xs (item ∷ items) = IsSpareHead next item xs × AreSpare next (item ∷ xs) items

-- A spare head stays spare when another one is linked in.
IsSpareHead-between :
    (m : Mem) (p q new : Ptr) (j : Ptr) (xs : List Ptr)
    → p ∈ xs
    → q ∈ xs
    → new ∈ xs
    → IsSpareHead m.next j xs
    → IsSpareHead (between m p q new).next j xs
IsSpareHead-between m p q new j xs at_p at_q at_new s = record {
  ne_null = s.ne_null;
  old_next = s.old_next;
  has_next =
      between-other m p q new j (off_of new at_new) (s.is_apart new at_new).1 (off_of p at_p)
        (s.is_apart q at_q).1
      ∙ s.has_next;
  old_prev = s.old_prev;
  has_prev =
      between-other m p q new (prev_of j) (λ e. (s.is_apart new at_new).0 (sym e))
        (λ e. off_of new at_new (prev_of-injective j new e)) (λ e. (s.is_apart p at_p).0 (sym e))
        (λ e. off_of q at_q (prev_of-injective j q e))
      ∙ s.has_prev;
  is_outside = s.is_outside;
  is_apart = s.is_apart;
}
  where
    off_of : (a : Ptr) → a ∈ xs → j ≢ a
    off_of a at = ne_of_mem xs s.is_outside at

-- What is spare for some elements is so for the same ones in another order.
IsSpareHead-same :
    {next : Links} {j : Ptr} (xs ys : List Ptr)
    → ((a : Ptr) → has a ys ≡ has a xs)
    → IsSpareHead next j xs
    → IsSpareHead next j ys
IsSpareHead-same {j = j} xs ys same s = record {
  ne_null = s.ne_null;
  old_next = s.old_next;
  has_next = s.has_next;
  old_prev = s.old_prev;
  has_prev = s.has_prev;
  is_outside = same j ∙ s.is_outside;
  is_apart = λ a at. s.is_apart a (sym (same a) ∙ at);
}

AreSpare-between :
    (m : Mem) (p q new : Ptr) (xs ys items : List Ptr)
    → p ∈ xs
    → q ∈ xs
    → new ∈ xs
    → ((a : Ptr) → has a ys ≡ has a xs)
    → AreSpare m.next xs items
    → AreSpare (between m p q new).next ys items
AreSpare-between m p q new xs ys [] at_p at_q at_new same s = tt
AreSpare-between m p q new xs ys (item ∷ items) at_p at_q at_new same s = (
  IsSpareHead-same xs ys same (IsSpareHead-between m p q new item xs at_p at_q at_new s.0),
  AreSpare-between m p q new (item ∷ xs) (item ∷ ys) items (grown p xs at_p) (grown q xs at_q)
      (grown new xs at_new) (λ a. ap (λ b. (a == item) || b) (same a)) s.1,
)
  where
    grown : (a : Ptr) (xs : List Ptr) → a ∈ xs → a ∈ (item ∷ xs)
    grown a xs at = ground arith

mem-head : (a : Ptr) (xs : List Ptr) → a ∈ (a ∷ xs)
mem-head a xs = ground arith

mem-tail : (a b : Ptr) (xs : List Ptr) → a ∈ xs → a ∈ (b ∷ xs)
mem-tail a b xs at = ground arith

mem-snoc :
    (a l item : Ptr) (xs : List Ptr) → has a (l ∷ (xs ++ (item ∷ []))) ≡ has a (item ∷ l ∷ xs)
mem-snoc a l item xs = ground (arith, has-append a xs (item ∷ []))

mem-swap : (a l item : Ptr) (xs : List Ptr) → has a (l ∷ item ∷ xs) ≡ has a (item ∷ l ∷ xs)
mem-swap a l item xs = ground arith

-- Into a list `append_all` puts spare heads behind all elements, in their order.
pub append_all-IsRing :
    (l : Ptr) (xs items : List Ptr) (m : Mem)
    → IsRing m.next l xs
    → AreSpare m.next (l ∷ xs) items
    → Ensures Any (λ _ m'. IsRing m'.next l (xs ++ items)) (append_all l items) m
unfolding append_all
append_all-IsRing l xs [] m ring spare =
    returns (subst (IsRing m.next l) (sym (append-nil xs)) ring)
append_all-IsRing l xs (item ∷ items) m ring spare =
    bind-Ensures (append-IsRing m l xs item ring spare.0).0 λ _ m' (at, ring').
      mono
        (append_all-IsRing l (xs ++ (item ∷ [])) items m' ring' (
          subst (λ now. AreSpare now.next (l ∷ (xs ++ (item ∷ []))) items) (sym at)
            (AreSpare-between m (last_of l xs) l item (item ∷ l ∷ xs) (l ∷ (xs ++ (item ∷ [])))
              items (mem-tail (last_of l xs) item (l ∷ xs) (last_of-mem l xs))
              (mem-tail l item (l ∷ xs) (mem-head l xs)) (mem-head item (l ∷ xs))
              (λ a. mem-snoc a l item xs) spare.1)))
        λ _ m''. subst (IsRing m''.next l) (append_assoc xs (item ∷ []) items)

-- `prepend_all` puts them in front, so that the last one comes first.
pub prepend_all-IsRing :
    (l : Ptr) (xs items : List Ptr) (m : Mem)
    → IsRing m.next l xs
    → AreSpare m.next (l ∷ xs) items
    → Ensures Any (λ _ m'. IsRing m'.next l (reverse items ++ xs)) (prepend_all l items) m
unfolding prepend_all
prepend_all-IsRing l xs [] m ring spare = returns ring
prepend_all-IsRing l xs (item ∷ items) m ring spare =
    bind-Ensures (append-IsRing m l xs item ring spare.0).1 λ _ m' (at, ring').
      mono
        (prepend_all-IsRing l (item ∷ xs) items m' ring' (
          subst (λ now. AreSpare now.next (l ∷ item ∷ xs) items) (sym at)
            (AreSpare-between m l (first xs l) item (item ∷ l ∷ xs) (l ∷ item ∷ xs) items
              (mem-tail l item (l ∷ xs) (mem-head l xs))
              (mem-tail (first xs l) item (l ∷ xs) (first-member m.next l [] xs))
              (mem-head item (l ∷ xs)) (λ a. mem-swap a l item xs) spare.1)))
        λ _ m''. subst (IsRing m''.next l) (
          sym (
            ap (λ ys. ys ++ xs) (reverse-cons item items)
            ∙ append_assoc (reverse items) (item ∷ []) xs))
