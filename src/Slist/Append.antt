-- ===== src/Slist/Append.antt =====
-- rcuSlistAppendToTail and rcuSlistAppendIfNoMatch.
use relativistic_hash_table.Base.{
  ℕ, zero, suc, ◌<◌, ◌≡◌, refl, ◌∙◌, ◌≢◌, Bool, false, not, some, List, [], ◌∷◌, ◌++◌, arith, ◌==◌,
  if◌then◌else◌, Bool-cases, inl, inr, length, any, ◌∉◌, has-append,
}
use relativistic_hash_table.Memory.{Ptr, null, Mem}
use relativistic_hash_table.Memory.Ensures.{Ensures, returns, loads, mono}
use relativistic_hash_table.Memory.Chain.{first, Chain, IsSlist}
use relativistic_hash_table.Memory.Leads.{Keeps}
use relativistic_hash_table.Slist.{
  append_loop, append_to_tail, append_match_loop, append_if_no_match,
}
use relativistic_hash_table.Slist.Insert.{IsSpare, linked, linked-Chain, linking}

-- What an append to a run leaves: the spare cell is its last one, and nothing else has changed.
pub record Appended (m : Mem) (p : Ptr) (xs : List Ptr) (new : Ptr) (m' : Mem) : Type 0 where
  pub chain : Chain m'.next null (p ∷ xs ++ new ∷ [])
  pub outside : (a : Ptr) → a ∉ (p ∷ xs ++ new ∷ []) → m'.next a ≡ m.next a
  pub inner : (a : Ptr) → a ∉ (new ∷ []) → m.next a ≢ some null → m'.next a ≡ m.next a
  pub same_hash : m'.hash ≡ m.hash
  pub same_info : m'.buckets_info ≡ m.buckets_info
  pub same_size : m'.size ≡ m.size

linked-Appended :
    (m : Mem) (p new : Ptr)
    → Chain m.next null (p ∷ [])
    → IsSpare m new (p ∷ [])
    → Appended m p [] new (linked m p new null)
linked-Appended m p new c spare = record {
  chain = linked-Chain m p new [] c spare;
  outside = λ a out. ground arith;
  inner = λ a out ne. ground arith;
  same_hash = refl;
  same_info = refl;
  same_size = refl;
}

-- the spare cell of a run is a spare cell of the rest of the run
IsSpare-tail :
    {m : Mem} {new p x : Ptr} {xs : List Ptr} → IsSpare m new (p ∷ x ∷ xs) → IsSpare m new (x ∷ xs)
IsSpare-tail spare = record {
  ne_null = spare.ne_null;
  old_next = spare.old_next;
  is_allocated = spare.is_allocated;
  is_outside = ground arith;
  is_unlinked = spare.is_unlinked;
}

Appended-cons :
    {m m' : Mem} {p x new : Ptr} {xs : List Ptr}
    → Chain m.next null (p ∷ x ∷ xs)
    → IsSpare m new (p ∷ x ∷ xs)
    → Appended m x xs new m'
    → Appended m p (x ∷ xs) new m'
Appended-cons {m} {m'} {p} {x} {new} {xs} c spare rest = record {
  chain = (
    c.0,
    rest.inner p (ground (arith, spare.is_outside)) (ground (arith, c.1, c.3.0)) ∙ c.1,
    p_fresh,
    rest.chain,
  );
  outside = λ a out. ground (arith, rest.outside a);
  inner = rest.inner;
  same_hash = rest.same_hash;
  same_info = rest.same_info;
  same_size = rest.same_size;
}
  where
    p_fresh : p ∉ (x ∷ xs ++ new ∷ [])
    p_fresh = rw (has-append p (x ∷ xs) (new ∷ []), c.2) (ground (arith, spare.is_outside))

append_loop-Appended :
    (fuel : ℕ) (p new : Ptr) (xs : List Ptr) (m : Mem)
    → Chain m.next null (p ∷ xs)
    → IsSpare m new (p ∷ xs)
    → length xs < fuel
    → Ensures (Keeps new null) (λ _. Appended m p xs new) (append_loop fuel p (first xs null) new) m
unfolding append_loop
append_loop-Appended zero p new xs m c spare enough = absurd (omega arith)
append_loop-Appended (suc fuel) p new [] m c spare enough =
    linking m p new [] c spare (returns (linked-Appended m p new c spare))
append_loop-Appended (suc fuel) p new (x ∷ xs) m c spare enough =
    let live : (x == null) ≡ false = ground arith in
    rw live (
      loads c.3.1 (λ y t off ne r. r)
        (mono (append_loop-Appended fuel x new xs m c.3 (IsSpare-tail spare) (omega arith))
          λ _ m' rest. Appended-cons c spare rest))

-- From any cell of a list, `append_to_tail` with more rounds than there are nodes behind that cell
-- makes a spare cell the last one of the list and changes nothing else. At every moment a reader that
-- does not stand at the new cell can reach all that it could reach before.
pub append_to_tail-Appended :
    (fuel : ℕ) (p new : Ptr) (xs : List Ptr) (m : Mem)
    → Chain m.next null (p ∷ xs)
    → IsSpare m new (p ∷ xs)
    → length xs < fuel
    → Ensures (Keeps new null) (λ _. Appended m p xs new) (append_to_tail fuel p new) m
unfolding append_to_tail
append_to_tail-Appended fuel p new xs m c spare enough =
    loads c.1 (λ y t off ne r. r) (append_loop-Appended fuel p new xs m c spare enough)

-- the cells of a run but the last one
abbrev pub but_last : Ptr → List Ptr → List Ptr
but_last p [] = []
but_last p (x ∷ xs) = p ∷ but_last x xs

module _ (predict : Ptr → Ptr → Bool) (new : Ptr) where
  -- A match of the predicate on one of the cells that the loop asks about.
  abbrev pub asked : Ptr → List Ptr → Bool
  asked p xs = any (λ x. predict x new) (but_last p xs)

  abbrev pub MaybeAppended : Mem → Ptr → List Ptr → Bool → Mem → Type 0
  MaybeAppended m p xs inserted m' =
      (inserted ≡ not (asked p xs)) × (if asked p xs then (m' ≡ m) else Appended m p xs new m')

  append_match_loop-Appended :
      (fuel : ℕ) (p : Ptr) (xs : List Ptr) (m : Mem)
      → Chain m.next null (p ∷ xs)
      → IsSpare m new (p ∷ xs)
      → length xs < fuel
      → Ensures
          (Keeps new null)
          (MaybeAppended m p xs)
          (append_match_loop predict fuel p (first xs null) new)
          m
  unfolding append_match_loop
  append_match_loop-Appended zero p xs m c spare enough = absurd (omega arith)
  append_match_loop-Appended (suc fuel) p [] m c spare enough =
      linking m p new [] c spare (returns (refl, linked-Appended m p new c spare))
  append_match_loop-Appended (suc fuel) p (x ∷ xs) m c spare enough =
      let live : (x == null) ≡ false = ground arith in
      rw live (elim (Bool-cases (predict p new)) [
        | inl hit ↦ rw hit (returns (rw hit (refl, refl)))
        | inr miss ↦ rw miss (
            loads c.3.1 (λ y t off ne r. r)
              (mono (append_match_loop-Appended fuel x xs m c.3 (IsSpare-tail spare) (omega arith))
                λ b m' rest. rw miss (
                  rest.0,
                  elim (Bool-cases (asked x xs)) [
                    | inl old ↦ rw old (rw old at rest.1)
                    | inr fresh ↦ rw fresh (Appended-cons c spare (rw fresh at rest.1))
                  ],
                )))
      ])

  -- `append_if_no_match` on a list with sentinel `l` and nodes `xs` asks the predicate about the
  -- sentinel and about every node but the last one. If one of these matches, it returns false and
  -- leaves the memory as it is; else it returns true and the spare cell is the last one.
  pub append_if_no_match-MaybeAppended :
      (fuel : ℕ) (l : Ptr) (xs : List Ptr) (m : Mem)
      → IsSlist m.next l xs
      → IsSpare m new (l ∷ xs)
      → length xs < fuel
      → Ensures (Keeps new null) (MaybeAppended m l xs) (append_if_no_match predict fuel l new) m
  unfolding append_if_no_match
  append_if_no_match-MaybeAppended fuel l xs m c spare enough =
      loads c.1 (λ y t off ne r. r) (append_match_loop-Appended fuel l xs m c spare enough)
