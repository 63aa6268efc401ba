-- ===== src/Tests/Lists.antt =====
-- A list with two nodes and a spare cell, for the functions of RcuSinglyLinkedListApi.h.
use relativistic_hash_table.Base.{◌≡◌, refl, none, some, List, [], ◌∷◌, arith, ◌==◌}
use relativistic_hash_table.Memory.{Ptr, null, Links, Mem, put}
use relativistic_hash_table.Memory.Ensures.{Ensures}
use relativistic_hash_table.Memory.Chain.{IsSlist}
use relativistic_hash_table.Memory.Leads.{Keeps}
use relativistic_hash_table.Slist
use relativistic_hash_table.Slist.Insert.{IsSpare}
use relativistic_hash_table.Slist.Append.{MaybeAppended, append_if_no_match-MaybeAppended}
use relativistic_hash_table.Slist.Remove.{Removed, remove-Removed}

-- the sentinel 1, the nodes 2 and 3, and the spare cell 5
abbrev links : Links
links = put (put (put (put (λ _. none) 1 (some 2)) 2 (some 3)) 3 (some null)) 5 (some null)

abbrev mem : Mem
mem = record { next = links; hash = λ _. 0; buckets_info = none; size = 0 }

abbrev nodes : List Ptr
nodes = 2 ∷ 3 ∷ []

list : IsSlist links 1 nodes
list = ground arith

spare : IsSpare mem 5 (1 ∷ nodes)
spare = record {
  ne_null = ground arith;
  old_next = null;
  is_allocated = refl;
  is_outside = refl;
  is_unlinked = λ a e. ground arith;
}

append_if_no_match-MaybeAppended_example :
    Ensures
      (Keeps 5 null)
      (MaybeAppended (λ p q. p == 3) 5 mem 1 nodes)
      (Slist.append_if_no_match (λ p q. p == 3) 3 1 5)
      mem
append_if_no_match-MaybeAppended_example =
    append_if_no_match-MaybeAppended (λ p q. p == 3) 5 3 1 nodes mem list spare (omega arith)

remove-Removed_example :
    Ensures
      (Keeps null 3)
      (λ p m'. (p ≡ 3) × Removed (λ p. p == 3) mem 1 nodes p m')
      (Slist.remove 3 1 3)
      mem
remove-Removed_example = remove-Removed 3 3 1 nodes mem list (omega arith)
