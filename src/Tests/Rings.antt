-- ===== src/Tests/Rings.antt =====
-- A doubly linked list of three elements, its loops and a spare head.
use relativistic_hash_table.Base.{
  ℕ, ◌+◌, ◌≡◌, ◌≢◌, refl, true, none, some, List, [], ◌∷◌, arith, ◌∈◌, ◌==◌, if◌then◌else◌,
}
use relativistic_hash_table.Memory.{Ptr, Links, Mem}
use relativistic_hash_table.Memory.Ensures.{Ensures}
use relativistic_hash_table.Memory.Leads.{Reads}
use relativistic_hash_table.Dlist
use relativistic_hash_table.Dlist.Ring.{IsRing, IsSpareHead, Any}
use relativistic_hash_table.Dlist.Edit.{between, append-IsRing}
use relativistic_hash_table.Dlist.Remove.{joined, remove-IsRing}
use relativistic_hash_table.Dlist.Client.{
  erase_multiples, r_erase_multiples, clear_and_verify, verify_walk,
}
use relativistic_hash_table.Dlist.Verify.{erase_multiples-IsRing, clear_and_verify-IsRing}
use relativistic_hash_table.Dlist.Check.{Rises, verify_walk-Rises}

-- The head 10, the elements 20, 30 and 40, and the spare head 50, each with the `prev` behind it.
abbrev table : List (ℕ × ℕ)
table =
    (10, 20)
    ∷ (20, 30)
    ∷ (30, 40)
    ∷ (40, 10)
    ∷ (11, 40)
    ∷ (21, 10)
    ∷ (31, 20)
    ∷ (41, 30)
    ∷ (50, 0)
    ∷ (51, 0)
    ∷ []

abbrev links_of : List (ℕ × ℕ) → Links
links_of [] a = none
links_of (entry ∷ entries) a = if a == entry.0 then some entry.1 else links_of entries a

abbrev mem : Mem
mem = record { next = links_of table; hash = λ p. 0; buckets_info = none; size = 0 }

abbrev elements : List Ptr
elements = 20 ∷ 30 ∷ 40 ∷ []

-- the values 0, 1, 2
abbrev value : Ptr → ℕ
value p = if p == 20 then 0 else if p == 30 then 1 else 2

is_one_of : (a : Ptr) → a ∈ (10 ∷ elements) → (b : Ptr) → b ∈ (10 ∷ elements) → a ≢ b + 1
is_one_of a at b at' = ground arith

ring : IsRing mem.next 10 elements
ring = record {
  forward = ground arith;
  backward = ground arith;
  apart = λ a b at at'. is_one_of a at b at';
}

spare : IsSpareHead mem.next 50 (10 ∷ elements)
spare = record {
  ne_null = ground arith;
  old_next = 0;
  has_next = refl;
  old_prev = 0;
  has_prev = refl;
  is_outside = refl;
  is_apart = λ a at. ground arith;
}

append-IsRing_example :
    Ensures Any
      (λ _ m'. (m' ≡ between mem 40 10 50) × IsRing m'.next 10 (20 ∷ 30 ∷ 40 ∷ 50 ∷ []))
      (Dlist.append 10 50)
      mem
    × Ensures Any
        (λ _ m'. (m' ≡ between mem 10 20 50) × IsRing m'.next 10 (50 ∷ 20 ∷ 30 ∷ 40 ∷ []))
        (Dlist.prepend 10 50)
        mem
append-IsRing_example = append-IsRing mem 10 elements 50 ring spare

remove-IsRing_example :
    Ensures Any
      (λ _ m'.
        (m' ≡ joined mem 20 40)
        × IsRing m'.next 10 (20 ∷ 40 ∷ [])
        × (m'.next 30 ≡ some 40)
        × (m'.next 31 ≡ some 20))
      (Dlist.remove 30)
      mem
remove-IsRing_example = remove-IsRing mem 10 (20 ∷ []) 30 (40 ∷ []) ring

erase_multiples-IsRing_example :
    Ensures Any (λ _ m'. IsRing m'.next 10 (40 ∷ [])) (erase_multiples value 4 10) mem
    × Ensures Any (λ _ m'. IsRing m'.next 10 (40 ∷ [])) (r_erase_multiples value 4 10) mem
erase_multiples-IsRing_example = erase_multiples-IsRing value 4 10 elements mem ring (omega arith)

clear_and_verify-IsRing_example :
    Ensures Any
      (λ verified m'. (verified ≡ true) × IsRing m'.next 10 [])
      (clear_and_verify true 4 10)
      mem
clear_and_verify-IsRing_example = clear_and_verify-IsRing 4 10 elements mem ring (omega arith) true

-- the same list, read as what is left of four elements
abbrev numbers : Ptr → ℕ
numbers p = if p == 20 then 1 else if p == 30 then 2 else 3

verify_walk-Rises_example :
    Ensures Reads
      (λ accepted m'.
        (accepted ≡ true → Rises numbers 0 elements) × (Rises numbers 0 elements → accepted ≡ true))
      (verify_walk numbers 4 10)
      mem
verify_walk-Rises_example = verify_walk-Rises numbers 4 10 elements mem ring (omega arith)
