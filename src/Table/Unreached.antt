-- ===== src/Table/Unreached.antt =====
-- What readers of a table reach: its cells and null, and neither a detached node nor a freed array.
use relativistic_hash_table.Base.{
  ℕ, ◌+◌, ◌^◌, ◌<◌, ◌≡◌, ◌≢◌, refl, sym, ap, ◌∙◌, Bool, true, false, Option, none, some, List, [],
  ◌∷◌, arith, ◌∈◌, ◌∉◌, ◌⊎◌, inl, inr, find, erase, ◌==◌, Bool-cases, ==→eq, ne_of_mem, subst,
}
use relativistic_hash_table.Memory.{Ptr, null, Links, Mem, BucketsInfo}
use relativistic_hash_table.Memory.Chain.{Chain, first}
use relativistic_hash_table.Memory.Retires.{Reached, bucket, link}
use relativistic_hash_table.Table.Shape.{IsTable, array}

first-cell : (xs : List Ptr) (stop : Ptr) → (first xs stop ≡ stop) ⊎ (first xs stop ∈ xs)
first-cell [] stop = inl refl
first-cell (x ∷ xs) stop = inr (ground arith)

same_link :
    (next : Links) (a x q z : Ptr) → (a == x) ≡ true → next a ≡ some q → next x ≡ some z → z ≡ q
same_link next a x q z at e e' = ground (arith, ap next (==→eq a x at))

-- The links of a run lead to its cells and to its end.
Chain-next :
    (next : Links) (stop : Ptr) (xs : List Ptr) (a q : Ptr)
    → Chain next stop xs
    → a ∈ xs
    → next a ≡ some q
    → (q ≡ stop) ⊎ (q ∈ xs)
Chain-next next stop [] a q c at e = absurd (ground arith)
Chain-next next stop (x ∷ xs) a q c at e = elim (Bool-cases (a == x)) [
  | inl here ↦
      elim (subst (λ z. (z ≡ stop) ⊎ (z ∈ xs)) (same_link next a x q (first xs stop) here e c.1)
        (first-cell xs stop)) [ inl end ↦ inl end | inr cell ↦ inr (in_tail q x xs cell) ]
  | inr there ↦ elim (Chain-next next stop xs a q c.3 (past_head a x xs there at) e) [
    | inl end ↦ inl end
    | inr cell ↦ inr (in_tail q x xs cell)
  ]
]
  where
    in_tail : (q x : Ptr) (xs : List Ptr) → q ∈ xs → q ∈ (x ∷ xs)
    in_tail q x xs at = ground arith

    past_head : (a x : Ptr) (xs : List Ptr) → (a == x) ≡ false → a ∈ (x ∷ xs) → a ∈ xs
    past_head a x xs off at = ground arith

array_in : Ptr → Option BucketsInfo → BucketsInfo
array_in base none = array 0 base
array_in base (some info) = info

-- a cell of a table with the lists `chain`
abbrev pub IsCell : (k : ℕ) (base : Ptr) (chain : ℕ → List Ptr) → Ptr → Type 0
IsCell k base chain x = (i : ℕ) × (i < 2 ^ k) × x ∈ ((base + i) ∷ chain i)

module _ {m : Mem} {k : ℕ} {base : Ptr} {chain : ℕ → List Ptr} (t : IsTable m k base chain)
    (null_free : m.next null ≡ none) where
  bucket-IsCell :
      (info : BucketsInfo) (i : ℕ)
      → array k base ≡ info
      → i < info.nr_buckets_power_of2
      → IsCell k base chain (info.buckets + i)
  bucket-IsCell info i e lt =
      subst (λ info. i < info.nr_buckets_power_of2 → IsCell k base chain (info.buckets + i)) e
        (λ lt. (i, lt, ground arith)) lt

  -- What is reached is a cell of the table or null.
  pub Reached-IsCell : {x : Ptr} → Reached m x → (x ≡ null) ⊎ IsCell k base chain x
  unfolding array_in
  Reached-IsCell (bucket {info = info} {i = i} e lt) =
      inr (bucket-IsCell info i (ap (array_in base) (sym t.info ∙ e)) lt)
  Reached-IsCell (link {x = x} {y = y} r e) = elim (Reached-IsCell r) [
    | inl at ↦ absurd (null_linked at e)
    | inr (i, lt, at) ↦
        elim (Chain-next m.next null ((base + i) ∷ chain i) x y (t.lists i lt) at e) [
          | inl end ↦ inl end
          | inr cell ↦ inr (i, lt, cell)
        ]
  ]
    where
      null_linked : {x y : Ptr} → x ≡ null → m.next x ≢ some y
      null_linked {x} {y} at e = ground (arith, ap m.next at)

  -- A cell that is neither null nor one of the table is not reached.
  pub not_reached :
      (x : Ptr) → x ≢ null → ((i : ℕ) → i < 2 ^ k → x ∉ ((base + i) ∷ chain i)) → Reached m x → ⊥
  not_reached x live out r = elim (Reached-IsCell r) [
    | inl at ↦ live at
    | inr (i, lt, at) ↦ ne_of_mem ((base + i) ∷ chain i) (out i lt) at refl
  ]

pub find-mem : (p : ℕ → Bool) (xs : List ℕ) → (find p xs ∈ xs) ⊎ (find p xs ≡ 0)
find-mem p [] = inr refl
find-mem p (x ∷ xs) = ground (arith, find-mem p xs)

-- The member that is erased is not left over.
pub find-not_erased :
    (p : ℕ → Bool) (next : Links) (stop : Ptr) (xs : List Ptr)
    → Chain next stop xs
    → find p xs ≢ null
    → find p xs ∉ erase p xs
find-not_erased p next stop [] c live = refl
find-not_erased p next stop (x ∷ xs) c live = elim (Bool-cases (p x)) [
  | inl taken ↦ rw taken c.2
  | inr past ↦
      let rest = find-not_erased p next stop xs c.3 (rw past at live) in
      rw past (still (find p xs) x (erase p xs) (member (find-mem p xs) (rw past at live)) rest)
]
  where
    still : (a x : Ptr) (ys : List Ptr) → a ≢ x → a ∉ ys → a ∉ (x ∷ ys)
    still a x ys ne out = ground arith

    member : (find p xs ∈ xs) ⊎ (find p xs ≡ 0) → find p xs ≢ null → find p xs ≢ x
    member (inl at) live e = ne_of_mem xs c.2 at (sym e)
    member (inr none_found) live e = absurd (live none_found)
