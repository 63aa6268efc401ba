-- ===== src/Dlist/Check.antt =====
-- A reader of RcuDlistTest: which lists its check accepts.
use mathlib.Core.List.{append_assoc}
use relativistic_hash_table.Base.{
  ℕ, zero, suc, ◌+◌, ◌%◌, ◌≤◌, ◌<◌, ◌≡◌, refl, sym, Bool, true, false, none, some, List, [], ◌∷◌,
  ◌++◌, arith, subst, ◌==◌, ==→eq, ==_false, ◌&&◌, ltb, ◌≢◌, length, Bool-cases, inl, inr, ==-refl,
  ◌⊎◌,
}
use relativistic_hash_table.Memory.{Ptr, Mem}
use relativistic_hash_table.Memory.Ensures.{Ensures, returns, loads, mono}
use relativistic_hash_table.Memory.Chain.{first}
use relativistic_hash_table.Memory.Leads.{Reads}
use relativistic_hash_table.Dlist.Iter.{begin, is_end, advance}
use relativistic_hash_table.Dlist.Ring.{IsRing}
use relativistic_hash_table.Dlist.Remove.{gone-next}
use relativistic_hash_table.Dlist.Erase.{element_ne_head}
use relativistic_hash_table.Dlist.Client.{verify_element, verify_loop, verify_walk}
use relativistic_hash_table.Dlist.Walk.{verify_element-Lags}

-- A list that a walk from `expected` on accepts: the values rise, and each number that is left out in
-- front of one of them is 0 or 1 modulo 8.
abbrev pub Rises : (value : Ptr → ℕ) (expected : ℕ) → List Ptr → Type 0
Rises value expected [] = Unit
Rises value expected (x ∷ xs) =
    (expected ≤ value x)
    × ((n : ℕ) → expected ≤ n → n < value x → n % 8 ≤ 1)
    × Rises value (value x + 1) xs

-- `e` is the value `v`, or one or two numbers may be left out in front of it.
abbrev Near : (e v : ℕ) → Type 0
Near e v = (e ≡ v) ⊎ ((e + 1 ≡ v) × (e % 8 ≤ 1)) ⊎ ((e + 2 ≡ v) × (e % 8 ≡ 0))

Near-cases : (e v : ℕ) → Near e v ⊎ (Near e v → ⊥)
Near-cases e v = elim (Bool-cases (e == v)) [
  | inl same ↦ inl (inl (==→eq e v same))
  | inr off ↦ elim (Bool-cases (e + 1 == v)) [
    | inl one ↦ elim (Bool-cases (ltb (e % 8) 2)) [
      | inl low ↦ inl (inr (inl (==→eq (e + 1) v one, ground (arith, low))))
      | inr high ↦ inr (λ near. far_one near (ground (arith, high)) (==→eq (e + 1) v one))
    ]
    | inr off1 ↦ elim (Bool-cases ((e + 2 == v) && (e % 8 == 0))) [
      | inl two ↦ inl (inr (inr (ground (arith, two), ground (arith, two))))
      | inr off2 ↦ inr (λ near. far_two near (==_false e v off) (==_false (e + 1) v off1) off2)
    ]
  ]
]
  where
    far_one : Near e v → 2 ≤ e % 8 → e + 1 ≡ v → ⊥
    far_one (inl same) high at = omega arith
    far_one (inr (inl one)) high at = omega arith
    far_one (inr (inr two)) high at = omega arith

    far_two : Near e v → e ≢ v → e + 1 ≢ v → ((e + 2 == v) && (e % 8 == 0)) ≡ false → ⊥
    far_two (inl same) off off1 off2 = off same
    far_two (inr (inl one)) off off1 off2 = off1 one.0
    far_two (inr (inr two)) off off1 off2 = ground (arith, two.0, two.1, off2)

Near-left_out : (e v : ℕ) → Near e v → (n : ℕ) → e ≤ n → n < v → n % 8 ≤ 1
Near-left_out e v (inl same) n low high = omega arith
Near-left_out e v (inr (inl one)) n low high = omega arith
Near-left_out e v (inr (inr two)) n low high = omega arith

left_out-Near : (e v : ℕ) → e ≤ v → ((n : ℕ) → e ≤ n → n < v → n % 8 ≤ 1) → Near e v
left_out-Near e v low out = elim (Bool-cases (e == v)) [
  | inl same ↦ inl (==→eq e v same)
  | inr off ↦
      let first = out e (omega arith) (ground (arith, low, off)) in
      elim (Bool-cases (e + 1 == v)) [
        | inl one ↦ inr (inl (==→eq (e + 1) v one, first))
        | inr off1 ↦
            let second = out (e + 1) (omega arith) (ground (arith, low, off, off1)) in
            elim (Bool-cases (e + 2 == v)) [
              | inl two ↦ inr (inr (==→eq (e + 2) v two, omega (arith, first, second)))
              | inr off2 ↦ absurd (
                  omega (
                    arith,
                    first,
                    second,
                    out (e + 2) (omega arith) (ground (arith, low, off, off1, off2)),
                  ))
            ]
      ]
]

verify_element-Near :
    (value : Ptr → ℕ) (x : Ptr) (e : ℕ)
    → Near e (value x)
    → verify_element value x e ≡ some (value x + 1)
verify_element-Near value x e near = verify_element-Lags value x e (value x) near refl

verify_element-far :
    (value : Ptr → ℕ) (x : Ptr) (e : ℕ) → (Near e (value x) → ⊥) → verify_element value x e ≡ none
unfolding verify_element
verify_element-far value x e far = ground (arith, apart0, apart1, apart2)
  where
    apart0 : e ≢ value x
    apart0 at = far (inl at)

    apart1 : e + 1 ≡ value x → e % 8 ≤ 1 → ⊥
    apart1 at low = far (inr (inl (at, low)))

    apart2 : e + 2 ≡ value x → e % 8 ≢ 0
    apart2 at zero_left = far (inr (inr (at, zero_left)))

-- What a walk from `expected` on says of a list.
abbrev Judges : (value : Ptr → ℕ) (expected : ℕ) → List Ptr → Bool → Type 0
Judges value expected xs accepted =
    (accepted ≡ true → Rises value expected xs) × (Rises value expected xs → accepted ≡ true)

module _ (value : Ptr → ℕ) (l : Ptr) (m : Mem) where
  verify_loop-Rises :
      (fuel : ℕ) (front xs : List Ptr) (e : ℕ)
      → IsRing m.next l (front ++ xs)
      → length xs < fuel
      → Ensures Reads
          (λ accepted m'. Judges value e xs accepted)
          (verify_loop value l fuel (first xs l) e)
          m
  unfolding verify_loop is_end advance
  verify_loop-Rises zero front xs e ring enough = absurd (omega arith)
  verify_loop-Rises (suc fuel) front [] e ring enough =
      rw (==-refl l) (returns ((λ yes. tt), λ rises. refl))
  verify_loop-Rises (suc fuel) front (x ∷ xs) e ring enough = elim (Near-cases e (value x)) [
    | inl near ↦
        rw (element_ne_head m l front x xs ring, verify_element-Near value x e near)
          (loads (gone-next m l front x xs ring) refl (
            mono
              (verify_loop-Rises fuel (front ++ (x ∷ [])) xs (value x + 1)
                (subst (IsRing m.next l) (sym (append_assoc front (x ∷ []) xs)) ring)
                (omega (arith, enough)))
              λ accepted m' (sound, whole). (
                (λ yes. (near_le near, Near-left_out e (value x) near, sound yes)),
                (λ rises. whole rises.2),
              )))
    | inr far ↦
        rw (element_ne_head m l front x xs ring, verify_element-far value x e far)
          (returns (
            (λ never. cc never),
            (λ rises. absurd (far (left_out-Near e (value x) rises.0 rises.1))),
          ))
  ]
    where
      near_le : {v : ℕ} → Near e v → e ≤ v
      near_le (inl same) = omega arith
      near_le (inr (inl one)) = omega arith
      near_le (inr (inr two)) = omega arith

-- A walk over any list, with more rounds than it has elements, only reads, and `verify_walk` returns
-- true, so that it does not throw, exactly if the values rise from 0 and each number that is left out
-- in front of one of them is 0 or 1 modulo 8.
pub verify_walk-Rises :
    (value : Ptr → ℕ) (fuel : ℕ) (l : Ptr) (xs : List Ptr) (m : Mem)
    → IsRing m.next l xs
    → length xs < fuel
    → Ensures Reads
        (λ accepted m'. (accepted ≡ true → Rises value 0 xs) × (Rises value 0 xs → accepted ≡ true))
        (verify_walk value fuel l)
        m
unfolding verify_walk begin
verify_walk-Rises value fuel l xs m ring enough =
    loads ring.forward.1 refl (verify_loop-Rises value l m fuel [] xs 0 ring enough)
