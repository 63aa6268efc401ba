-- ===== src/Table/Twice.antt =====
-- A table and an unused array for twice as many buckets.
use Prim.Native.Nat.{bit_and}
use native.Mathlib.Nat.{mod-lt, one-le-pow, mod-eq_of_lt, add-mod_right}
use relativistic_hash_table.Base.{
  ℕ, suc, ◌+◌, ◌-◌, ◌%◌, ◌^◌, ◌≤◌, ◌<◌, ◌≡◌, ◌≢◌, ◌⊎◌, inl, inr, sym, ap, ◌∙◌, true, false, ◌||◌,
  none, List, ◌∷◌, ◌==◌, ◌∈◌, ◌∉◌, arith, subst, Bool-cases, ltb, all, all_of_mem,
}
use relativistic_hash_table.Memory.{Ptr, null, Mem, within}
use relativistic_hash_table.Memory.Chain.{Chain-used}
use relativistic_hash_table.Bits.{bit_and_mask}
use relativistic_hash_table.Buckets.{mask_of}
use relativistic_hash_table.Buckets.Setup.{IsUnused}
use relativistic_hash_table.Unzip.{is}
use relativistic_hash_table.Unzip.Array.{Apart}
use relativistic_hash_table.Table.Shape.{IsTable, mask_of-pow, cell-not_node}
use relativistic_hash_table.Table.Halving.{double, mod_double}

abbrev pub mask : (k : ℕ) → ℕ
mask k = mask_of (2 ^ suc k)

-- A node's new bucket.
pub is-mod :
    (hash : Ptr → ℕ) (k i x : ℕ) → suc k ≤ 30 → is hash (mask k) i x ≡ (hash x % 2 ^ suc k == i)
is-mod hash k i x fits =
    ap (λ n. bit_and (hash x) n == i) (mask_of-pow (suc k) fits)
    ∙ ap (λ n. n == i) (bit_and_mask (suc k) (hash x))

either : (r p j : ℕ) → r < p + p → r % p ≡ j → (r ≡ j) ⊎ (r ≡ j + p)
either r p j lt e = elim (Bool-cases (ltb r p)) [
  | inl low ↦ inl (sym (mod-eq_of_lt (below low)) ∙ e)
  | inr high ↦ inr (above (ground (arith, high)))
]
  where
    below : ltb r p ≡ true → r < p
    below low = ground (arith, low)

    above : p ≤ r → r ≡ j + p
    above le = omega (
      arith,
      le,
      sym (mod-eq_of_lt rest) ∙ sym (add-mod_right (r - p) p) ∙ ap (λ n. n % p) back ∙ e,
    )
      where
        rest : r - p < p
        rest = omega (arith, le, lt)

        back : r - p + p ≡ r
        back = omega (arith, le)

either_half : (k h j : ℕ) → h % 2 ^ k ≡ j → (h % 2 ^ suc k ≡ j) ⊎ (h % 2 ^ suc k ≡ j + 2 ^ k)
either_half k h j e =
    either (h % 2 ^ suc k) (2 ^ k) j
      (omega (arith, double k, mod-lt h (one-le-pow (suc k) 2 (omega arith)))) (mod_double k h ∙ e)

module _ (k : ℕ) (base fresh : Ptr) (chain : ℕ → List Ptr) (m : Mem) (t : IsTable m k base chain)
    (fits : suc k ≤ 30) where
  pub two_buckets :
      (hash : Ptr → ℕ) (j : ℕ)
      → hash ≡ m.hash
      → j < 2 ^ k
      → all (λ x. is hash (mask k) j x || is hash (mask k) (j + 2 ^ k) x) (chain j) ≡ true
  two_buckets hash j same lt =
      all_of_mem (λ x. is hash (mask k) j x || is hash (mask k) (j + 2 ^ k) x) (chain j)
        λ x at.
          subst (λ hash. (is hash (mask k) j x || is hash (mask k) (j + 2 ^ k) x) ≡ true) (sym same)
            (rw (is-mod m.hash k j x fits, is-mod m.hash k (j + 2 ^ k) x fits)
              (ground (arith, either_half k (m.hash x) j (t.hashed j x lt at))))

  module _ (unused : IsUnused m fresh (2 ^ suc k)) (null_free : m.next null ≡ none) where
    -- No cell of the table is one of the new array.
    pub unfresh :
        (j a : ℕ) → j < 2 ^ k → a ∈ ((base + j) ∷ chain j) → within fresh (2 ^ suc k) a ≡ false
    unfresh j a lt at =
        ground (arith, unused a, Chain-used m.next null ((base + j) ∷ chain j) a (t.lists j lt) at)

    pub table-Apart : Apart fresh base (2 ^ k) chain
    table-Apart = record {
      base_live = λ e. (t.lists 0 (one-le-pow k 2 (omega arith))).0 (omega (arith, e));
      base_out = λ i j lt lt'. cell-not_node t i j lt lt';
      base_off = λ i j lt lt' e. absurd (cell_unfresh i j lt lt' e);
      cells_out = cells_out;
      null_out =
          λ j lt. ground (arith, Chain-used m.next null ((base + j) ∷ chain j) null (t.lists j lt));
      own = λ i j a lt lt' at at'. sym (t.hashed i a lt at) ∙ t.hashed j a lt' at';
    }
      where
        in_new : (j : ℕ) → j < 2 ^ k + 2 ^ k → within fresh (2 ^ suc k) (fresh + j) ≡ true
        in_new j lt = ground (arith, double k)

        cell_unfresh : (i j : ℕ) → i < 2 ^ k → j < 2 ^ k + 2 ^ k → (base + i) ≢ fresh + j
        cell_unfresh i j lt lt' e = ground (arith, e, in_new j lt', unfresh i (base + i) lt)

        cells_out : (i j : ℕ) → i < 2 ^ k + 2 ^ k → j < 2 ^ k → (fresh + i) ∉ chain j
        cells_out i j lt lt' = ground (arith, in_new i lt, unfresh j (fresh + i) lt')
