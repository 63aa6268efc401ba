-- ===== src/Table/Shape.antt =====
-- What a table is in memory: an array of 2 ^ k buckets, each a list of the nodes whose hash ends in
-- the bucket's number.
use Prim.Native.Nat.{bit_and}
use native.Mathlib.Nat.{one-le-pow, pow-le-pow_right, mod-lt}
use relativistic_hash_table.Base.{
  suc, ℕ, ◌+◌, ◌-◌, ◌%◌, ◌^◌, ◌≤◌, ◌<◌, ◌≡◌, ◌≢◌, ◌∙◌, ap, false, some, List, ◌∷◌, arith, ◌∈◌, ◌∉◌,
}
use relativistic_hash_table.Bits.{bit_and_mask}
use relativistic_hash_table.Memory.{Ptr, null, Links, BucketsInfo, Mem, within}
use relativistic_hash_table.Memory.Chain.{first, IsSlist, Chain-frame}
use relativistic_hash_table.Buckets.{mask_of}
use relativistic_hash_table.Table.{bucket_of}

-- Every chain hangs on its bucket and holds nodes of that bucket alone. The cells of the array are
-- no nodes. An array of more than 2 ^ 30 buckets cannot be set up, since it is counted with an `int`.
pub record IsTable (m : Mem) (k : ℕ) (base : Ptr) (chain : ℕ → List Ptr) : Type 0 where
  pub info : m.buckets_info ≡ some (record { nr_buckets_power_of2 = 2 ^ k; buckets = base })
  pub fits : k ≤ 30
  pub lists : (i : ℕ) → i < 2 ^ k → IsSlist m.next (base + i) (chain i)
  pub hashed : (i x : ℕ) → i < 2 ^ k → x ∈ chain i → m.hash x % 2 ^ k ≡ i
  pub nodes : (i x : ℕ) → i < 2 ^ k → x ∈ chain i → within base (2 ^ k) x ≡ false

abbrev pub array : (k : ℕ) (base : Ptr) → BucketsInfo
array k base = record { nr_buckets_power_of2 = 2 ^ k; buckets = base }

pub mask_of-pow : (k : ℕ) → k ≤ 30 → mask_of (2 ^ k) ≡ 2 ^ k - 1
mask_of-pow k fits = omega (arith, one-le-pow k 2, pow-le-pow_right {n = 2} (omega arith) fits)

-- The bucket of a hash value is that of its last k binary digits.
pub bucket_of-mod :
    (k : ℕ) (base : Ptr) (h : ℕ) → k ≤ 30 → bucket_of (array k base) h ≡ base + h % 2 ^ k
unfolding bucket_of
bucket_of-mod k base h fits =
    ap (λ mask. base + bit_and h mask) (mask_of-pow k fits) ∙ ap (λ i. base + i) (bit_and_mask k h)

pub index-lt : (k h : ℕ) → h % 2 ^ k < 2 ^ k
index-lt k h = mod-lt h (one-le-pow k 2 (omega arith))

-- Half the buckets of a table can be counted with an `int`.
pub few_buckets :
    {m : Mem} (k : ℕ) {base : Ptr} {chain : ℕ → List Ptr}
    → IsTable m (suc k) base chain
    → 2 ^ k < 2 ^ 31
few_buckets k t = omega (arith, pow-le-pow_right {n = 2} (omega arith) (below t.fits))
  where
    below : suc k ≤ 30 → k ≤ 30
    below h = omega (arith, h)

module _ {m : Mem} {k : ℕ} {base : Ptr} {chain : ℕ → List Ptr} (t : IsTable m k base chain) where
  pub IsTable-head : m.next base ≡ some (first (chain 0) null)
  IsTable-head = ap m.next (omega arith) ∙ (t.lists 0 (one-le-pow k 2 (omega arith))).1

  -- No node is a cell of the array.
  pub node-ne_cell : (i j x : ℕ) → i < 2 ^ k → j < 2 ^ k → x ∈ chain i → x ≢ base + j
  node-ne_cell i j x lt lt' at e = ground (arith, t.nodes i x lt at)

  pub cell-not_node : (i j : ℕ) → i < 2 ^ k → j < 2 ^ k → (base + i) ∉ chain j
  cell-not_node i j lt lt' = ground (arith, t.nodes j (base + i) lt')

  -- Two buckets share no cell.
  pub cells_apart :
      (i j a : ℕ)
      → i < 2 ^ k
      → j < 2 ^ k
      → i ≢ j
      → a ∈ ((base + i) ∷ chain i)
      → a ∉ ((base + j) ∷ chain j)
  cells_apart i j a lt lt' ne at =
      ground (arith, t.hashed i a lt, t.hashed j a lt', t.nodes i a lt, cell-not_node i j lt lt')

  -- A bucket keeps its list if no link of its cells changes.
  pub IsSlist-frame :
      (next' : Links) (i : ℕ)
      → i < 2 ^ k
      → ((a : Ptr) → a ∈ ((base + i) ∷ chain i) → next' a ≡ m.next a)
      → IsSlist next' (base + i) (chain i)
  IsSlist-frame next' i lt same =
      Chain-frame m.next next' null ((base + i) ∷ chain i) (t.lists i lt) same
