-- ===== src/Table/Published.antt =====
-- A table whose new array of twice as many buckets has just been published.
use native.Mathlib.Nat.{mod-lt, one-le-pow}
use relativistic_hash_table.Base.{
  ℕ, suc, ◌+◌, ◌-◌, ◌%◌, ◌^◌, ◌≤◌, ◌<◌, ◌≡◌, ◌≢◌, inl, inr, refl, sym, ap, ◌∙◌, Bool, true, false,
  none, some, List, [], ◌∷◌, ◌∉◌, arith, subst, Bool-cases, ltb, drop_until, mem_of-mem-drop_until,
}
use relativistic_hash_table.Memory.{Ptr, null, Links, BucketsInfo, Mem, within}
use relativistic_hash_table.Memory.Chain.{first, IsSlist, Chain}
use relativistic_hash_table.Memory.Leads.{Unlinked}
use relativistic_hash_table.Buckets.Setup.{IsUnused}
use relativistic_hash_table.Unzip.{is}
use relativistic_hash_table.Unzip.Settled.{first-mem}
use relativistic_hash_table.Unzip.Array.{Apart, Round}
use relativistic_hash_table.Unzip.Shared.{Shared}
use relativistic_hash_table.Unzip.Rounds.{Finished}
use relativistic_hash_table.Table.Shape.{IsTable, array}
use relativistic_hash_table.Table.Halving.{double}
use relativistic_hash_table.Table.Twice.{mask, table-Apart, unfresh}
use relativistic_hash_table.Table.Doubling.{Split, old_list}
use relativistic_hash_table.Table.Halved.{halved, halved_lists, halved-mem}

-- What the doubling leaves: a table on the new array, in which each new bucket has its nodes of the
-- old one in the order of before.
abbrev pub Doubled :
    (k : ℕ) (base fresh : Ptr) (chain : ℕ → List Ptr) → Mem → BucketsInfo → Mem → Type 0
Doubled k base fresh chain m old m' =
    (old ≡ array k base)
    × IsTable m' (suc k) fresh (halved k m.hash chain)
    × (m'.hash ≡ m.hash)
    × (m'.size ≡ m.size)
    × (m'.next base ≡ some null)

Chain-drop_until :
    (next : Links) (p : Ptr → Bool) (xs : List Ptr)
    → Chain next null xs
    → Chain next null (drop_until p xs)
Chain-drop_until next p [] c = tt
Chain-drop_until next p (x ∷ xs) c = elim (Bool-cases (p x)) [
  | inl here ↦ rw here c
  | inr later ↦ rw later (Chain-drop_until next p xs c.3)
]

module _ (k : ℕ) (base fresh : Ptr) (chain : ℕ → List Ptr) (m : Mem) (t : IsTable m k base chain)
    (fits : suc k ≤ 30) (unused : IsUnused m fresh (2 ^ suc k)) (live : fresh ≢ null)
    (null_free : m.next null ≡ none)
    (heads : (i : ℕ) → i < 2 ^ k → Unlinked m.next (base + i)) where
  pub apart : Apart fresh base (2 ^ k) chain
  apart = table-Apart k base fresh chain m t fits unused null_free

  -- The memory in which the new array is published.
  module _ (m' : Mem) (s : Split k base fresh chain m t fits unused null_free (2 ^ k) m') where
    abbrev pub published : Mem
    published = record m' { buckets_info = some (array (suc k) fresh) }

    old : (j : ℕ) → j < 2 ^ k → IsSlist m'.next (base + j) (chain j)
    old = old_list k base fresh chain m t fits unused null_free (2 ^ k) m' s

    entry :
        (i j : ℕ)
        → i < 2 ^ k + 2 ^ k
        → j < 2 ^ k
        → m'.next (fresh + i) ≡ some (first (drop_until (is m'.hash (mask k) i) (chain j)) null)
        → IsSlist m'.next (fresh + i) (drop_until (is m.hash (mask k) i) (chain j))
    entry i j lt lt' e = (
      (λ e. live (omega (arith, e))),
      subst
          (λ hash.
            m'.next (fresh + i) ≡ some (first (drop_until (is hash (mask k) i) (chain j)) null))
          s.same_hash e,
      outside,
      Chain-drop_until m'.next (is m.hash (mask k) i) (chain j) (old j lt').3,
    )
      where
        outside : (fresh + i) ∉ drop_until (is m.hash (mask k) i) (chain j)
        outside = ground (
          arith,
          apart.cells_out i j lt lt',
          mem_of-mem-drop_until (is m.hash (mask k) i) (fresh + i) (chain j),
        )

    pub shared : (j : ℕ) → j < 2 ^ k → Shared m.hash (mask k) fresh base (2 ^ k) chain j published
    shared j lt = record {
      head = (old j lt).1;
      entry0 = entry j j (omega (arith, lt)) lt (s.done0 j lt lt);
      entry1 = entry (j + 2 ^ k) j (omega (arith, lt)) lt (s.done1 j lt lt);
    }

    still_free : m'.next null ≡ none
    still_free = s.cells null (ground (arith, live)) ∙ null_free

    -- The new array is not linked to the old one.
    not_back :
        (hash : Ptr → ℕ) (i c j : ℕ)
        → i < 2 ^ k
        → j < 2 ^ k
        → first (drop_until (is hash (mask k) c) (chain j)) null ≢ base + i
    not_back hash i c j lt lt' e =
        elim (first-mem (chain j) (drop_until (is hash (mask k) c) (chain j))
          (λ a at. mem_of-mem-drop_until (is hash (mask k) c) a (chain j) at)) [
            | inl end ↦ absurd ((t.lists i lt).0 (sym e ∙ end))
            | inr node ↦ absurd (ground (arith, e, node, apart.base_out i j lt lt'))
          ]

    not_linked :
        (i a c j : ℕ)
        → i < 2 ^ k
        → j < 2 ^ k
        → m'.next a ≡ some (first (drop_until (is m'.hash (mask k) c) (chain j)) null)
        → m'.next a ≢ some (base + i)
    not_linked i a c j lt lt' e e' = not_back m'.hash i c j lt lt' (ground (arith, e, e'))

    still_heads : (i : ℕ) → i < 2 ^ k → Unlinked m'.next (base + i)
    still_heads i lt a e = elim (Bool-cases (within fresh (2 ^ suc k) a)) [
      | inr outside ↦ heads i lt a (sym (s.cells a outside) ∙ e)
      | inl inside ↦ elim (Bool-cases (ltb a (fresh + 2 ^ k))) [
        | inl low ↦
            not_linked i a (a - fresh) (a - fresh) lt (ground (arith, inside, low))
              (ap m'.next (back0 inside)
                ∙ s.done0 (a - fresh) (ground (arith, inside, low)) (ground (arith, inside, low)))
              e
        | inr high ↦
            not_linked i a (a - (fresh + 2 ^ k) + 2 ^ k) (a - (fresh + 2 ^ k)) lt
              (ground (arith, inside, high, double k))
              (ap m'.next (back1 high)
                ∙ s.done1 (a - (fresh + 2 ^ k)) (ground (arith, inside, high, double k))
                    (ground (arith, inside, high, double k)))
              e
      ]
    ]
      where
        back0 : within fresh (2 ^ suc k) a ≡ true → a ≡ fresh + (a - fresh)
        back0 inside = ground (arith, inside)

        back1 : ltb a (fresh + 2 ^ k) ≡ false → a ≡ fresh + (a - (fresh + 2 ^ k) + 2 ^ k)
        back1 high = ground (arith, high)

    pub round : Round m.hash fresh base (2 ^ k) chain 0 published published
    round = record {
      same_hash = s.same_hash;
      same_info = refl;
      same_size = refl;
      null_free = still_free;
      null_free0 = still_free;
      heads = still_heads;
      heads0 = still_heads;
      agree = λ i a le lt at. refl;
    }

    pub finish :
        (m'' : Mem)
        → Finished m.hash (mask k) fresh base (2 ^ k) chain published m''
        → Doubled k base fresh chain m (array k base) m''
    finish m'' f = (
      refl,
      record {
        info = f.same_info;
        fits = fits;
        lists =
            halved_lists k fresh chain m fits m''.next
              (λ j lt. ((f.all_done j lt).list, (f.all_done j lt).other));
        hashed = λ i x lt at.
            ap (λ hash. hash x % 2 ^ suc k) f.same_hash
            ∙ (halved-mem k fresh chain m fits i x at).1;
        nodes = λ i x lt at.
            unfresh k base fresh chain m t fits unused null_free (i % 2 ^ k) x
              (mod-lt i (one-le-pow k 2 (omega arith)))
              (ground (arith, (halved-mem k fresh chain m fits i x at).0));
      },
      f.same_hash,
      f.same_size ∙ s.same_size,
      ap m''.next (omega arith) ∙ (f.all_done 0 (one-le-pow k 2 (omega arith))).at_end,
    )
