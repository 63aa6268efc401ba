-- ===== src/Unzip/Serve.antt =====
-- The two stores of unzipOneSegment serve every reader.
use relativistic_hash_table.Base.{
  ℕ, ◌+◌, ◌<◌, ◌≡◌, ◌≢◌, inl, inr, refl, sym, ◌∙◌, true, none, some, List, ◌∷◌, ◌++◌, ◌==◌, ◌∉◌,
  all, arith, ==→eq, ==_false, subst, Bool-cases, has, all-mem,
}
use relativistic_hash_table.Memory.{Ptr, null, Mem, put, store}
use relativistic_hash_table.Memory.Ensures.{relink}
use relativistic_hash_table.Memory.Chain.{first, Chain, put_other}
use relativistic_hash_table.Memory.Leads.{Leads, Unlinked, Leads-put_free, Leads-null}
use relativistic_hash_table.Memory.Reach.{
  Leads-trans, Chain-Leads, Unlinked-Leads, Leads-put_past_run, Leads-mem, Leads-put_off,
}
use relativistic_hash_table.Unzip.{is, Serves}

module _ (hash : Ptr → ℕ) (mask fresh nr : ℕ) (m0 m : Mem) where
  -- A store to a cell that no cell is linked to, and that is none of the new buckets.
  pub Serves_unlinked :
      (src q : Ptr)
      → Unlinked m0.next src
      → Unlinked m.next src
      → ((c : ℕ) → c < nr → src ≢ fresh + c)
      → Serves hash mask fresh nr m0 m (store src q) (relink m src q)
  Serves_unlinked src q free0 free off = record {
    no_wait = refl;
    finds = λ c x t lt at own live r. Leads-put_free src q free r (elsewhere c x lt at);
    stays = λ s c x y lt at e.
        s c x y lt at (sym (put_other m.next src (some q) x (elsewhere c x lt at)) ∙ e);
  }
    where
      elsewhere : (c x : ℕ) → c < nr → Leads m0.next x (fresh + c) → x ≢ src
      elsewhere c x lt at e =
          off c lt (sym (Unlinked-Leads free0 (subst (λ z. Leads m0.next z (fresh + c)) e at)))

  -- Skipping a run of nodes of the bucket `d` behind a node that the readers of `d` do not meet.
  module _ (d : ℕ) (zipper : Ptr) (gone behind : List Ptr) (seen : List Ptr)
      (null_free0 : m0.next null ≡ none) (null_free : m.next null ≡ none)
      (own : all (is hash mask d) gone ≡ true) (run0 : Chain m0.next null (zipper ∷ gone ++ behind))
      (run_gone : Chain m.next (first behind null) gone)
      (at_gone : m.next zipper ≡ some (first gone (first behind null)))
      (seen0 : Chain m0.next null ((fresh + d) ∷ seen))
      (seen_now : Chain m.next null ((fresh + d) ∷ seen))
      (unseen : zipper ∉ ((fresh + d) ∷ seen)) where
    skips :
        (x t : ℕ)
        → Leads m0.next x (fresh + d)
        → t ≢ null
        → Leads m.next t x
        → Leads (put m.next zipper (some (first behind null))) t x
    skips x t at live r = elim (Leads-mem m0.next (fresh + d) x seen null_free0 seen0 at) [
      | inl inside ↦
          elim (Leads-put_off m.next x t zipper (first behind null) ((fresh + d) ∷ seen) null_free
            seen_now unseen inside r) [ inl rest ↦ rest | inr end ↦ absurd (live end) ]
      | inr end ↦ absurd (live (Leads-null null_free end r))
    ]

    pub Serves_skip :
        Serves hash mask fresh nr m0 m
          (store zipper (first behind null))
          (relink m zipper (first behind null))
    Serves_skip = record {
      no_wait = refl;
      finds = λ c x t lt at mine live r. elim (Bool-cases (has t gone)) [
        | inl skipped ↦
            skips x t
              (subst (λ i. Leads m0.next x (fresh + i))
                (same_bucket c t mine (all-mem (is hash mask d) gone t own skipped)) at)
              live r
        | inr other ↦ Leads-put_past_run zipper gone (first behind null) at_gone run_gone other r
      ];
      stays = λ s c x y lt at e. elim (Bool-cases (x == zipper)) [
        | inl here ↦
            subst (λ z. Leads m0.next z (fresh + c)) (target x y here e)
              (Leads-trans (subst (λ z. Leads m0.next z (fresh + c)) (==→eq x zipper here) at)
                (Chain-Leads m0.next zipper gone behind run0))
        | inr there ↦ s c x y lt at (
            sym (put_other m.next zipper (some (first behind null)) x (==_false x zipper there))
            ∙ e)
      ];
    }
      where
        same_bucket : (c t : ℕ) → is hash mask c t ≡ true → is hash mask d t ≡ true → c ≡ d
        same_bucket c t e e' = ground arith

        target :
            (x y : Ptr)
            → (x == zipper) ≡ true
            → put m.next zipper (some (first behind null)) x ≡ some y
            → first behind null ≡ y
        target x y e e' = ground arith
