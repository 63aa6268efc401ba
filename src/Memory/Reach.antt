-- ===== src/Memory/Reach.antt =====
-- Which cells a reader of a run can get to, and writes that skip a part of a run.
use relativistic_hash_table.Base.{
  Option, ◌≡◌, refl, sym, ap, ◌∙◌, none, some, List, [], ◌∷◌, ◌++◌, arith, ◌==◌, ◌∉◌, ◌∈◌,
  has-append, Bool-cases, inl, inr, ◌⊎◌, ne_of_mem, subst, ==→eq,
}
use relativistic_hash_table.Memory.{Ptr, null, Links, put}
use relativistic_hash_table.Memory.Chain.{first, Chain, Chain-put, Chain-right, put_other}
use relativistic_hash_table.Memory.Leads.{Leads, here, there, Unlinked, Leads-null}

pub Leads-trans : {next : Links} {t y x : Ptr} → Leads next y x → Leads next t y → Leads next t x
Leads-trans here r = r
Leads-trans (there e r') r = there e (Leads-trans r' r)

-- A run is walked from its first cell to what follows it.
pub Chain-Leads :
    (next : Links) (x : Ptr) (xs ys : List Ptr)
    → Chain next null (x ∷ xs ++ ys)
    → Leads next (first ys null) x
Chain-Leads next x [] ys c = there c.1 here
Chain-Leads next x (y ∷ xs) ys c = there c.1 (Chain-Leads next y xs ys c.3)

-- Nothing but `p` itself leads to a cell that no cell is linked to.
pub Unlinked-Leads : {next : Links} {p x : Ptr} → Unlinked next p → Leads next p x → x ≡ p
Unlinked-Leads free here = refl
Unlinked-Leads free (there e r) = absurd (free _ (e ∙ ap some (Unlinked-Leads free r)))

abbrev Past : (next : Links) (p q x t : Ptr) → Type 0
Past next p q x t =
    Leads (put next p (some q)) t x
    × ((gs : List Ptr)
        → x ≡ first gs q
        → Chain next q gs
        → t ∉ gs
        → Leads (put next p (some q)) t q)

same_cell : {o : Option Ptr} (a b : Ptr) → o ≡ some a → o ≡ some b → a ≡ b
same_cell a b e e' = ground arith

Past-step :
    {next : Links} {t x y : Ptr} (p : Ptr) (gone : List Ptr) (q : Ptr)
    → next p ≡ some (first gone q)
    → Chain next q gone
    → t ∉ gone
    → next x ≡ some y
    → Past next p q y t
    → Past next p q x t
Past-step {next} {t} {x} {y} p gone q before c keep e (on, ends) = (now, later)
  where
    now : Leads (put next p (some q)) t x
    now = elim (Bool-cases (x == p)) [
      | inl at ↦
          there {q = q} (ground arith)
            (ends gone (same_cell y (first gone q) e (ap next (==→eq x p at) ∙ before)) c keep)
      | inr off ↦ there {q = y} (ground arith) on
    ]

    later :
        (gs : List Ptr)
        → x ≡ first gs q
        → Chain next q gs
        → t ∉ gs
        → Leads (put next p (some q)) t q
    later [] at c' out = subst (λ z. Leads (put next p (some q)) t z) at now
    later (g ∷ gs) at c' out =
        ends gs (same_cell y (first gs q) e (ap next at ∙ c'.1)) c'.3 (ground arith)

-- A walk after the write that skips the run `gone` behind `p`, also from within that run.
Past-run :
    {next : Links} {t x : Ptr} (p : Ptr) (gone : List Ptr) (q : Ptr)
    → next p ≡ some (first gone q)
    → Chain next q gone
    → t ∉ gone
    → Leads next t x
    → Past next p q x t
Past-run {next} {t} p gone q before c keep here = (here, ends)
  where
    ends :
        (gs : List Ptr)
        → t ≡ first gs q
        → Chain next q gs
        → t ∉ gs
        → Leads (put next p (some q)) t q
    ends [] e c' out = subst (λ z. Leads (put next p (some q)) t z) e here
    ends (g ∷ gs) e c' out = absurd (ground arith)
Past-run p gone q before c keep (there e r) =
    Past-step p gone q before c keep e (Past-run p gone q before c keep r)

-- Skipping the run `gone` behind a cell loses nothing but that run.
pub Leads-put_past_run :
    {next : Links} {t x : Ptr} (p : Ptr) (gone : List Ptr) (q : Ptr)
    → next p ≡ some (first gone q)
    → Chain next q gone
    → t ∉ gone
    → Leads next t x
    → Leads (put next p (some q)) t x
Leads-put_past_run p gone q before c keep r = (Past-run p gone q before c keep r).0

-- A reader within a run stays there until the end.
pub Leads-mem :
    (next : Links) (x y : Ptr) (xs : List Ptr)
    → next null ≡ none
    → Chain next null (x ∷ xs)
    → Leads next y x
    → (y ∈ (x ∷ xs)) ⊎ (y ≡ null)
Leads-mem next x y xs free c here = inl (ground arith)
Leads-mem next x y [] free c (there {q = z} e r) = inr (Leads-null free (same_cell _ _ e c.1) r)
Leads-mem next x y (x' ∷ xs) free c (there {q = z} e r) =
    elim (Leads-mem next x' y xs free c.3 (subst (λ z. Leads next y z) (same_cell _ _ e c.1) r)) [
      | inl at ↦ inl (ground arith)
      | inr end ↦ inr end
    ]

-- A reader within a run does not see a write elsewhere.
put_off_first :
    (next : Links) (x t p q : Ptr) (xs : List Ptr)
    → next null ≡ none
    → Chain next null (x ∷ xs)
    → p ∉ (x ∷ xs)
    → Leads next t x
    → (Leads (put next p (some q)) t x) ⊎ (t ≡ null)
put_off_first next x t p q xs free c off here = inl here
put_off_first next x t p q [] free c off (there e r) = inr (Leads-null free (same_cell _ _ e c.1) r)
put_off_first next x t p q (x' ∷ xs) free c off (there e r) =
    elim (put_off_first next x' t p q xs free c.3 (ground arith)
      (subst (λ z. Leads next t z) (same_cell _ _ e c.1) r)) [
        | inl rest ↦ inl (there {q = x'} (ground arith) rest)
        | inr end ↦ inr end
      ]

pub Leads-put_off :
    (next : Links) (x t p q : Ptr) (xs : List Ptr)
    → next null ≡ none
    → Chain next null xs
    → p ∉ xs
    → x ∈ xs
    → Leads next t x
    → (Leads (put next p (some q)) t x) ⊎ (t ≡ null)
Leads-put_off next x t p q [] free c off at r = absurd (ground arith)
Leads-put_off next x t p q (y ∷ xs) free c off at r = elim (Bool-cases (x == y)) [
  | inl head ↦
      put_off_first next x t p q xs free
        (subst (λ z. Chain next null (z ∷ xs)) (sym (==→eq x y head)) c) (ground arith) r
  | inr tail ↦ Leads-put_off next x t p q xs free c.3 (ground arith) (ground arith) r
]

first-append :
    (xs : List Ptr) (p : Ptr) (ys zs : List Ptr) (stop : Ptr)
    → first (xs ++ p ∷ ys) stop ≡ first (xs ++ p ∷ zs) stop
first-append [] p ys zs stop = refl
first-append (x ∷ xs) p ys zs stop = refl

-- The run `gone` is cut out.
pub Chain-cut :
    (next : Links) (stop : Ptr) (xs : List Ptr) (p : Ptr) (gone ys : List Ptr)
    → Chain next stop (xs ++ p ∷ (gone ++ ys))
    → Chain (put next p (some (first ys stop))) stop (xs ++ p ∷ ys)
Chain-cut next stop [] p gone ys c = (
  c.0,
  ground arith,
  ground (arith, has-append p gone ys),
  Chain-put next stop p (first ys stop) ys (Chain-right next stop gone ys c.3)
      (ground (arith, has-append p gone ys)),
)
Chain-cut next stop (x ∷ xs) p gone ys c = (
  c.0,
  put_other next p (some (first ys stop)) x (
        ne_of_mem (xs ++ p ∷ (gone ++ ys)) c.2 (ground (arith, has-append p xs (p ∷ (gone ++ ys)))))
      ∙ c.1
      ∙ ap some (first-append xs p (gone ++ ys) ys stop),
  ground
      (arith, has-append x xs (p ∷ (gone ++ ys)), has-append x gone ys, has-append x xs (p ∷ ys)),
  Chain-cut next stop xs p gone ys c.3,
)
