-- ===== src/Memory/Leads.antt =====
-- What a reader can still reach, and which writes leave that alone.
use relativistic_hash_table.Base.{◌≡◌, ◌≢◌, none, some, ◌==◌, arith, Bool-cases, inl, inr}
use relativistic_hash_table.Memory.{Ptr, null, Links, Mem, Action, put}

-- Following the links from a cell, a reader comes to the cell `t`.
pub data Leads (next : Links) (t : Ptr) : Ptr → Type 0 where
  here : Leads next t t
  there : {p q : Ptr} → next p ≡ some q → Leads next t q → Leads next t p

-- No cell is linked to `p`.
abbrev pub Unlinked : Links → Ptr → Type 0
Unlinked next p = (a : Ptr) → next a ≢ some p

-- Writing a cell that no cell is linked to loses nothing for a reader that stands elsewhere.
pub Leads-put_free :
    {next : Links} {t x : Ptr} (p q : Ptr)
    → Unlinked next p
    → Leads next t x
    → x ≢ p
    → Leads (put next p (some q)) t x
Leads-put_free p q free here ne = here
Leads-put_free {x} p q free (there {q = y} e r) ne =
    there (ground arith) (Leads-put_free p q free r (λ (at : y ≡ p). free x (ground arith)))

-- Linking `new` in between `p` and its successor loses nothing.
pub Leads-put_between :
    {next : Links} {t x : Ptr} (p new q : Ptr)
    → next p ≡ some q
    → next new ≡ some q
    → p ≢ new
    → Leads next t x
    → Leads (put next p (some new)) t x
Leads-put_between p new q before behind ne here = here
Leads-put_between {next} {t} {x} p new q before behind ne (there {q = y} e r) =
    let rest = Leads-put_between p new q before behind ne r in
    elim (Bool-cases (x == p)) [
      | inl at ↦
          let same : y ≡ q = ground arith in
          there {q = new} (ground arith) (there {q = y} (ground arith) rest)
      | inr off ↦ there {q = y} (ground arith) rest
    ]

-- Linking past the cell `gone` loses nothing but `gone`.
pub Leads-put_past :
    {next : Links} {t x : Ptr} (p gone q : Ptr)
    → next p ≡ some gone
    → next gone ≡ some q
    → p ≢ gone
    → t ≢ gone
    → Leads next t x
    → Leads (put next p (some q)) t x
Leads-put_past p gone q before behind ne keep here = here
Leads-put_past {x} p gone q before behind ne keep (there {q = y} e here) =
    there {q = y} (ground arith) here
Leads-put_past {x} p gone q before behind ne keep (there {q = y} e (there {q = z} e' r)) =
    let rest = Leads-put_past p gone q before behind ne keep r in
    let next_one = Leads-put_past p gone q before behind ne keep (there e' r) in
    elim (Bool-cases (x == p)) [
      | inl at ↦ there {q = z} (ground arith) rest
      | inr off ↦ there {q = y} (ground arith) next_one
    ]

-- Where all links of before are still there, nothing is lost.
pub Leads-mono :
    {next next' : Links} {t x : Ptr}
    → ((a q : Ptr) → next a ≡ some q → next' a ≡ some q)
    → Leads next t x
    → Leads next' t x
Leads-mono same here = here
Leads-mono same (there e r) = there (same _ _ e) (Leads-mono same r)

pub Leads-null :
    {next : Links} {t x : Ptr} → next null ≡ none → x ≡ null → Leads next t x → t ≡ null
Leads-null free at here = at
Leads-null free at (there {p} e r) = ground arith

-- Writing a cell that was linked to null loses no cell.
pub Leads-put_end :
    {next : Links} {t x : Ptr} (p q : Ptr)
    → next null ≡ none
    → next p ≡ some null
    → t ≢ null
    → Leads next t x
    → Leads (put next p (some q)) t x
Leads-put_end p q free end live here = here
Leads-put_end {next} {x} p q free end live (there {q = y} e r) = elim (Bool-cases (x == p)) [
  | inl at ↦ let dead : y ≡ null = ground arith in absurd (live (Leads-null free dead r))
  | inr off ↦ there {q = y} (ground arith) (Leads-put_end p q free end live r)
]

-- An access that makes nothing unreachable but the cell `gone`, for a reader that does not stand at
-- the cell `new`.
abbrev pub Keeps : (new gone : Ptr) → Mem → Action → Mem → Type 0
Keeps new gone m a m' = (x t : Ptr) → x ≢ new → t ≢ gone → Leads m.next t x → Leads m'.next t x

-- An access that only reads.
abbrev pub Reads : Mem → Action → Mem → Type 0
Reads m a m' = m' ≡ m
