-- ===== src/Slist/Remove.antt =====
-- rcuSlistRemoveIf and rcuSlistRemove.
use relativistic_hash_table.Base.{
  ℕ, zero, suc, ap, subst, fun_ext, if◌then◌else◌, has, ◌<◌, ◌≡◌, ◌≢◌, some, refl, sym, ◌∙◌, true,
  Bool, false, List, [], ◌∷◌, arith, ◌==◌, Bool-cases, inl, inr, length, find, erase, not-mem-erase,
  ne_of_not_mem, ◌∉◌,
}
use relativistic_hash_table.Memory.{
  Ptr, null, Mem, put, Prog, ret, act, load, load_next, store_next, ◌>>=◌, ◌>>◌,
}
use relativistic_hash_table.Memory.Ensures.{Ensures, returns, loads, stores, relink, mono}
use relativistic_hash_table.Memory.Chain.{first, Chain, IsSlist, Chain-put}
use relativistic_hash_table.Memory.Leads.{Keeps, Leads-put_past}
use relativistic_hash_table.Slist.{remove_loop, remove_if, named_loop, remove}

module _ (predict : Ptr → Bool) where
  -- What `remove_if` does to a run that starts with the cell `last`: it returns the first match
  -- behind `last`, that cell is out of the run, and every link outside the run, the size and the
  -- hashes, and the link of the removed cell itself, are as before.
  pub record Removed (m : Mem) (last : Ptr) (xs : List Ptr) (p : Ptr) (m' : Mem) : Type 0 where
    pub found : p ≡ find predict xs
    pub chain : Chain m'.next null (last ∷ erase predict xs)
    pub outside : (a : Ptr) → a ∉ (last ∷ erase predict xs) → m'.next a ≡ m.next a
    pub leads_on : m'.next p ≡ m.next p
    pub same_hash : m'.hash ≡ m.hash
    pub same_info : m'.buckets_info ≡ m.buckets_info
    pub same_size : m'.size ≡ m.size

  unlink-Removed :
      (last x : Ptr) (xs : List Ptr) (m : Mem)
      → Chain m.next null (last ∷ x ∷ xs)
      → predict x ≡ true
      → Removed m last (x ∷ xs) x (relink m last (first xs null))
  unlink-Removed last x xs m c hit = record {
    found = rw hit;
    chain =
        rw hit
          (c.0, ground arith, apart, Chain-put m.next null last (first xs null) xs c.3.3 apart);
    outside = λ a out. ground arith;
    leads_on = behind (ne_of_not_mem xs c.2);
    same_hash = refl;
    same_info = refl;
    same_size = refl;
  }
    where
      apart : last ∉ xs
      apart = ground (arith, c.2)

      behind : last ≢ x → put m.next last (some (first xs null)) x ≡ m.next x
      behind ne = ground arith

  Removed-cons :
      (last x : Ptr) (xs : List Ptr) (m : Mem)
      → Chain m.next null (last ∷ x ∷ xs)
      → predict x ≡ false
      → (p : Ptr) (m' : Mem) → Removed m x xs p m'
      → Removed m last (x ∷ xs) p m'
  Removed-cons last x xs m c miss p m' rest = record {
    found = rw miss rest.found;
    chain = rw miss (c.0, rest.outside last apart ∙ c.1, apart, rest.chain);
    outside = λ a out. ground (arith, rest.outside a);
    leads_on = rest.leads_on;
    same_hash = rest.same_hash;
    same_info = rest.same_info;
    same_size = rest.same_size;
  }
    where
      apart : last ∉ (x ∷ erase predict xs)
      apart = ground (arith, c.2, not-mem-erase last predict xs)

  remove_loop-Removed :
      (fuel : ℕ) (last : Ptr) (xs : List Ptr) (m : Mem) (gone : Ptr)
      → gone ≡ find predict xs
      → Chain m.next null (last ∷ xs)
      → length xs < fuel
      → Ensures
          (Keeps null gone)
          (Removed m last xs)
          (remove_loop predict fuel last (first xs null))
          m
  unfolding remove_loop
  remove_loop-Removed zero last xs m gone is c enough = absurd (omega arith)
  remove_loop-Removed (suc fuel) last [] m gone is c enough = returns (record {
    found = refl;
    chain = c;
    outside = λ a out. refl;
    leads_on = refl;
    same_hash = refl;
    same_info = refl;
    same_size = refl;
  })
  remove_loop-Removed (suc fuel) last (x ∷ xs) m gone is c enough =
      let live : (x == null) ≡ false = ground (arith, c.3.0) in
      rw live (elim (Bool-cases (predict x)) [
        | inl hit ↦
            let at : gone ≡ x = is ∙ rw hit refl in
            rw hit (
              loads c.3.1 (λ y t off ne r. r)
                (stores (first xs null) c.1
                  (λ y t off ne r.
                    Leads-put_past last x (first xs null) c.1 c.3.1 (ne_of_not_mem xs c.2)
                      (λ e. ne (e ∙ sym at)) r)
                  (returns (unlink-Removed last x xs m c hit))))
        | inr miss ↦ rw miss (
            loads c.3.1 (λ y t off ne r. r)
              (mono (remove_loop-Removed fuel x xs m gone (is ∙ rw miss refl) c.3 (omega arith))
                (Removed-cons last x xs m c miss)))
      ])

  -- In a list with the nodes `xs`, `remove_if` with more rounds than `xs` has nodes returns the first
  -- node that the predicate accepts, or null, and leaves the list without that node. It changes no
  -- link but one of the cells that stay, so the removed node still leads on. At every moment a reader
  -- can reach all the nodes that it could reach before, but for the removed one.
  pub remove_if-Removed :
      (fuel : ℕ) (l : Ptr) (xs : List Ptr) (m : Mem)
      → IsSlist m.next l xs
      → length xs < fuel
      → Ensures (Keeps null (find predict xs)) (Removed m l xs) (remove_if predict fuel l) m
  unfolding remove_if
  remove_if-Removed fuel l xs m c enough =
      loads c.1 (λ y t off ne r. r) (remove_loop-Removed fuel l xs m _ refl c enough)

module _ (head : Ptr) where
  named_loop-remove_loop :
      (fuel : ℕ) (last p : Ptr)
      → named_loop fuel last p head ≡ remove_loop (λ p. p == head) fuel last p
  unfolding named_loop remove_loop
  named_loop-remove_loop zero last p = refl
  named_loop-remove_loop (suc fuel) last p =
      ap
        (λ (rest : Ptr → Prog Ptr).
          if p == null
          then ret p
          else (if p == head
              then (do next ← load_next p; store_next last next; ret p)
              else act (load p) rest))
        (fun_ext (λ next. named_loop-remove_loop fuel p next))

  remove-remove_if : (fuel : ℕ) (l : Ptr) → remove fuel l head ≡ remove_if (λ p. p == head) fuel l
  unfolding remove remove_if
  remove-remove_if fuel l =
      ap (λ (rest : Ptr → Prog Ptr). act (load l) rest) (fun_ext (named_loop-remove_loop fuel l))

  find-named : (xs : List Ptr) → find (λ p. p == head) xs ≡ (if has head xs then head else null)
  find-named [] = refl
  find-named (x ∷ xs) = ground (arith, find-named xs)

  -- In a list with the nodes `xs`, `remove` with more rounds than `xs` has nodes returns the given node
  -- if it is one of them and null if not, and leaves the list without it. At every moment a reader can
  -- reach all the nodes that it could reach before, but for that one.
  pub remove-Removed :
      (fuel : ℕ) (l : Ptr) (xs : List Ptr) (m : Mem)
      → IsSlist m.next l xs
      → length xs < fuel
      → Ensures
          (Keeps null (if has head xs then head else null))
          (λ p m'.
            (p ≡ (if has head xs then head else null)) × Removed (λ p. p == head) m l xs p m')
          (remove fuel l head)
          m
  remove-Removed fuel l xs m c enough =
      subst
        (λ gone.
          Ensures (Keeps null gone) (λ p m'. (p ≡ gone) × Removed (λ p. p == head) m l xs p m')
            (remove fuel l head) m)
        (find-named xs)
        (subst
          (λ prog.
            Ensures (Keeps null (find (λ p. p == head) xs))
              (λ p m'. (p ≡ find (λ p. p == head) xs) × Removed (λ p. p == head) m l xs p m') prog
              m)
          (sym (remove-remove_if fuel l))
          (mono (remove_if-Removed (λ p. p == head) fuel l xs m c enough) λ p m' r. (r.found, r)))
