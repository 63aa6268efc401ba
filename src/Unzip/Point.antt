-- ===== src/Unzip/Point.antt =====
-- findFirstUnzipPoint.
use Prim.Native.Nat.{bit_and, ◌≤◌}
use mathlib.Core.List.{append_assoc, append-nil}
use relativistic_hash_table.Base.{
  ℕ, ◌+◌, ◌<◌, ◌≡◌, ◌≢◌, ◌⊎◌, inl, inr, refl, sym, ap, ◌∙◌, Bool, true, false, not, ◌||◌, some,
  List, [], ◌∷◌, ◌++◌, ◌==◌, ◌∈◌, ◌∉◌, all, filter, drop_until, length, arith, eq_false, subst,
  Bool-cases, has, has-append, all-append, filter-all, filter_none, length-append, drop_until_past,
  filter-drop_until, mem_of-mem-drop_until,
}
use relativistic_hash_table.Memory.{Ptr, null, Mem, ret, ◌>>=◌, ◌>>◌, store_next}
use relativistic_hash_table.Memory.Ensures.{Ensures, returns, stores, relink, bind-Ensures}
use relativistic_hash_table.Memory.Chain.{Chain, IsSlist, Chain-put, put_other}
use relativistic_hash_table.Buckets.{find_first_unzip_point, unzip_point_loop}
use relativistic_hash_table.Unzip.{is, Serves, Zip, Unzipped, Touches}
use relativistic_hash_table.Unzip.Settled.{Settled, same_test, false_ne_true}
use relativistic_hash_table.Unzip.Segment.{loads_quietly, computes_own}
use relativistic_hash_table.Unzip.Serve.{Serves_unlinked}
use relativistic_hash_table.Unzip.PointLoop.{Point, unzip_point_loop-Point}

-- The store of findFirstUnzipPoint to the old bucket.
module _ (hash : Ptr → ℕ) (fresh nr src : ℕ) (nodes : List Ptr) (c d : ℕ) (m0 m : Mem)
    (s : Settled hash fresh nr src nodes c d m0 m) where
  src_elsewhere :
      (i : ℕ) (xs : List Ptr) → i < nr → ((a : Ptr) → a ∈ xs → a ∈ nodes) → src ∉ ((fresh + i) ∷ xs)
  src_elsewhere i xs lt sub = ground (arith, s.src_off i lt, sub src, s.src_out)

  kept :
      (q : Ptr) (i : ℕ) (ys : List Ptr)
      → i < nr
      → ((a : Ptr) → a ∈ ys → a ∈ nodes)
      → IsSlist m.next (fresh + i) ys
      → IsSlist (relink m src q).next (fresh + i) ys
  kept q i ys lt sub chain =
      Chain-put m.next null src q ((fresh + i) ∷ ys) chain (src_elsewhere i ys lt sub)

  touches : (q : Ptr) → ((q ≡ null) ⊎ (q ∈ nodes)) → Touches src nodes m (relink m src q)
  touches q node = record {
    outside = λ a off out. ground arith;
    unlinked = λ p live out free a e. ground (arith, free a, node);
    same_hash = refl;
    same_info = refl;
    same_size = refl;
  }

module _ (hash : Ptr → ℕ) (mask fresh nr src : ℕ) (nodes : List Ptr) (c d n : ℕ) (m0 m : Mem)
    (s : Settled hash fresh nr src nodes c d m0 m) (list : IsSlist m.next (fresh + c) nodes)
    (other : IsSlist m.next (fresh + d) (drop_until (is hash mask d) nodes))
    (two : all (λ x. is hash mask c x || is hash mask d x) nodes ≡ true)
    (short : length nodes ≤ n) where
  only : (a : Ptr) → is hash mask c a ≡ true → is hash mask d a ≡ false
  only a e = elim (Bool-cases (is hash mask d a)) [
    | inl e' ↦ absurd (s.apart (same_test (bit_and (hash a) mask) c d e e'))
    | inr e' ↦ e'
  ]

  list_kept : (q : Ptr) → IsSlist (relink m src q).next (fresh + c) nodes
  list_kept q = kept hash fresh nr src nodes c d m0 m s q c nodes s.c_lt (λ a at. at) list

  other_kept :
      (q : Ptr) → IsSlist (relink m src q).next (fresh + d) (drop_until (is hash mask d) nodes)
  other_kept q =
      kept hash fresh nr src nodes c d m0 m s q d (drop_until (is hash mask d) nodes) s.d_lt
        (λ a at. mem_of-mem-drop_until (is hash mask d) a nodes at) other

  nothing_left :
      all (is hash mask c) nodes ≡ true → Unzipped hash mask fresh src nodes c d (relink m src null)
  nothing_left all_own = record {
    at_end = ground arith;
    list =
        subst (λ l. IsSlist (relink m src null).next (fresh + c) l)
          (sym (filter-all (is hash mask c) nodes all_own)) (list_kept null);
    other =
        subst (λ l. IsSlist (relink m src null).next (fresh + d) l) none_other (other_kept null);
  }
    where
      none_other : drop_until (is hash mask d) nodes ≡ filter (is hash mask d) nodes
      none_other =
          ap (drop_until (is hash mask d)) (sym (append-nil nodes))
          ∙ drop_until_past (is hash mask c) (is hash mask d) nodes [] only all_own
          ∙ sym (filter_none (is hash mask c) (is hash mask d) nodes only all_own)

  module _ (front : List Ptr) (r turn : Ptr) (rest : List Ptr)
      (cut : nodes ≡ front ++ r ∷ turn ∷ rest)
      (all_own : all (is hash mask c) (front ++ r ∷ []) ≡ true)
      (foreign : is hash mask c turn ≡ false) where
    point_in : r ∈ nodes
    point_in = subst (λ l. r ∈ l) (sym cut) (ground (arith, has-append r front (r ∷ turn ∷ rest)))

    either : all (λ x. is hash mask c x || is hash mask d x) (front ++ r ∷ turn ∷ rest) ≡ true
    either = subst (λ l. all (λ x. is hash mask c x || is hash mask d x) l ≡ true) cut two

    either_behind : all (λ x. is hash mask c x || is hash mask d x) (turn ∷ rest) ≡ true
    either_behind = ground (
      arith,
      all-append (λ x. is hash mask c x || is hash mask d x) front (r ∷ turn ∷ rest),
      either,
    )

    turn_other : is hash mask d turn ≡ true
    turn_other = ground (arith, either_behind)

    drops : drop_until (is hash mask d) nodes ≡ turn ∷ rest
    drops =
        ap (drop_until (is hash mask d)) (cut ∙ sym (append_assoc front (r ∷ []) (turn ∷ rest)))
        ∙ drop_until_past (is hash mask c) (is hash mask d) (front ++ r ∷ []) (turn ∷ rest) only
            all_own
        ∙ rw turn_other refl

    shorter : length rest + 1 < n
    shorter = omega (arith, short, ap length cut ∙ length-append {0} front (r ∷ turn ∷ rest))

    zips : Zip hash mask fresh src nodes c d n (relink m src r)
    zips = record {
      zipper = r;
      front = front;
      passed = [];
      turn = turn;
      rest = rest;
      at_zipper = ground arith;
      list = subst (λ l. IsSlist (relink m src r).next (fresh + c) l) cut (list_kept r);
      other = subst (λ l. IsSlist (relink m src r).next (fresh + d) l) drops (other_kept r);
      own_front = all_own;
      own_passed = refl;
      turns = turn_other;
      two = ground (arith, either_behind);
      content = ap (filter (is hash mask c)) (sym cut);
      other_content =
          ap (filter (is hash mask d)) (sym drops) ∙ filter-drop_until (is hash mask d) nodes;
      in_nodes = λ a at. subst (λ l. a ∈ l) (sym cut) at;
      passed_in_nodes = λ a at. absurd (ground arith);
      enough = shorter;
    }

  -- The result tells whether anything is left to unzip.
  abbrev pub Found : Bool → Mem → Type 0
  Found left m' =
      (((left ≡ true) × Zip hash mask fresh src nodes c d n m')
        ⊎ ((left ≡ false) × Unzipped hash mask fresh src nodes c d m'))
      × Touches src nodes m m'
      × ((a : Ptr) → a ≢ src → m'.next a ≡ m.next a)

  stores-Point :
      (r old : Ptr)
      → m.next src ≡ some old
      → Point hash mask fresh nr m0 c nodes r
      → Ensures (Serves hash mask fresh nr m0) Found (store_next src r >> ret (not (r == null))) m
  stores-Point r old e (inl (at_null, all_own)) =
      subst
        (λ r.
          Ensures (Serves hash mask fresh nr m0) Found (store_next src r >> ret (not (r == null)))
            m)
        (sym at_null)
        (stores null e (Serves_unlinked hash mask fresh nr m0 m src null s.head0 s.head s.src_off) (
          returns (
            inr (refl, nothing_left all_own),
            touches hash fresh nr src nodes c d m0 m s null (inl refl),
            λ a off. put_other m.next src (some null) a off,
          )))
  stores-Point r old e (inr (front, turn, rest, cut, all_own, foreign)) =
      stores r e (Serves_unlinked hash mask fresh nr m0 m src r s.head0 s.head s.src_off) (
        returns (
          inl (ap not (eq_false r null live), zips front r turn rest cut all_own foreign),
          touches hash fresh nr src nodes c d m0 m s r
              (inr (point_in front r turn rest cut all_own foreign)),
          λ a off. put_other m.next src (some r) a off,
        ))
    where
      live : r ≢ null
      live e' = absurd (
          false_ne_true (
            sym s.null_out
            ∙ ap (λ a. has a nodes) (sym e')
            ∙ point_in front r turn rest cut all_own foreign))

  pub find_first_unzip_point_lem :
      (fuel : ℕ) (x : Ptr) (xs : List Ptr)
      → nodes ≡ x ∷ xs
      → m.next src ≡ some x
      → is hash mask c x ≡ true
      → n ≤ fuel
      → Ensures (Serves hash mask fresh nr m0) Found (find_first_unzip_point fuel src mask) m
  unfolding find_first_unzip_point
  find_first_unzip_point_lem fuel x xs whole e own enough = loads_quietly hash mask fresh nr m0 e (
      computes_own hash mask fresh nr m0 c x
        (λ id. unzip_point_loop fuel id mask x >>= λ point.
          store_next src point >> ret (not (point == null)))
        m s.same_hash (subst (λ l. Chain m.next null l) whole list.3).1 own
        (bind-Ensures
          (unzip_point_loop-Point hash mask fresh nr m0 fuel c x xs m s.same_hash
            (subst (λ l. Chain m.next null l) whole list.3) own
            (omega (arith, short, ap length whole)))
          λ r m' (e', point).
            subst
              (λ m'.
                Ensures (Serves hash mask fresh nr m0) Found
                  (store_next src r >> ret (not (r == null))) m')
              (sym e')
              (stores-Point r x e
                (subst (λ l. Point hash mask fresh nr m0 c l r) (sym whole) point))))
