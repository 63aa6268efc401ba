-- ===== src/Unzip/Step.antt =====
-- unzipOneSegment.
use mathlib.Core.List.{append_assoc, append-nil}
use relativistic_hash_table.Base.{
  ℕ, suc, ◌+◌, ◌<◌, ◌≡◌, ◌≢◌, inl, inr, refl, sym, ap, ◌∙◌, true, not, ◌||◌, some, List, [], ◌∷◌,
  ◌++◌, ◌∈◌, all, filter, length, arith, subst, has, has-append, all-append, filter-append,
  filter-all, length-append, all_swap,
}
use relativistic_hash_table.Memory.{Ptr, null, Mem, put}
use relativistic_hash_table.Memory.Chain.{IsSlist, put_other}
use relativistic_hash_table.Unzip.{is, Zip, Unzipped}
use relativistic_hash_table.Unzip.Settled.{Settled, false_ne_true}
use relativistic_hash_table.Unzip.Effect.{own_gone, seen_in, kept, done, list_done, other_done}

module _ (hash : Ptr → ℕ) (mask fresh nr src : ℕ) (nodes : List Ptr) (c d n : ℕ) (m0 m : Mem)
    (s : Settled hash fresh nr src nodes c d m0 m)
    (z : Zip hash mask fresh src nodes c d (suc n) m) where
  open z use {zipper, front, passed, turn, rest}

  zipper_in_nodes : zipper ∈ nodes
  zipper_in_nodes =
      z.in_nodes zipper (ground (arith, has-append zipper front (zipper ∷ turn ∷ rest)))

  src_ne_zipper : src ≢ zipper
  src_ne_zipper e =
      absurd (false_ne_true (sym s.src_out ∙ ap (λ a. has a nodes) e ∙ zipper_in_nodes))

  src_after : (q t : Ptr) → put (put m.next src (some q)) zipper (some t) src ≡ some q
  src_after q t =
      put_other (put m.next src (some q)) zipper (some t) src src_ne_zipper ∙ ground arith

  module _ (foreign : all (λ x. not (is hash mask c x)) (turn ∷ rest) ≡ true) where
    pub all_gone : turn ∷ rest ≡ (turn ∷ rest) ++ []
    all_gone = sym (append-nil (turn ∷ rest))

    pub unzips : Unzipped hash mask fresh src nodes c d (
        done hash mask fresh nr src nodes c d n m0 m s z
          (turn ∷ rest)
          []
          all_gone
          foreign
          null
          (inl refl))
    unzips = record {
      at_end = src_after null null;
      list =
          subst
            (λ l.
              IsSlist
                (done hash mask fresh nr src nodes c d n m0 m s z (turn ∷ rest) [] all_gone foreign
                  null (inl refl)).next
                (fresh + c) l)
            (sym (append-nil (front ++ zipper ∷ []))
              ∙ sym (
                  kept hash mask fresh nr src nodes c d n m0 m s z (turn ∷ rest) [] all_gone
                    foreign))
            (list_done hash mask fresh nr src nodes c d n m0 m s z (turn ∷ rest) [] all_gone foreign
              null (inl refl));
      other =
          subst
            (λ l.
              IsSlist
                (done hash mask fresh nr src nodes c d n m0 m s z (turn ∷ rest) [] all_gone foreign
                  null (inl refl)).next
                (fresh + d) l)
            others
            (other_done hash mask fresh nr src nodes c d n m0 m s z (turn ∷ rest) [] all_gone
              foreign null (inl refl));
    }
      where
        others : passed ++ ((turn ∷ rest) ++ []) ≡ filter (is hash mask d) nodes
        others =
            ap (λ l. passed ++ l) (append-nil (turn ∷ rest))
            ∙ sym (
                filter-all (is hash mask d) (passed ++ turn ∷ rest) (
                  all-append (is hash mask d) passed (turn ∷ rest)
                  ∙ rw
                      (
                        z.own_passed,
                        own_gone hash mask fresh nr src nodes c d n m0 m s z (turn ∷ rest) []
                            all_gone foreign,
                      )
                      refl))
            ∙ z.other_content

  module _ (before : List Ptr) (last after : Ptr) (behind : List Ptr)
      (cut : turn ∷ rest ≡ before ++ last ∷ after ∷ behind)
      (foreign : all (λ x. not (is hash mask c x)) (before ++ last ∷ []) ≡ true)
      (own : is hash mask c after ≡ true) where
    pub segment_gone : turn ∷ rest ≡ (before ++ last ∷ []) ++ after ∷ behind
    segment_gone = cut ∙ sym (append_assoc before (last ∷ []) (after ∷ behind))

    seen_there :
        (passed ++ before) ++ last ∷ after ∷ behind
        ≡ passed ++ ((before ++ last ∷ []) ++ after ∷ behind)
    seen_there =
        append_assoc passed before (last ∷ after ∷ behind)
        ∙ ap (λ l. passed ++ l) (sym (append_assoc before (last ∷ []) (after ∷ behind)))

    in_there : (a : Ptr) → a ∈ ((passed ++ before) ++ last ∷ after ∷ behind) → a ∈ nodes
    in_there a at =
        seen_in hash mask fresh nr src nodes c d n m0 m s z (before ++ last ∷ []) (after ∷ behind)
          segment_gone foreign a (subst (λ l. a ∈ l) seen_there at)

    pub last_in : last ∈ nodes
    last_in =
        in_there last (ground (arith, has-append last (passed ++ before) (last ∷ after ∷ behind)))

    pub zips_other : Zip hash mask fresh src nodes d c n (
        done hash mask fresh nr src nodes c d n m0 m s z
          (before ++ last ∷ [])
          (after ∷ behind)
          segment_gone
          foreign
          last
          (inr last_in))
    zips_other = record {
      zipper = last;
      front = passed ++ before;
      passed = front ++ zipper ∷ [];
      turn = after;
      rest = behind;
      at_zipper = src_after last after;
      list =
          subst
            (λ l.
              IsSlist
                (done hash mask fresh nr src nodes c d n m0 m s z (before ++ last ∷ [])
                  (after ∷ behind) segment_gone foreign last (inr last_in)).next
                (fresh + d) l)
            (sym seen_there)
            (other_done hash mask fresh nr src nodes c d n m0 m s z (before ++ last ∷ [])
              (after ∷ behind) segment_gone foreign last (inr last_in));
      other =
          subst
            (λ l.
              IsSlist
                (done hash mask fresh nr src nodes c d n m0 m s z (before ++ last ∷ [])
                  (after ∷ behind) segment_gone foreign last (inr last_in)).next
                (fresh + c) l)
            (sym (append_assoc front (zipper ∷ []) (after ∷ behind)))
            (list_done hash mask fresh nr src nodes c d n m0 m s z (before ++ last ∷ [])
              (after ∷ behind) segment_gone foreign last (inr last_in));
      own_front = own_there;
      own_passed = z.own_front;
      turns = own;
      two = all_swap (is hash mask c) (is hash mask d) behind either;
      content =
          ap (filter (is hash mask d)) (seen_there ∙ ap (λ l. passed ++ l) (sym segment_gone))
          ∙ z.other_content;
      other_content =
          filter-append (is hash mask c) (front ++ zipper ∷ []) (after ∷ behind)
          ∙ ap (λ l. l ++ filter (is hash mask c) (after ∷ behind))
              (filter-all (is hash mask c) (front ++ zipper ∷ []) z.own_front)
          ∙ sym (
              kept hash mask fresh nr src nodes c d n m0 m s z (before ++ last ∷ [])
                (after ∷ behind) segment_gone foreign);
      in_nodes = in_there;
      passed_in_nodes = λ a at. z.in_nodes a (
          ground
            (arith, has-append a front (zipper ∷ turn ∷ rest), has-append a front (zipper ∷ [])));
      enough = shorter;
    }
      where
        own_there : all (is hash mask d) ((passed ++ before) ++ last ∷ []) ≡ true
        own_there =
            ap (all (is hash mask d)) (append_assoc passed before (last ∷ []))
            ∙ all-append (is hash mask d) passed (before ++ last ∷ [])
            ∙ rw
                (
                  z.own_passed,
                  own_gone hash mask fresh nr src nodes c d n m0 m s z (before ++ last ∷ [])
                      (after ∷ behind) segment_gone foreign,
                )
                refl

        either : all (λ x. is hash mask c x || is hash mask d x) behind ≡ true
        either = ground (
          arith,
          all-append (λ x. is hash mask c x || is hash mask d x) before (last ∷ after ∷ behind),
          whole,
        )
          where
            whole :
                all (λ x. is hash mask c x || is hash mask d x) (before ++ last ∷ after ∷ behind)
                ≡ true
            whole =
                subst (λ l. all (λ x. is hash mask c x || is hash mask d x) l ≡ true) cut
                  (ground (arith, z.turns, z.two))

        shorter : length behind + 1 < n
        shorter =
            omega
              (arith, z.enough, ap length cut ∙ length-append {0} before (last ∷ after ∷ behind))
