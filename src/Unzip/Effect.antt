-- ===== src/Unzip/Effect.antt =====
-- What the two stores of unzipOneSegment do to a bucket.
use Prim.Native.Nat.{bit_and}
use mathlib.Core.List.{append_assoc}
use relativistic_hash_table.Base.{
  ℕ, suc, ◌+◌, ◌<◌, ◌≡◌, ◌≢◌, ◌⊎◌, inl, inr, refl, sym, ap, ◌∙◌, true, not, ◌||◌, some, List, [],
  ◌∷◌, ◌++◌, ◌∈◌, ◌∉◌, all, filter, arith, subst, Bool-cases, has, has-append, all-mem, all-append,
  filter_past, all_other,
}
use relativistic_hash_table.Memory.{Ptr, null, Mem, store}
use relativistic_hash_table.Memory.Ensures.{relink}
use relativistic_hash_table.Memory.Chain.{
  first, Chain, IsSlist, Chain-frame, Chain-put, Chain-left, Chain-right, put_other,
}
use relativistic_hash_table.Memory.Reach.{Chain-cut}
use relativistic_hash_table.Unzip.{is, Serves, Zip, Touches}
use relativistic_hash_table.Unzip.Serve.{Serves_unlinked, Serves_skip}
use relativistic_hash_table.Unzip.Settled.{
  Settled, same_test, false_ne_true, first-append, first-mem,
}

module _ (hash : Ptr → ℕ) (mask fresh nr src : ℕ) (nodes : List Ptr) (c d n : ℕ) (m0 m : Mem)
    (s : Settled hash fresh nr src nodes c d m0 m) (z : Zip hash mask fresh src nodes c d (suc n) m)
    (gone behind : List Ptr) (cut : z.turn ∷ z.rest ≡ gone ++ behind)
    (foreign : all (λ x. not (is hash mask c x)) gone ≡ true) where
  open z use {zipper, front, passed, turn, rest}

  pub own_gone : all (is hash mask d) gone ≡ true
  own_gone =
      all_other (is hash mask c) (is hash mask d) gone foreign
        (ground (arith, all-append (λ x. is hash mask c x || is hash mask d x) gone behind, either))
    where
      either : all (λ x. is hash mask c x || is hash mask d x) (gone ++ behind) ≡ true
      either =
          subst (λ l. all (λ x. is hash mask c x || is hash mask d x) l ≡ true) cut
            (ground (arith, z.turns, z.two))

  pub list : IsSlist m.next (fresh + c) (front ++ zipper ∷ (gone ++ behind))
  list = subst (λ l. IsSlist m.next (fresh + c) (front ++ zipper ∷ l)) cut z.list

  pub other : IsSlist m.next (fresh + d) (passed ++ (gone ++ behind))
  other = subst (λ l. IsSlist m.next (fresh + d) (passed ++ l)) cut z.other

  -- All cells of the two lists are nodes or the buckets themselves.
  pub list_in : (a : Ptr) → a ∈ (front ++ zipper ∷ (gone ++ behind)) → a ∈ nodes
  list_in a at = z.in_nodes a (subst (λ l. a ∈ (front ++ zipper ∷ l)) (sym cut) at)

  pub seen_in : (a : Ptr) → a ∈ (passed ++ (gone ++ behind)) → a ∈ nodes
  seen_in a at = ground (
    arith,
    has-append a passed (gone ++ behind),
    z.passed_in_nodes a,
    list_in a,
    has-append a front (zipper ∷ (gone ++ behind)),
  )

  own_zipper : is hash mask c zipper ≡ true
  own_zipper = ground (arith, all-append (is hash mask c) front (zipper ∷ []), z.own_front)

  pub zipper_in : zipper ∈ nodes
  zipper_in = list_in zipper (ground (arith, has-append zipper front (zipper ∷ (gone ++ behind))))

  run : Chain m.next null (zipper ∷ (gone ++ behind))
  run = Chain-right m.next null ((fresh + c) ∷ front) (zipper ∷ (gone ++ behind)) list

  src_elsewhere :
      (i : ℕ) (xs : List Ptr) → i < nr → ((a : Ptr) → a ∈ xs → a ∈ nodes) → src ∉ ((fresh + i) ∷ xs)
  src_elsewhere i xs lt sub = ground (arith, s.src_off i lt, sub src, s.src_out)

  unseen : zipper ∉ ((fresh + d) ∷ passed ++ (gone ++ behind))
  unseen = ground (arith, has-append zipper passed (gone ++ behind), run.2, off_cell, off_passed)
    where
      off_cell : zipper ≢ fresh + d
      off_cell e =
          absurd
            (false_ne_true (sym (s.cells_out d s.d_lt) ∙ ap (λ a. has a nodes) (sym e) ∙ zipper_in))

      off_passed : zipper ∉ passed
      off_passed = elim (Bool-cases (has zipper passed)) [
        | inl at ↦ absurd (
            s.apart (
              same_test (bit_and (hash zipper) mask) c d own_zipper
                (all-mem (is hash mask d) passed zipper z.own_passed at)))
        | inr out ↦ out
      ]

  pub kept :
      filter (is hash mask c) nodes ≡ (front ++ zipper ∷ []) ++ filter (is hash mask c) behind
  kept =
      sym z.content
      ∙ ap (λ l. filter (is hash mask c) (front ++ zipper ∷ l)) cut
      ∙ ap (filter (is hash mask c)) (sym (append_assoc front (zipper ∷ []) (gone ++ behind)))
      ∙ filter_past (is hash mask c) (front ++ zipper ∷ []) gone behind z.own_front foreign

  first_in : (first behind null ≡ null) ⊎ (first behind null ∈ nodes)
  first_in = first-mem nodes behind (λ a at.
      list_in a
        (ground (arith, has-append a front (zipper ∷ (gone ++ behind)), has-append a gone behind)))

  -- The memory after the first store, and after both.
  module _ (q : Ptr) (q_node : (q ≡ null) ⊎ (q ∈ nodes)) where
    abbrev pub now : Mem
    now = relink m src q

    abbrev pub done : Mem
    done = relink now zipper (first behind null)

    pub list_done : IsSlist done.next (fresh + c) (front ++ zipper ∷ behind)
    list_done = Chain-cut now.next null ((fresh + c) ∷ front) zipper gone behind (
        Chain-put m.next null src q ((fresh + c) ∷ front ++ zipper ∷ (gone ++ behind)) list
          (src_elsewhere c (front ++ zipper ∷ (gone ++ behind)) s.c_lt list_in))

    pub other_done : IsSlist done.next (fresh + d) (passed ++ (gone ++ behind))
    other_done =
        Chain-put now.next null zipper (first behind null)
          ((fresh + d) ∷ passed ++ (gone ++ behind))
          (Chain-put m.next null src q ((fresh + d) ∷ passed ++ (gone ++ behind)) other
            (src_elsewhere d (passed ++ (gone ++ behind)) s.d_lt seen_in))
          unseen

    pub touches : Touches src nodes m done
    touches = record {
      outside = λ a off out. ground (arith, zipper_in);
      unlinked = λ p live out free a e. ground (arith, free a, q_node, first_in);
      same_hash = refl;
      same_info = refl;
      same_size = refl;
    }

    pub run_now : Chain now.next null (zipper ∷ (gone ++ behind))
    run_now = Chain-put m.next null src q (zipper ∷ (gone ++ behind)) run src_off_run
      where
        src_off_run : src ∉ (zipper ∷ (gone ++ behind))
        src_off_run = ground (
          arith,
          has-append src front (zipper ∷ (gone ++ behind)),
          src_elsewhere c (front ++ zipper ∷ (gone ++ behind)) s.c_lt list_in,
        )

    seen_now : Chain now.next null ((fresh + d) ∷ passed ++ (gone ++ behind))
    seen_now =
        Chain-put m.next null src q ((fresh + d) ∷ passed ++ (gone ++ behind)) other
          (src_elsewhere d (passed ++ (gone ++ behind)) s.d_lt seen_in)

    run0 : Chain m0.next null (zipper ∷ (gone ++ behind))
    run0 = Chain-frame m.next m0.next null (zipper ∷ (gone ++ behind)) run λ a at.
        s.agree a (ground (arith, list_in a, has-append a front (zipper ∷ (gone ++ behind))))

    seen0 : Chain m0.next null ((fresh + d) ∷ passed ++ (gone ++ behind))
    seen0 =
        Chain-frame m.next m0.next null ((fresh + d) ∷ passed ++ (gone ++ behind)) other
          λ a at. s.agree a (ground (arith, seen_in a))

    -- No reader loses a node of its bucket by the two stores.
    pub src_serves : Serves hash mask fresh nr m0 m (store src q) now
    src_serves = Serves_unlinked hash mask fresh nr m0 m src q s.head0 s.head s.src_off

    pub zipper_serves : Serves hash mask fresh nr m0 now (store zipper (first behind null)) done
    zipper_serves =
        Serves_skip hash mask fresh nr m0 now d zipper gone behind (passed ++ (gone ++ behind))
          s.null_free0 (put_other m.next src (some q) null (λ e. s.src_live (sym e)) ∙ s.null_free)
          own_gone run0 (Chain-left now.next null gone behind run_now.3)
          (run_now.1 ∙ ap some (first-append gone behind)) seen0 seen_now unseen
