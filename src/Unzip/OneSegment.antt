-- ===== src/Unzip/OneSegment.antt =====
-- unzipOneSegment.
use Prim.Native.Nat.{bit_and}
use relativistic_hash_table.Base.{
  ℕ, suc, ◌+◌, ◌≡◌, ◌⊎◌, inl, inr, refl, sym, true, false, not, List, [], ◌∷◌, ◌++◌, ◌==◌, ◌∈◌, all,
  arith, eq_false, subst, if◌then◌else◌, Bool-cases, all-append,
}
use relativistic_hash_table.Memory.{Ptr, null, Mem, Prog, ◌>>=◌, ◌>>◌, store_next, load_next, fault}
use relativistic_hash_table.Memory.Ensures.{Ensures, returns, stores, bind-Ensures, takes_else}
use relativistic_hash_table.Memory.Chain.{first, Chain, Chain-right}
use relativistic_hash_table.Buckets.{unzip_one_segment, segment_loop, compute_hash_bucket_id}
use relativistic_hash_table.Unzip.{is, Serves, Zip, Zipping, unzipped, zip_other, Touches}
use relativistic_hash_table.Unzip.Segment.{loads_quietly, computes_own, segment_loop-Ends, Ends}
use relativistic_hash_table.Unzip.Settled.{Settled, same_test}
use relativistic_hash_table.Unzip.Effect.{done, touches, src_serves, zipper_serves}
use relativistic_hash_table.Unzip.Effect.{run_now}
use relativistic_hash_table.Unzip.Step.{all_gone, unzips, segment_gone, last_in, zips_other}
use Prim.Native.Nat.{◌≤◌}

module _ (hash : Ptr → ℕ) (mask fresh nr src : ℕ) (nodes : List Ptr) (c d n : ℕ) (m0 m : Mem)
    (s : Settled hash fresh nr src nodes c d m0 m)
    (z : Zip hash mask fresh src nodes c d (suc n) m) where
  open z use {zipper, front, passed, turn, rest}

  -- What a call leaves: the bucket is unzipped, or its next segment is at the front.
  abbrev Left : Unit {0} → Mem → Type 0
  Left r m' = Zipping hash mask fresh src nodes c d n m' × Touches src nodes m m'

  -- The two stores at the end of unzipOneSegment.
  module _ (gone behind : List Ptr) (cut : turn ∷ rest ≡ gone ++ behind)
      (foreign : all (λ x. not (is hash mask c x)) gone ≡ true) (q : Ptr)
      (q_node : (q ≡ null) ⊎ (q ∈ nodes)) where
    stores_ends :
        Zipping hash mask fresh src nodes c d n
          (done hash mask fresh nr src nodes c d n m0 m s z gone behind cut foreign q q_node)
        → Ensures
            (Serves hash mask fresh nr m0)
            Left
            (store_next src q >> store_next zipper (first behind null))
            m
    stores_ends left =
        stores q z.at_zipper
          (src_serves hash mask fresh nr src nodes c d n m0 m s z gone behind cut foreign q q_node)
          (stores (first behind null)
            (run_now hash mask fresh nr src nodes c d n m0 m s z gone behind cut foreign q q_node).1
            (zipper_serves hash mask fresh nr src nodes c d n m0 m s z gone behind cut foreign q
              q_node)
            (returns (
              left,
              touches hash mask fresh nr src nodes c d n m0 m s z gone behind cut foreign q q_node,
            )))

  stores_found :
      (r : Ptr × Ptr)
      → Ends hash mask fresh nr m0 c (turn ∷ rest) r
      → Ensures (Serves hash mask fresh nr m0) Left (store_next src r.0 >> store_next zipper r.1) m
  stores_found r (inl (e, foreign)) =
      subst
        (λ r.
          Ensures (Serves hash mask fresh nr m0) Left (store_next src r.0 >> store_next zipper r.1)
            m)
        (sym e)
        (stores_ends (turn ∷ rest) [] (all_gone hash mask fresh nr src nodes c d n m0 m s z foreign)
          foreign null (inl refl)
          (unzipped (unzips hash mask fresh nr src nodes c d n m0 m s z foreign)))
  stores_found r (inr (before, last, after, behind, e, cut, foreign, own)) =
      subst
        (λ r.
          Ensures (Serves hash mask fresh nr m0) Left (store_next src r.0 >> store_next zipper r.1)
            m)
        (sym e)
        (stores_ends (before ++ last ∷ []) (after ∷ behind)
          (segment_gone hash mask fresh nr src nodes c d n m0 m s z before last after behind cut
            foreign own)
          foreign last
          (inr (
            last_in hash mask fresh nr src nodes c d n m0 m s z before last after behind cut foreign
              own))
          (zip_other (
            zips_other hash mask fresh nr src nodes c d n m0 m s z before last after behind cut
              foreign own)))

  turn_other : is hash mask c turn ≡ false
  turn_other = elim (Bool-cases (is hash mask c turn)) [
    | inl own ↦ absurd (s.apart (same_test (bit_and (hash turn) mask) c d own z.turns))
    | inr foreign ↦ foreign
  ]

  -- unzipOneSegment from its second assertion on.
  abbrev split : (fuel id : ℕ) (next : Ptr) (next_id : ℕ) → Prog (Unit {0})
  split fuel id next next_id = if next_id == id then fault else (do
    ends ← segment_loop fuel id mask next
    store_next src ends.0
    store_next zipper ends.1)

  split_lem :
      (fuel : ℕ)
      → n ≤ fuel
      → Chain m.next null (turn ∷ rest)
      → Ensures (Serves hash mask fresh nr m0) Left (split fuel c turn d) m
  split_lem fuel enough run = takes_else _ _ (eq_false d c λ e. s.apart (sym e)) (
      bind-Ensures
        (segment_loop-Ends hash mask fresh nr m0 fuel c turn rest m s.same_hash run turn_other
          (omega (arith, enough, z.enough)))
        λ r m' (e, ends).
          subst
            (λ m'.
              Ensures (Serves hash mask fresh nr m0) Left
                (store_next src r.0 >> store_next zipper r.1) m')
            (sym e) (stores_found r ends))

  pub unzip_one_segment_lem :
      (fuel : ℕ)
      → n ≤ fuel
      → Ensures (Serves hash mask fresh nr m0) Left (unzip_one_segment fuel src mask) m
  unfolding unzip_one_segment
  unzip_one_segment_lem fuel enough = loads_quietly hash mask fresh nr m0 z.at_zipper (
      rw (eq_false zipper null run.0) (
        loads_quietly hash mask fresh nr m0 run.1 (
          rw (eq_false turn null run.3.0) (
            computes_own hash mask fresh nr m0 c zipper
              (λ id. load_next zipper >>= λ next.
                compute_hash_bucket_id next mask >>= split fuel id next)
              m s.same_hash run.1 own_zipper
              (loads_quietly hash mask fresh nr m0
                {k = λ next. compute_hash_bucket_id next mask >>= split fuel c next} run.1
                (computes_own hash mask fresh nr m0 d turn (split fuel c turn) m s.same_hash run.3.1
                  z.turns (split_lem fuel enough run.3)))))))
    where
      run : Chain m.next null (zipper ∷ turn ∷ rest)
      run = Chain-right m.next null ((fresh + c) ∷ front) (zipper ∷ turn ∷ rest) z.list

      own_zipper : is hash mask c zipper ≡ true
      own_zipper = ground (arith, all-append (is hash mask c) front (zipper ∷ []), z.own_front)
