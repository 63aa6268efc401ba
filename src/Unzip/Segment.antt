-- ===== src/Unzip/Segment.antt =====
-- The loop of unzipOneSegment.
use Prim.Native.Nat.{bit_and}
use relativistic_hash_table.Base.{
  ℕ, zero, suc, ◌<◌, ◌≡◌, ◌⊎◌, inl, inr, refl, sym, ap, true, false, not, some, List, [], ◌∷◌, ◌++◌,
  ◌==◌, all, length, arith, eq_false, ==→eq, subst, if◌then◌else◌, Bool-cases,
}
use relativistic_hash_table.Memory.{Ptr, null, Mem, Action, load, get_hash, Prog, act, ret, ◌>>=◌}
use relativistic_hash_table.Memory.Ensures.{
  Ensures, returns, loads, gets_hash, mono, takes_then, takes_else,
}
use relativistic_hash_table.Memory.Chain.{Chain}
use relativistic_hash_table.Memory.Trace.{is_synchronize}
use relativistic_hash_table.Buckets.{segment_loop, compute_hash_bucket_id}
use relativistic_hash_table.Unzip.{is, Serves}

module _ (hash : Ptr → ℕ) (mask fresh nr : ℕ) (m0 : Mem) where
  pub Serves_same :
      {m : Mem} (a : Action) → is_synchronize a ≡ false → Serves hash mask fresh nr m0 m a m
  Serves_same a e = record { no_wait = e; finds = λ c x t lt at own live r. r; stays = λ s. s }

  pub loads_quietly :
      {A : Type 0} {Q : A → Mem → Type 0} {p q : Ptr} {k : Ptr → Prog A} {m : Mem}
      → m.next p ≡ some q
      → Ensures (Serves hash mask fresh nr m0) Q (k q) m
      → Ensures (Serves hash mask fresh nr m0) Q (act (load p) k) m
  loads_quietly {p = p} e rest = loads e (Serves_same (load p) refl) rest

  -- computeHashBucketId, in a memory with the hashes `hash`
  pub computes_id :
      {A : Type 0} {Q : A → Mem → Type 0} {q : Ptr} (p : Ptr) (k : ℕ → Prog A) (m : Mem)
      → m.hash ≡ hash
      → m.next p ≡ some q
      → Ensures (Serves hash mask fresh nr m0) Q (k (bit_and (hash p) mask)) m
      → Ensures (Serves hash mask fresh nr m0) Q (compute_hash_bucket_id p mask >>= k) m
  unfolding compute_hash_bucket_id
  computes_id {Q = Q} p k m same at rest = gets_hash at (Serves_same (get_hash p) refl) (
      subst (λ h. Ensures (Serves hash mask fresh nr m0) Q (k (bit_and (h p) mask)) m) (sym same)
        rest)

  pub computes_own :
      {A : Type 0} {Q : A → Mem → Type 0} (c : ℕ) {q : Ptr} (p : Ptr) (k : ℕ → Prog A) (m : Mem)
      → m.hash ≡ hash
      → m.next p ≡ some q
      → is hash mask c p ≡ true
      → Ensures (Serves hash mask fresh nr m0) Q (k c) m
      → Ensures (Serves hash mask fresh nr m0) Q (compute_hash_bucket_id p mask >>= k) m
  computes_own {Q = Q} c p k m same at own rest = computes_id p k m same at (
      subst (λ i. Ensures (Serves hash mask fresh nr m0) Q (k i) m)
        (sym (==→eq (bit_and (hash p) mask) c own)) rest)

  -- How the list `y ∷ ys` ends for the loop: without a node of `c`, or with one behind the cell `last`.
  abbrev pub Ends : (c : ℕ) (xs : List Ptr) → Ptr × Ptr → Type 0
  Ends c xs r =
      ((r ≡ (null, null)) × (all (λ x. not (is hash mask c x)) xs ≡ true))
      ⊎ ((front : List Ptr) × (last : Ptr) × (next : Ptr) × (behind : List Ptr) × (r ≡ (last, next))
          × (xs ≡ front ++ last ∷ next ∷ behind)
          × (all (λ x. not (is hash mask c x)) (front ++ last ∷ []) ≡ true)
          × (is hash mask c next ≡ true))

  Ends-cons :
      (c y : ℕ) (xs : List Ptr) (r : Ptr × Ptr)
      → is hash mask c y ≡ false
      → Ends c xs r
      → Ends c (y ∷ xs) r
  Ends-cons c y xs r off (inl (e, none_own)) = inl (e, rw off none_own)
  Ends-cons c y xs r off (inr (front, last, next, behind, e, cut, foreign, own)) =
      inr (y ∷ front, last, next, behind, e, ap (λ l. y ∷ l) cut, rw off foreign, own)

  pub segment_loop-Ends :
      (fuel c y : ℕ) (ys : List Ptr) (m : Mem)
      → m.hash ≡ hash
      → Chain m.next null (y ∷ ys)
      → is hash mask c y ≡ false
      → length (y ∷ ys) < suc fuel
      → Ensures
          (Serves hash mask fresh nr m0)
          (λ r m'. (m' ≡ m) × Ends c (y ∷ ys) r)
          (segment_loop fuel c mask y)
          m
  unfolding segment_loop
  segment_loop-Ends zero c y ys m same chain off enough = absurd (omega arith)
  segment_loop-Ends (suc fuel) c y [] m same chain off enough =
      loads_quietly chain.1 (returns (refl, inl (refl, rw off refl)))
  segment_loop-Ends (suc fuel) c y (z ∷ ys) m same chain off enough = loads_quietly chain.1 (
      rw (eq_false z null chain.3.0) (
        computes_id z (λ i. if i == c then ret (y, z) else segment_loop fuel c mask z) m same
          chain.3.1
          (elim (Bool-cases (is hash mask c z)) [
            | inl own ↦
                takes_then _ _ own
                  (returns (refl, inr ([], y, z, ys, refl, refl, rw off refl, own)))
            | inr foreign ↦ takes_else _ _ foreign (
                mono (segment_loop-Ends fuel c z ys m same chain.3 foreign (omega arith))
                  λ r m' (e, ends). (e, Ends-cons c y (z ∷ ys) r off ends))
          ])))
