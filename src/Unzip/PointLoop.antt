-- ===== src/Unzip/PointLoop.antt =====
-- The loop of findFirstUnzipPoint.
use relativistic_hash_table.Base.{
  ℕ, zero, suc, ◌<◌, ◌≡◌, ◌⊎◌, inl, inr, refl, ap, true, false, not, List, [], ◌∷◌, ◌++◌, ◌==◌, all,
  length, arith, eq_false, if◌then◌else◌, Bool-cases,
}
use relativistic_hash_table.Memory.{Ptr, null, Mem, ret}
use relativistic_hash_table.Memory.Ensures.{Ensures, returns, takes_then, takes_else, mono}
use relativistic_hash_table.Memory.Chain.{Chain}
use relativistic_hash_table.Buckets.{unzip_point_loop}
use relativistic_hash_table.Unzip.{is, Serves}
use relativistic_hash_table.Unzip.Segment.{loads_quietly, computes_id}

module _ (hash : Ptr → ℕ) (mask fresh nr : ℕ) (m0 : Mem) where
  -- Where the first segment, of the bucket `c`, ends: nowhere, or at the cell `r`.
  abbrev pub Point : (c : ℕ) (xs : List Ptr) → Ptr → Type 0
  Point c xs r =
      ((r ≡ null) × (all (is hash mask c) xs ≡ true))
      ⊎ ((front : List Ptr) × (turn : Ptr) × (rest : List Ptr) × (xs ≡ front ++ r ∷ turn ∷ rest)
          × (all (is hash mask c) (front ++ r ∷ []) ≡ true)
          × (is hash mask c turn ≡ false))

  Point-cons :
      (c y : ℕ) (xs : List Ptr) (r : Ptr)
      → is hash mask c y ≡ true
      → Point c xs r
      → Point c (y ∷ xs) r
  Point-cons c y xs r own (inl (e, all_own)) = inl (e, rw own all_own)
  Point-cons c y xs r own (inr (front, turn, rest, cut, all_own, foreign)) =
      inr (y ∷ front, turn, rest, ap (λ l. y ∷ l) cut, rw own all_own, foreign)

  pub unzip_point_loop-Point :
      (fuel c y : ℕ) (ys : List Ptr) (m : Mem)
      → m.hash ≡ hash
      → Chain m.next null (y ∷ ys)
      → is hash mask c y ≡ true
      → length (y ∷ ys) < suc fuel
      → Ensures
          (Serves hash mask fresh nr m0)
          (λ r m'. (m' ≡ m) × Point c (y ∷ ys) r)
          (unzip_point_loop fuel c mask y)
          m
  unfolding unzip_point_loop
  unzip_point_loop-Point zero c y ys m same chain own enough = absurd (omega arith)
  unzip_point_loop-Point (suc fuel) c y [] m same chain own enough =
      loads_quietly hash mask fresh nr m0 chain.1 (returns (refl, inl (refl, rw own refl)))
  unzip_point_loop-Point (suc fuel) c y (z ∷ ys) m same chain own enough =
      loads_quietly hash mask fresh nr m0 chain.1 (
        rw (eq_false z null chain.3.0) (
          computes_id hash mask fresh nr m0 z
            (λ i. if not (i == c) then ret y else unzip_point_loop fuel c mask z) m same chain.3.1
            (elim (Bool-cases (is hash mask c z)) [
              | inl more ↦ takes_else _ _ (ap not more) (
                  mono (unzip_point_loop-Point fuel c z ys m same chain.3 more (omega arith))
                    λ r m' (e, point). (e, Point-cons c y (z ∷ ys) r own point))
              | inr foreign ↦
                  takes_then _ _ (ap not foreign)
                    (returns (refl, inr ([], z, ys, refl, rw own refl, foreign)))
            ])))
