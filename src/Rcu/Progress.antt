-- ===== src/Rcu/Progress.antt =====
-- rcuSynchronize returns when the readers that it waits for have left.
use relativistic_hash_table.Base.{
  ℕ, zero, suc, ◌+◌, ◌-◌, ◌^◌, ◌≤◌, ◌<◌, ◌≡◌, refl, sym, ◌∙◌, ap, arith, leb, ltb, inl, inr, true,
  false, subst,
}
use relativistic_hash_table.Rcu.{Zone}
use relativistic_hash_table.Rcu.Total.{total, total-zero, total-same_below}
use relativistic_hash_table.Rcu.System.{
  Writer, waiting, System, row_of, write_step, Steps, start, IsNewZone,
}
use relativistic_hash_table.Rcu.Invariant.{weight, InPhase, Steps-Inv, start-Inv}

-- A writer that makes `n` accesses while no other thread makes one.
pub write_steps : (n nr : ℕ) → Zone → Writer → Zone × Writer
write_steps zero nr z w = (z, w)
write_steps (suc n) nr z w = let next = write_step nr z w in write_steps n nr next.0 next.1

-- the three steps of a scan that finds no reader
step_out :
    (nr last b : ℕ) (z : Zone)
    → z.epoch_oldest ≡ last + 1
    → write_step nr z (waiting last b) ≡ (z, Writer.outside)
unfolding write_step
step_out nr last b z at = rw (at, leb_false last) refl
  where
    leb_false : (n : ℕ) → leb (n + 1) n ≡ false
    leb_false n = ground arith

step_row :
    (nr last b : ℕ) (z : Zone)
    → z.epoch_oldest ≡ last
    → b ≡ nr
    → write_step nr z (waiting last b) ≡ (record z { epoch_oldest = last + 1 }, waiting last 0)
unfolding write_step
step_row nr last b z at end = rw (at, leb_refl last, end, ltb_irrefl nr) refl
  where
    leb_refl : (n : ℕ) → leb n n ≡ true
    leb_refl n = ground arith

    ltb_irrefl : (n : ℕ) → ltb n n ≡ false
    ltb_irrefl n = ground arith

step_next :
    (nr last b : ℕ) (z : Zone)
    → z.epoch_oldest ≡ last
    → b < nr
    → z.count (row_of last) b ≡ 0
    → write_step nr z (waiting last b) ≡ (z, waiting last (b + 1))
unfolding write_step
step_next nr last b z at more drained = rw (at, leb_refl last, ltb_true b nr more, drained) refl
  where
    leb_refl : (n : ℕ) → leb n n ≡ true
    leb_refl n = ground arith

    ltb_true : (n k : ℕ) → n < k → ltb n k ≡ true
    ltb_true n k lt = ground arith

one_more :
    (n nr : ℕ) (z : Zone) (w : Writer) (next : Zone × Writer)
    → write_step nr z w ≡ next
    → write_steps (suc n) nr z w ≡ write_steps n nr next.0 next.1
unfolding write_steps
one_more n nr z w next e = ap (λ (p : Zone × Writer). write_steps n nr p.0 p.1) e

no_more : (nr : ℕ) (z : Zone) (w : Writer) → write_steps 0 nr z w ≡ (z, w)
unfolding write_steps
no_more nr z w = refl

scan :
    (n nr last b : ℕ) (z : Zone)
    → z.epoch_oldest ≡ last
    → ((k : ℕ) → z.count (row_of last) k ≡ 0)
    → nr ≡ b + n
    → write_steps (suc (suc n)) nr z (waiting last b)
      ≡ (record z { epoch_oldest = last + 1 }, Writer.outside)
scan zero nr last b z at drained end =
    one_more 1 nr z (waiting last b) (record z { epoch_oldest = last + 1 }, waiting last 0)
      (step_row nr last b z at (omega (arith, end)))
    ∙ one_more 0 nr (record z { epoch_oldest = last + 1 }) (waiting last 0)
        (record z { epoch_oldest = last + 1 }, Writer.outside)
        (step_out nr last 0 (record z { epoch_oldest = last + 1 }) refl)
    ∙ no_more nr (record z { epoch_oldest = last + 1 }) Writer.outside
scan (suc n) nr last b z at drained end =
    one_more (suc (suc n)) nr z (waiting last b) (z, waiting last (b + 1))
      (step_next nr last b z at (omega (arith, end)) (drained b))
    ∙ scan n nr last (b + 1) z at drained (omega (arith, end))

module _ {threads nr : ℕ} {bucket : ℕ → ℕ} (few : threads < 2 ^ 31) (fits : (i : ℕ) → bucket i < nr)
    {z : Zone} (new : IsNewZone z) where
  -- Fewer than 2 ^ 31 readers, each with a bucket of the zone, use a new zone together with one
  -- writer, in any interleaving. At a moment when the writer is in rcuSynchronize and no reader is
  -- between its increment and its decrement in the row of the oldest epoch, at most two accesses more
  -- than the zone has buckets, with none of another thread in between, take the writer out of
  -- rcuSynchronize; they leave the counts and the latest epoch as they are, and the oldest epoch is
  -- then the latest one.
  pub synchronize_returns :
      {s : System} {last b : ℕ}
      → Steps threads nr bucket (start z) s
      → s.writer ≡ waiting last b
      → ((i k : ℕ)
          → i < threads
          → weight (row_of s.zone.epoch_oldest) k (bucket i) (s.reader i) ≡ 0)
      → (n : ℕ) × (n ≤ nr + 2)
        × (write_steps n nr s.zone (waiting last b)
            ≡ (record s.zone { epoch_oldest = s.zone.epoch_latest }, Writer.outside))
  synchronize_returns {s} {last} {b} steps at gone =
      let inv = Steps-Inv few fits steps (start-Inv few fits z new) in
      let (latest, le, row) = subst (InPhase nr s.zone) at inv.phase in
      elim row [
        | inl old ↦ (
          suc (suc (nr - b)),
          omega arith,
          scan (nr - b) nr last b s.zone old (drained last old inv.counts) (omega (arith, le))
              ∙ ap (λ e. (record s.zone { epoch_oldest = e }, Writer.outside)) (sym latest),
        )
        | inr (newer, at_zero) ↦ (
          1,
          omega arith,
          one_more 0 nr s.zone (waiting last b) (s.zone, Writer.outside)
                (step_out nr last b s.zone newer)
              ∙ no_more nr s.zone Writer.outside
              ∙ ap (λ e. (record s.zone { epoch_oldest = e }, Writer.outside)) (newer ∙ sym latest),
        )
      ]
    where
      drained :
          (last : ℕ)
          → s.zone.epoch_oldest ≡ last
          → ((row k : ℕ)
              → s.zone.count row k ≡ total threads (λ i. weight row k (bucket i) (s.reader i)))
          → (k : ℕ) → s.zone.count (row_of last) k ≡ 0
      drained last old counts k =
          ap (λ e. s.zone.count (row_of e) k) (sym old)
          ∙ counts (row_of s.zone.epoch_oldest) k
          ∙ total-same_below threads (λ i. 0)
              (λ i. weight (row_of s.zone.epoch_oldest) k (bucket i) (s.reader i))
              (λ i lt. gone i k lt)
          ∙ total-zero threads (λ i. 0) (λ i. refl)
