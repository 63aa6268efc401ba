-- ===== src/Rcu/Grace.antt =====
-- What rcuSynchronize promises: when it returns, the sessions from before its call are over.
use relativistic_hash_table.Base.{
  ℕ, ◌+◌, ◌^◌, ◌≤◌, ◌<◌, ◌≡◌, ◌≢◌, ◌⊎◌, inl, inr, ltb, ltb→lt, arith, Bool-cases, ◌∙◌, sym, subst,
}
use relativistic_hash_table.Rcu.{Zone}
use relativistic_hash_table.Rcu.Total.{total, total-pos}
use relativistic_hash_table.Rcu.System.{
  locked, Writer, waiting, System, row_of, write_step, Steps, Steps-trans, start, IsNewZone,
}
use relativistic_hash_table.Rcu.Invariant.{
  weight, InPhase, IsAwaited, Steps-Inv, start-Inv, count-le,
}

two_epochs :
    (nr own own' e e' : ℕ) (z : Zone) (w : Writer)
    → InPhase nr z w
    → IsAwaited z w own e
    → IsAwaited z w own' e'
    → e ≢ e'
    → row_of e ≢ row_of e'
two_epochs nr own own' e e' z Writer.outside phase a a' apart = absurd (omega arith)
two_epochs nr own own' e e' z (waiting last b) phase a a' apart = omega arith

module _ {threads nr : ℕ} {bucket : ℕ → ℕ} (few : threads < 2 ^ 31) (fits : (i : ℕ) → bucket i < nr)
    {z : Zone} (new : IsNewZone z) where
  idle_session :
      {s : System}
      → Steps threads nr bucket (start z) s
      → s.writer ≡ Writer.outside
      → (i e : ℕ) → i < threads
      → s.reader i ≡ locked e
      → e ≡ s.zone.epoch_latest
  idle_session {s} steps idle i e lt at =
      subst (λ w. IsAwaited s.zone w (bucket i) e) idle
        ((Steps-Inv few fits steps (start-Inv few fits z new)).sessions i e lt at)

  -- Fewer than 2 ^ 31 readers, each with a bucket of the zone, use a new zone together with one
  -- writer, in any interleaving. If a reader is in a session at a moment when no rcuSynchronize is
  -- under way, and at a later moment none is under way either but the epoch has moved on, so that
  -- rcuSynchronize was called and has returned in between, then that session is over.
  pub grace_period :
      {s t : System}
      → Steps threads nr bucket (start z) s
      → Steps threads nr bucket s t
      → s.writer ≡ Writer.outside
      → t.writer ≡ Writer.outside
      → s.zone.epoch_latest ≢ t.zone.epoch_latest
      → (i e : ℕ) → i < threads
      → s.reader i ≡ locked e
      → t.reader i ≢ locked e
  grace_period before after idle idle' moved i e lt at at' = moved (
      sym (idle_session before idle i e lt at)
      ∙ idle_session (Steps-trans before after) idle' i e lt at')

  -- While fewer than 2 ^ 31 readers, each with a bucket of the zone, and one writer use a new zone, in
  -- any interleaving, each reference count is the number of readers that are between their increment
  -- and their decrement at its place of the ring, and so stays below 2 ^ 31.
  pub counts_exact :
      {s : System}
      → Steps threads nr bucket (start z) s
      → (row b : ℕ)
      → (s.zone.count row b ≡ total threads (λ i. weight row b (bucket i) (s.reader i)))
        × (s.zone.count row b < 2 ^ 31)
  counts_exact steps row b =
      let inv = Steps-Inv few fits steps (start-Inv few fits z new) in
      (inv.counts row b, omega (arith, count-le few inv row b))

  -- Two rows are enough: in every reachable state, sessions of different epochs count in different
  -- rows of the ring, so the writer never waits for a session of the epoch after the one it drains.
  pub rows_apart :
      {s : System}
      → Steps threads nr bucket (start z) s
      → (i j e e' : ℕ) → i < threads
      → j < threads
      → s.reader i ≡ locked e
      → s.reader j ≡ locked e'
      → e ≢ e'
      → row_of e ≢ row_of e'
  rows_apart {s} steps i j e e' lt lt' at at' apart =
      let inv = Steps-Inv few fits steps (start-Inv few fits z new) in
      two_epochs nr (bucket i) (bucket j) e e' s.zone s.writer inv.phase (inv.sessions i e lt at)
        (inv.sessions j e' lt' at') apart

  -- The writer waits for readers only: where its scan stands at a bucket, it either goes on to the
  -- next bucket, or a reader with that bucket is between its increment and its decrement in the row.
  pub wait_justified :
      {s : System} {last b : ℕ}
      → Steps threads nr bucket (start z) s
      → s.writer ≡ waiting last b
      → s.zone.epoch_oldest ≤ last
      → b < nr
      → ((write_step nr s.zone (waiting last b)).1 ≡ waiting last (b + 1))
        ⊎ ((i : ℕ) × (i < threads)
            × (0 < weight (row_of s.zone.epoch_oldest) b (bucket i) (s.reader i)))
  unfolding write_step
  wait_justified {s} {last} {b} steps at open_row more =
      let inv = Steps-Inv few fits steps (start-Inv few fits z new) in
      let row = row_of s.zone.epoch_oldest in
      elim (Bool-cases (ltb 0 (s.zone.count row b))) [
        | inl busy ↦ inr (
            total-pos threads (λ i. weight row b (bucket i) (s.reader i))
              (omega (arith, inv.counts row b, ltb→lt 0 (s.zone.count row b) busy)))
        | inr free ↦ inl (ground arith)
      ]
