-- ===== src/Rcu/Invariant.antt =====
-- What every interleaving of readers and the writer keeps: the counts are exact, and a session that
-- the writer still waits for sits in a bucket that it has not passed.
use relativistic_hash_table.Base.{
  ℕ, ◌+◌, ◌^◌, ◌≤◌, ◌<◌, ◌≡◌, refl, sym, ◌∙◌, ◌⊎◌, ◌&&◌, ◌==◌, if◌then◌else◌, arith,
}
use relativistic_hash_table.Rcu.{Zone}
use relativistic_hash_table.Rcu.Total.{total, total-zero, total-le, le-total, total-change}
use relativistic_hash_table.Rcu.System.{
  Reader, loaded, counted, reverting, locked, Writer, waiting, System, row_of, read_step,
  write_step, update, Step, read, write, Steps, none, more, start, IsNewZone,
}

-- what a reader with the bucket `own` adds to the count at a place of the ring
abbrev pub weight : (row bucket own : ℕ) → Reader → ℕ
weight row bucket own (counted e) = if (row_of e == row) && (own == bucket) then 1 else 0
weight row bucket own (reverting e) = if (row_of e == row) && (own == bucket) then 1 else 0
weight row bucket own (locked e) = if (row_of e == row) && (own == bucket) then 1 else 0
weight row bucket own _ = 0

-- The epochs as the writer sees them.
abbrev pub InPhase : (nr : ℕ) → Zone → Writer → Type 0
InPhase nr z Writer.outside = z.epoch_oldest ≡ z.epoch_latest
InPhase nr z (waiting last bucket) =
    (z.epoch_latest ≡ last + 1)
    × (bucket ≤ nr)
    × ((z.epoch_oldest ≡ last) ⊎ ((z.epoch_oldest ≡ last + 1) × (bucket ≡ 0)))

-- A session of epoch `e` in the bucket `own` is of the latest epoch, or ahead of the writer's scan.
abbrev pub IsAwaited : Zone → Writer → (own e : ℕ) → Type 0
IsAwaited z Writer.outside own e = e ≡ z.epoch_latest
IsAwaited z (waiting last bucket) own e =
    (e ≡ z.epoch_latest) ⊎ ((e ≡ last) × (z.epoch_oldest ≡ last) × (bucket ≤ own))

pub record Inv (threads nr : ℕ) (bucket : ℕ → ℕ) (z : Zone) (reader : ℕ → Reader) (w : Writer)
    : Type 0 where
  pub counts : (row b : ℕ) → z.count row b ≡ total threads (λ i. weight row b (bucket i) (reader i))
  pub phase : InPhase nr z w
  pub small : z.epoch_latest < 2 ^ 63
  pub sessions : (i e : ℕ) → i < threads → reader i ≡ locked e → IsAwaited z w (bucket i) e

weight-le : (row b own : ℕ) (r : Reader) → weight row b own r ≤ 1
weight-le row b own r = ground arith

module _ {threads nr : ℕ} {bucket : ℕ → ℕ} (few : threads < 2 ^ 31) where
  module _ {z : Zone} {reader : ℕ → Reader} {w : Writer}
      (inv : Inv threads nr bucket z reader w) where
    pub count-le : (row b : ℕ) → z.count row b ≤ threads
    count-le row b = omega (
      arith,
      inv.counts row b,
      total-le threads (λ i. weight row b (bucket i) (reader i))
          (λ i. weight-le row b (bucket i) (reader i)),
    )

    pub weight-le-count :
        (row b i : ℕ) → i < threads → weight row b (bucket i) (reader i) ≤ z.count row b
    weight-le-count row b i lt =
        omega
          (arith, inv.counts row b, le-total threads (λ j. weight row b (bucket j) (reader j)) i lt)

    module _ (i : ℕ) (lt : i < threads) where
      reweigh :
          (row b : ℕ) (r' : Reader)
          → total threads (λ j. weight row b (bucket j) (update reader i r' j))
              + weight row b (bucket i) (reader i)
            ≡ z.count row b + weight row b (bucket i) r'
      reweigh row b r' = ground (
        arith,
        inv.counts row b,
        total-change threads (λ j. weight row b (bucket j) (reader j))
            (λ j. weight row b (bucket j) (update reader i r' j)) i lt (λ j ne. ground arith),
      )

      read-counts :
          (r : Reader)
          → reader i ≡ r
          → (row b : ℕ)
          → (read_step (bucket i) z r).0.count row b
            ≡ total threads
                (λ j. weight row b (bucket j) (update reader i (read_step (bucket i) z r).1 j))
      unfolding read_step
      read-counts r at row b = ground (
        arith,
        reweigh row b (read_step (bucket i) z r).1,
        weight-le-count row b i lt,
        count-le row b,
      )

      read-sessions :
          (r : Reader)
          → reader i ≡ r
          → (j e : ℕ) → j < threads
          → update reader i (read_step (bucket i) z r).1 j ≡ locked e
          → IsAwaited (read_step (bucket i) z r).0 w (bucket j) e
      unfolding read_step
      read-sessions r at j e below is = ground (arith, inv.sessions j e)

      read-phase :
          (r : Reader)
          → (InPhase nr (read_step (bucket i) z r).0 w)
            × ((read_step (bucket i) z r).0.epoch_latest ≡ z.epoch_latest)
      unfolding read_step
      read-phase r = go r w inv.phase
        where
          go :
              (r : Reader) (w : Writer)
              → InPhase nr z w
              → (InPhase nr (read_step (bucket i) z r).0 w)
                × ((read_step (bucket i) z r).0.epoch_latest ≡ z.epoch_latest)
          go Reader.outside w p = (p, refl)
          go (loaded e) Writer.outside p = (p, refl)
          go (loaded e) (waiting l b) p = (p, refl)
          go (counted e) w p = (p, refl)
          go (reverting e) Writer.outside p = (p, refl)
          go (reverting e) (waiting l b) p = (p, refl)
          go (locked e) Writer.outside p = (p, refl)
          go (locked e) (waiting l b) p = (p, refl)

      read-Inv :
          (r : Reader)
          → reader i ≡ r
          → Inv threads nr bucket
              (read_step (bucket i) z r).0
              (update reader i (read_step (bucket i) z r).1)
              w
      read-Inv r at = record {
        counts = read-counts r at;
        phase = (read-phase r).0;
        small = omega (arith, inv.small, (read-phase r).1);
        sessions = read-sessions r at;
      }

    -- At the end of a scan there is no session of the old epoch left, and at a count that is not
    -- positive none in that bucket.
    session-counts :
        (i e b : ℕ) → i < threads → reader i ≡ locked e → b ≡ bucket i → 0 < z.count (row_of e) b
    session-counts i e b lt is at = ground (arith, weight-le-count (row_of e) b i lt)

    write-Inv :
        (w' : Writer)
        → w' ≡ w
        → (w' ≡ Writer.outside → z.epoch_latest + 1 < 2 ^ 63)
        → ((i : ℕ) → bucket i < nr)
        → Inv threads nr bucket (write_step nr z w').0 reader (write_step nr z w').1
    unfolding write_step
    write-Inv Writer.outside is room fits = record {
      counts = inv.counts;
      phase = ground (arith, inv.phase, room refl);
      small = ground (arith, room refl);
      sessions = λ i e lt at. ground (arith, inv.sessions i e lt at);
    }
    write-Inv (waiting last b) is room fits = record {
      counts = λ row k. ground (arith, inv.counts row k);
      phase = ground (arith, inv.phase);
      small = ground (arith, inv.small);
      sessions = λ i e lt at. ground (
        arith,
        inv.sessions i e lt at,
        inv.phase,
        fits i,
        session-counts i e b lt at,
        count-le (row_of z.epoch_oldest) b,
      );
    }

module _ {threads nr : ℕ} {bucket : ℕ → ℕ} (few : threads < 2 ^ 31)
    (fits : (i : ℕ) → bucket i < nr) where
  abbrev pub IsSound : System → Type 0
  IsSound s = Inv threads nr bucket s.zone s.reader s.writer

  pub Step-Inv : {s t : System} → Step threads nr bucket s t → IsSound s → IsSound t
  Step-Inv {s} (read i lt) inv = read-Inv few inv i lt (s.reader i) refl
  Step-Inv {s} (write room) inv = write-Inv few inv s.writer refl room fits

  pub Steps-Inv : {s t : System} → Steps threads nr bucket s t → IsSound s → IsSound t
  Steps-Inv none inv = inv
  Steps-Inv (more steps step) inv = Step-Inv step (Steps-Inv steps inv)

  pub start-Inv : (z : Zone) → IsNewZone z → IsSound (start z)
  start-Inv z new = record {
    counts = λ row b.
        new.2 row b
        ∙ sym (total-zero threads (λ i. weight row b (bucket i) Reader.outside) (λ i. refl));
    phase = omega arith;
    small = omega arith;
    sessions = λ i e lt at. cc;
  }
