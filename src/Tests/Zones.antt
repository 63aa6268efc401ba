-- ===== src/Tests/Zones.antt =====
-- One reader and the writer on a zone with one bucket for registered threads and one for others.
use relativistic_hash_table.Base.{ℕ, ◌+◌, ◌^◌, ◌≤◌, ◌<◌, ◌≡◌, ◌≢◌, ◌⊎◌, inl, refl, [], ◌∷◌, arith}
use relativistic_hash_table.Rcu.{
  Zone, minus_one, upper_bound_power_of2, register_reader_thread, nr_buckets_per_epoch,
  fetch_thread_bucket_id,
}
use relativistic_hash_table.Rcu.Total.{total}
use relativistic_hash_table.Rcu.Register.{registered, registered_unique}
use relativistic_hash_table.Rcu.Setup.{
  upper_bound_power_of2-least, upper_bound_power_of2_wraps, fetch_thread_bucket_id-lt,
}
use relativistic_hash_table.Rcu.System.{
  recount, increment, Reader, locked, Writer, waiting, System, row_of, read_step, write_step,
  update, Steps, Steps-trans, none, more, read, write, start, IsNewZone,
}
use relativistic_hash_table.Rcu.Invariant.{weight}
use relativistic_hash_table.Rcu.Grace.{grace_period, counts_exact, rows_apart, wait_justified}
use relativistic_hash_table.Rcu.Progress.{write_steps, synchronize_returns}
use relativistic_hash_table.Rcu.Lock.{read_steps, lock-unlock}

abbrev zone : Zone
zone = record { nr_hash_thread_buckets = 1; count = λ row b. 0; epoch_latest = 0; epoch_oldest = 0 }

abbrev bucket : ℕ → ℕ
bucket i = 1

abbrev reads : System → System
reads s =
    let next = read_step (bucket 0) s.zone (s.reader 0) in
    record s { zone = next.0; reader = update s.reader 0 next.1 }

abbrev writes : System → System
writes s = let next = write_step 2 s.zone s.writer in record s { zone = next.0; writer = next.1 }

-- the reader is in a session
abbrev in_session : System
in_session = reads (reads (reads (start zone)))

-- the writer has begun, and waits in front of the reader's bucket
abbrev in_wait : System
in_wait = writes (writes in_session)

-- the reader has left, and the writer has finished
abbrev after_wait : System
after_wait = writes (writes (writes (reads in_wait)))

new : IsNewZone zone
new = (refl, refl, λ row b. refl)

to_session : Steps 1 2 bucket (start zone) in_session
to_session =
    more (more (more none (read 0 (omega arith))) (read 0 (omega arith))) (read 0 (omega arith))

to_wait : Steps 1 2 bucket in_session in_wait
unfolding read_step write_step
to_wait = more (more none (write (λ _. omega arith))) (write (λ _. omega arith))

to_end : Steps 1 2 bucket in_wait after_wait
unfolding read_step write_step
to_end =
    more
      (more (more (more none (read 0 (omega arith))) (write (λ _. omega arith)))
        (write (λ _. omega arith)))
      (write (λ _. omega arith))

wait_ends : (after_wait.writer ≡ Writer.outside) × (after_wait.zone.epoch_latest ≡ 1)
unfolding read_step write_step
wait_ends = (refl, refl)

grace_period_example : after_wait.reader 0 ≢ locked 0
unfolding read_step write_step
grace_period_example =
    grace_period {bucket = bucket} (omega arith) (λ i. omega arith) new to_session
      (Steps-trans to_wait to_end) refl refl (omega arith) 0 0 (omega arith) refl

counts_exact_example :
    (in_wait.zone.count 0 1 ≡ total 1 (λ i. weight 0 1 (bucket i) (in_wait.reader i)))
    × (in_wait.zone.count 0 1 < 2 ^ 31)
counts_exact_example =
    counts_exact {bucket = bucket} (omega arith) (λ i. omega arith) new
      (Steps-trans to_session to_wait) 0 1

wait_justified_example :
    ((write_step 2 in_wait.zone (waiting 0 1)).1 ≡ waiting 0 2)
    ⊎ ((i : ℕ) × (i < 1)
        × (0 < weight (row_of in_wait.zone.epoch_oldest) 1 (bucket i) (in_wait.reader i)))
unfolding read_step write_step
wait_justified_example =
    wait_justified {bucket = bucket} (omega arith) (λ i. omega arith) new
      (Steps-trans to_session to_wait) refl (omega arith) (omega arith)

lock-unlock_example :
    (read_steps 3 1 zone Reader.outside ≡ (recount zone (row_of 0) 1 increment, locked 0))
    × (read_steps 4 1 zone Reader.outside ≡ (zone, Reader.outside))
lock-unlock_example = lock-unlock 1 zone (λ row b. omega arith)

registered_unique_example :
    ((registered 4 (7 ∷ 3 ∷ [])).tls_reader_bucket_id 7 < 4)
    × ((u : ℕ)
        → (registered 4 (7 ∷ 3 ∷ [])).tls_reader_bucket_id 7
          ≡ (registered 4 (7 ∷ 3 ∷ [])).tls_reader_bucket_id u
        → 7 ≡ u)
unfolding registered register_reader_thread
registered_unique_example =
    registered_unique 4 (7 ∷ 3 ∷ []) (omega arith) (omega arith) 7 (omega arith)

upper_bound_power_of2-least_example :
    (k : ℕ) × (upper_bound_power_of2 100 ≡ 2 ^ k)
    × (100 ≤ 2 ^ k)
    × ((j : ℕ) → 100 ≤ 2 ^ j → 2 ^ k ≤ 2 ^ j)
upper_bound_power_of2-least_example = upper_bound_power_of2-least 100 (omega arith)

upper_bound_power_of2_wraps_example : upper_bound_power_of2 0x8000_0001 ≡ 0
upper_bound_power_of2_wraps_example =
    upper_bound_power_of2_wraps 0x8000_0001 (omega arith) (omega arith)

fetch_thread_bucket_id-lt_example :
    fetch_thread_bucket_id 8 minus_one 0xabcdef zone < nr_buckets_per_epoch 8 zone
fetch_thread_bucket_id-lt_example =
    fetch_thread_bucket_id-lt 8 minus_one 0xabcdef zone (omega arith) (omega arith) (inl refl)

-- Reader 0 is in a session of epoch 0, the writer has begun, and reader 1 is in one of epoch 1.
abbrev enters : System → System
enters s =
    let next = read_step (bucket 1) s.zone (s.reader 1) in
    record s { zone = next.0; reader = update s.reader 1 next.1 }

abbrev two_sessions : System
two_sessions = enters (enters (enters (writes in_session)))

to_two_sessions : Steps 2 2 bucket (start zone) two_sessions
unfolding read_step write_step
to_two_sessions =
    more
      (more
        (more
          (more
            (more (more (more none (read 0 (omega arith))) (read 0 (omega arith)))
              (read 0 (omega arith)))
            (write (λ _. omega arith)))
          (read 1 (omega arith)))
        (read 1 (omega arith)))
      (read 1 (omega arith))

rows_apart_example : row_of 0 ≢ row_of 1
unfolding read_step write_step
rows_apart_example =
    rows_apart {bucket = bucket} (omega arith) (λ i. omega arith) new to_two_sessions 0 1 0 1
      (omega arith) (omega arith) refl refl (omega arith)

-- the reader has left, and the writer still waits
abbrev left : System
left = reads in_wait

to_left : Steps 1 2 bucket (start zone) left
unfolding read_step write_step
to_left = Steps-trans to_session (Steps-trans to_wait (more none (read 0 (omega arith))))

synchronize_returns_example :
    (n : ℕ) × (n ≤ 2 + 2)
    × (write_steps n 2 left.zone (waiting 0 1)
        ≡ (record left.zone { epoch_oldest = left.zone.epoch_latest }, Writer.outside))
unfolding read_step write_step
synchronize_returns_example =
    synchronize_returns {bucket = bucket} (omega arith) (λ i. omega arith) new to_left refl
      λ i k lt. ground (arith, lt)
