-- ===== src/Capture/Correlate/Evidence.antt =====
-- What evidence that supports a repair rests on, in src/passive_capture.rs.
use context_guardian.Prelude.{
  ℕ, ◌≤◌, ◌<◌, String, true, ◌||◌, some, List, ltb, ◌==◌, filter, filter_sound, All-filter,
  min_by_key_sound, max_by_key_sound, All, All-implies, Memᴰ, ◌≡◌, sym, arith, eq_iff, Option-cases,
  &&-true, is_some, find, Bool-apart, inl, inr,
}
use context_guardian.Capture.Differences.{field_map}
use context_guardian.Capture.Differences.Explained.{Explained, schema_differences_lossless}
use context_guardian.Capture.Correlate.{
  TransactionReport, is_failed, is_success, identifiers_compatible, abs_diff, request_at, is_near,
  find_failed, find_baseline, compare_transactions, correlate_transactions,
}

module _ (reference window_ms : ℕ) (transactions : List TransactionReport) where
  abbrev pub distance : TransactionReport → ℕ
  distance transaction = abs_diff (request_at transaction) reference

  -- A failed transaction in the window, and no other one is nearer to the reference.
  abbrev pub IsNearestFailed : TransactionReport → Type 0
  IsNearestFailed failed =
      Memᴰ failed transactions
      × (is_failed failed ≡ true)
      × (distance failed ≤ window_ms)
      × All
          (λ other.
            is_failed other ≡ true → distance other ≤ window_ms → distance failed ≤ distance other)
          transactions

  -- An earlier success with the same target and compatible identifiers.
  abbrev pub IsBaselineFor : TransactionReport → TransactionReport → Type 0
  IsBaselineFor failed baseline =
      Memᴰ baseline transactions
      × (is_success baseline ≡ true)
      × (request_at baseline < request_at failed)
      × (baseline.target_hash ≡ failed.target_hash)
      × (identifiers_compatible baseline failed ≡ true)

  find_failed-IsNearestFailed :
      (failed : TransactionReport)
      → find_failed reference window_ms transactions ≡ some failed
      → IsNearestFailed failed
  unfolding find_failed
  find_failed-IsNearestFailed failed found =
      let near = filter (is_near reference window_ms) (filter is_failed transactions) in
      let (there, best) = min_by_key_sound distance failed near found in
      let (within, failing) =
        filter_sound (is_near reference window_ms) failed (filter is_failed transactions) there in
      let (fails, was) = filter_sound is_failed failed transactions failing in
      let nearest =
        All-filter is_failed
          (λ other. is_near reference window_ms other ≡ true → distance failed ≤ distance other)
          transactions
          (All-filter (is_near reference window_ms) (λ other. distance failed ≤ distance other)
            (filter is_failed transactions) best) in
      (
        was,
        fails,
        ground arith,
        All-implies
            (λ other.
              is_failed other ≡ true
              → is_near reference window_ms other ≡ true
              → distance failed ≤ distance other)
            (λ other.
              is_failed other ≡ true
              → distance other ≤ window_ms
              → distance failed ≤ distance other)
            (λ other step fails_too close. step fails_too (ground arith)) transactions nearest,
      )

  find_baseline-IsBaselineFor :
      (failed baseline : TransactionReport)
      → find_baseline failed transactions ≡ some baseline
      → IsBaselineFor failed baseline
  unfolding find_baseline
  find_baseline-IsBaselineFor failed baseline found =
      let earlier =
        filter (λ transaction. ltb (request_at transaction) (request_at failed))
          (filter is_success transactions) in
      let same = filter (λ transaction. transaction.target_hash == failed.target_hash) earlier in
      let there =
        (max_by_key_sound request_at baseline
          (filter (λ transaction. identifiers_compatible transaction failed) same) found).0 in
      let (compatible, in_same) =
        filter_sound (λ transaction. identifiers_compatible transaction failed) baseline same
          there in
      let (target, in_earlier) =
        filter_sound (λ transaction. transaction.target_hash == failed.target_hash) baseline earlier
          in_same in
      let (before, in_success) =
        filter_sound (λ transaction. ltb (request_at transaction) (request_at failed)) baseline
          (filter is_success transactions) in_earlier in
      let (succeeds, was) = filter_sound is_success baseline transactions in_success in
      (
        was,
        succeeds,
        ground arith,
        (eq_iff baseline.target_hash failed.target_hash).0 target,
        compatible,
      )

  -- Each path of one of the two schemas is explained.
  abbrev pub AllExplained : TransactionReport → TransactionReport → Type 0
  AllExplained baseline failed =
      (path : String)
      → (is_some (find path (field_map baseline.schema))
          || is_some (find path (field_map failed.schema)))
        ≡ true
      → Explained (field_map baseline.schema) (field_map failed.schema) path

  compare_transactions_sound :
      (baseline failed : TransactionReport)
      → (compare_transactions baseline failed).supports_lossless_repair ≡ true
      → AllExplained baseline failed
  unfolding compare_transactions
  compare_transactions_sound baseline failed supported path present =
      schema_differences_lossless baseline.schema failed.schema path (&&-true _ _ supported).1
        present

  -- Evidence supports a repair only where the failed transaction nearest to the error has an earlier
  -- successful one to compare with, with the same target and compatible identifiers, and every path of
  -- the two schemas is explained.
  pub correlate_transactions_sound :
      (correlate_transactions reference window_ms transactions).supports_lossless_repair ≡ true
      → (failed : TransactionReport) × (baseline : TransactionReport) × IsNearestFailed failed
        × IsBaselineFor failed baseline
        × AllExplained baseline failed
  unfolding correlate_transactions
  correlate_transactions_sound supported =
      elim (Option-cases (find_failed reference window_ms transactions)) [
        | inl none_failed ↦
            absurd (Bool-apart (sym (rw (none_failed, correlate_transactions) at supported)))
        | inr (failed, found) ↦ elim (Option-cases (find_baseline failed transactions)) [
          | inl no_baseline ↦
              absurd
                (Bool-apart (sym (rw (found, no_baseline, correlate_transactions) at supported)))
          | inr (baseline, found_too) ↦ (
            failed,
            baseline,
            find_failed-IsNearestFailed failed found,
            find_baseline-IsBaselineFor failed baseline found_too,
            compare_transactions_sound baseline failed
                (rw (found, found_too, correlate_transactions) at supported),
          )
        ]
      ]
