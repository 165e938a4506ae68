-- ===== src/Blackbox/Totals.antt =====
-- blackbox/fuzzer.rs: the counters after a number of rounds.
use diffuzzer.Prelude.{ℕ, ◌+◌, ◌≡◌, subst, some, ap}
use diffuzzer.Operation.{OperationWeights}
use diffuzzer.Generator.Draws.{Random}
use diffuzzer.Fallible.{Ensures, Ensures-bind, Ensures-pure}
use diffuzzer.Fuzzer.{World, State}
use diffuzzer.Fuzzer.Counters.{Counts, fuzz_input-Counts, run-Counts}
use diffuzzer.Blackbox.Stats.{BlackBoxStats}
use diffuzzer.Blackbox.{make_input, fuzz_one, run_blackbox}

module _ {W C R : Type 0} (world : World W C) (random : Random R) (depth steps retries : ℕ)
    (max_workload_length : ℕ) (operation_weights : OperationWeights) where
  fuzz_one-Counts :
      (n : ℕ)
      → Ensures
          (Counts 0 n)
          (fuzz_one world random depth steps retries max_workload_length operation_weights)
          (λ _. Counts 0 n)
  unfolding fuzz_one make_input
  fuzz_one-Counts n =
      Ensures-bind _ (λ _. Counts 0 n) _ _ _
        (record {
          at = λ s s' a p e.
              subst (Counts 0 n) (ap (λ q. q.1) e)
                (record { crashes = p.crashes; executions = p.executions });
        })
        λ input.
          fuzz_input-Counts world _ n (λ _ diff. _) input (λ diff. Ensures-pure _ _ _ (λ s p. p))

  -- A run of the black-box fuzzer over `count` tests that ends without an error has counted one
  -- execution for each test and one crash for each report that is not an accident, modulo 2^64.
  run_blackbox-Counts :
      (n count : ℕ) (s s' : State W C R BlackBoxStats)
      → Counts 0 n s
      → run_blackbox world random depth steps retries max_workload_length operation_weights count s
        ≡ (some tt, s')
      → Counts 0 (n + count) s'
  unfolding run_blackbox
  run_blackbox-Counts n count s s' p e =
      (run-Counts world _ n count _ fuzz_one-Counts).at s s' tt p e
