-- ===== src/Blackbox.antt =====
-- diffuzzer/src/fuzzing/blackbox/fuzzer.rs and the statistics of diffuzzer/src/fuzzing/broker.rs: the
-- fuzzer that makes each test anew.
pub mod Stats
pub mod Totals
use diffuzzer.Prelude.{ℕ, Option, none, some}
use diffuzzer.Operation.{OperationWeights, Workload}
use diffuzzer.Fs.State.{Result, ok, err, panic, overflow}
use diffuzzer.Outcome.{DiffCompleted}
use diffuzzer.Generator.Draws.{Random}
use diffuzzer.Generator.{generate_new}
use diffuzzer.Fallible.{Step, ◌>>=◌, ◌>>◌, pure}
use diffuzzer.Fuzzer.{World, State, fuzz_input, run}
use diffuzzer.Blackbox.Stats.{BlackBoxStats}

abbrev pub answer : {A : Type 0} → Result A → Option A
answer (ok a) = some a
answer (err e) = none
answer panic = none
answer overflow = none

module _ {W C R : Type 0} (world : World W C) (random : Random R) (depth steps retries : ℕ)
    (max_workload_length : ℕ) (operation_weights : OperationWeights) where
  -- What `send_stats` sends.
  unfoldable pub stats : State W C R BlackBoxStats → BlackBoxStats
  stats s = record { crashes = s.crashes; executions = s.executions }

  unfoldable pub make_input : Step (State W C R BlackBoxStats) Workload
  make_input s =
      let (r, rng) =
        generate_new random depth steps retries s.extra max_workload_length operation_weights in
      (answer r, record s { extra = rng })

  unfoldable pub fuzz_one : Step (State W C R BlackBoxStats) (Unit {0})
  fuzz_one = do input ← make_input; fuzz_input world stats (λ _ diff. pure tt) input

  -- `run(Some(count))`
  unfoldable pub run_blackbox : ℕ → Step (State W C R BlackBoxStats) (Unit {0})
  run_blackbox count = run world stats fuzz_one count
