-- ===== src/Fuzzer.antt =====
-- diffuzzer/src/fuzzing/fuzzer.rs: the loop of a fuzzer and what it does with the outcome of a test.
-- `World` is what the runner calls, over a state `W`; `X` is the part of the state that a fuzzer adds
-- and `Msg` its statistics. A report is kept as a value, and saving it may fail. `none` is an error or
-- a panic: the fuzzer stops at both.
pub mod Counters
pub mod Extra
use diffuzzer.Prelude.{
  ℕ, zero, suc, Bool, true, false, not, ◌&&◌, ◌||◌, Option, none, some, List, [], ◌∷◌, ◌++◌,
  if◌then◌else◌, is_empty, add64,
}
use diffuzzer.Operation.{Workload}
use diffuzzer.Trace.{errors}
use diffuzzer.Outcome.{
  DiffCompleted, DiffOutcome, diff_completed, first_timed_out, second_timed_out, first_panicked,
  second_panicked, any_interesting,
}
use diffuzzer.Fallible.{Step, ◌>>=◌, ◌>>◌, pure, ask, modify}

-- What is saved: in `accidents` if both traces have errors, in `crashes` otherwise.
pub data Report (C : Type 0) : Type 0 where
  accident difference : Workload → DiffCompleted C → Report C
  fs_panicked : Workload → List ℕ → Report C
  fs_timed_out : Workload → List ℕ → ℕ → Report C

pub record World (W C : Type 0) : Type 0 where
  pub compile_test : Workload → Step W (Unit {0})
  pub run_harness : Step W (DiffOutcome C)
  pub save : Report C → Step W (Unit {0})
  pub heartbeat_elapsed : W → Bool
  pub send : Step W (Unit {0})

pub record State (W C X Msg : Type 0) : Type 0 where
  pub world : W
  pub executions : ℕ
  pub crashes : ℕ
  pub reports : List (Report C)
  pub sent : List Msg
  pub extra : X

module _ {W C X Msg : Type 0} where
  -- A call of the world.
  unfoldable pub on_world : {A : Type 0} → Step W A → Step (State W C X Msg) A
  on_world m s = let (r, w) = m s.world in (r, record s { world = w })

  unfoldable pub add_report : Report C → State W C X Msg → State W C X Msg
  add_report r s = record s { reports = s.reports ++ (r ∷ []) }

  -- `crashes += 1` and `executions += 1`
  unfoldable pub count_crash : State W C X Msg → State W C X Msg
  count_crash s = record s { crashes = add64 s.crashes 1 }

  unfoldable pub count_execution : State W C X Msg → State W C X Msg
  count_execution s = record s { executions = add64 s.executions 1 }

module _ {W C X Msg : Type 0} (world : World W C) (stats : State W C X Msg → Msg) where
  unfoldable pub send_stats : Bool → Step (State W C X Msg) (Unit {0})
  send_stats lazy = do
    elapsed ← ask (λ s. some (world.heartbeat_elapsed s.world))
    if not lazy || elapsed
        then (do on_world world.send; modify (λ s. record s { sent = s.sent ++ (stats s ∷ []) }))
        else pure tt

  unfoldable pub report : Report C → Step (State W C X Msg) (Unit {0})
  report r = do on_world (world.save r); modify (add_report r)

  unfoldable pub report_crash : Report C → Step (State W C X Msg) (Unit {0})
  report_crash r = do report r; modify count_crash; send_stats false

  unfoldable pub do_objective : Workload → DiffCompleted C → Step (State W C X Msg) Bool
  do_objective input diff =
      if any_interesting diff
      then (do report (difference input diff); modify count_crash; send_stats false; pure true)
      else pure false

  unfoldable pub detect_errors : Workload → DiffCompleted C → Step (State W C X Msg) Bool
  detect_errors input diff =
      if not (is_empty (errors diff.fst_trace)) && not (is_empty (errors diff.snd_trace))
      then (do report (accident input diff); pure true)
      else pure false

  -- The arms of `fuzz_one`, which differ between the fuzzers in what follows a comparison only.
  unfoldable pub on_outcome :
      (DiffCompleted C → Step (State W C X Msg) (Unit {0}))
      → Workload
      → DiffOutcome C
      → Step (State W C X Msg) (Unit {0})
  on_outcome compared input (diff_completed diff) = do
    accident_found ← detect_errors input diff
    if accident_found then pure tt else (do
      difference_found ← do_objective input diff
      if difference_found then pure tt else compared diff)
  on_outcome compared input (first_panicked fs_name) = report_crash (fs_panicked input fs_name)
  on_outcome compared input (second_panicked fs_name) = report_crash (fs_panicked input fs_name)
  on_outcome compared input (first_timed_out fs_name timeout) =
      report_crash (fs_timed_out input fs_name timeout)
  on_outcome compared input (second_timed_out fs_name timeout) =
      report_crash (fs_timed_out input fs_name timeout)

  -- `fuzz_one`, once the input is made.
  unfoldable pub fuzz_input :
      (Workload → DiffCompleted C → Step (State W C X Msg) (Unit {0}))
      → Workload
      → Step (State W C X Msg) (Unit {0})
  fuzz_input compared input = do
    on_world (world.compile_test input)
    outcome ← on_world world.run_harness
    on_outcome (compared input) input outcome

  module _ (fuzz_one : Step (State W C X Msg) (Unit {0})) where
    unfoldable pub runs : Step (State W C X Msg) (Unit {0})
    runs = do fuzz_one; modify count_execution; send_stats true

    -- `run(Some(count))`, which is also the first `count` rounds of `run(None)`
    unfoldable pub run : ℕ → Step (State W C X Msg) (Unit {0})
    run zero = pure tt
    run (suc count) = do runs; run count
