-- ===== src/Fuzzer/Extra.antt =====
-- fuzzer.rs: what a fuzzer adds to the state is not changed by the reports and the counters.
use diffuzzer.Prelude.{ℕ, zero, suc, ap, subst, not, ◌&&◌, ◌||◌, Bool, true, false, is_empty}
use diffuzzer.Operation.{Workload}
use diffuzzer.Trace.{errors}
use diffuzzer.Outcome.{
  DiffCompleted, DiffOutcome, diff_completed, first_timed_out, second_timed_out, first_panicked,
  second_panicked, any_interesting,
}
use diffuzzer.Fallible.{
  Step, Ensures, Ensures-bind, Ensures-pure, Ensures-ask, Ensures-modify, Ensures-if,
}
use diffuzzer.Fuzzer.{
  Report, accident, difference, World, State, on_world, add_report, count_crash, count_execution,
  send_stats, report, report_crash, do_objective, detect_errors, on_outcome, fuzz_input, runs, run,
}

module _ {W C X Msg : Type 0} where
  -- `Q` holds of what the fuzzer adds.
  pub record Extra (Q : X → Type 0) (s : State W C X Msg) : Type 0 where
    pub holds : Q s.extra

  pub on_world-Extra :
      {A : Type 0} (Q : X → Type 0) (m : Step W A) → Ensures (Extra Q) (on_world m) (λ _. Extra Q)
  unfolding on_world
  on_world-Extra Q m = record {
    at = λ s s' a p e. subst (Extra Q) (ap (λ q. q.1) e) (record { holds = p.holds });
  }

module _ {W C X Msg : Type 0} (world : World W C) (stats : State W C X Msg → Msg)
    (Q : X → Type 0) where
  pub send_stats-Extra :
      (lazy : Bool) → Ensures (Extra Q) (send_stats world stats lazy) (λ _. Extra Q)
  unfolding send_stats
  send_stats-Extra lazy =
      Ensures-bind _ (λ _. Extra Q) _ _ _ (Ensures-ask _ _)
        λ elapsed.
          Ensures-if _ _ (not lazy || elapsed) _ _
            (Ensures-bind _ (λ _. Extra Q) _ _ _ (on_world-Extra Q world.send)
              λ _. Ensures-modify _ _ _ (λ s p. record { holds = p.holds }))
            (Ensures-pure _ _ _ (λ s p. p))

  report-Extra : (r : Report C) → Ensures (Extra Q) (report world stats r) (λ _. Extra Q)
  unfolding report add_report
  report-Extra r =
      Ensures-bind _ (λ _. Extra Q) _ _ _ (on_world-Extra Q (world.save r))
        λ _. Ensures-modify _ _ _ (λ s p. record { holds = p.holds })

  report_crash-Extra :
      (r : Report C) → Ensures (Extra Q) (report_crash world stats r) (λ _. Extra Q)
  unfolding report_crash count_crash
  report_crash-Extra r =
      Ensures-bind _ (λ _. Extra Q) _ _ _ (report-Extra r)
        λ _.
          Ensures-bind _ (λ _. Extra Q) _ _ _
            (Ensures-modify _ _ _ (λ s p. record { holds = p.holds })) λ _. send_stats-Extra false

  do_objective-Extra :
      (input : Workload) (diff : DiffCompleted C)
      → Ensures (Extra Q) (do_objective world stats input diff) (λ _. Extra Q)
  unfolding do_objective count_crash
  do_objective-Extra input diff =
      Ensures-if _ _ (any_interesting diff) _ _
        (Ensures-bind _ (λ _. Extra Q) _ _ _ (report-Extra (difference input diff))
          λ _.
            Ensures-bind _ (λ _. Extra Q) _ _ _
              (Ensures-modify _ _ _ (λ s p. record { holds = p.holds }))
              λ _.
                Ensures-bind _ (λ _. Extra Q) _ _ _ (send_stats-Extra false)
                  λ _. Ensures-pure _ _ _ (λ s p. p))
        (Ensures-pure _ _ _ (λ s p. p))

  detect_errors-Extra :
      (input : Workload) (diff : DiffCompleted C)
      → Ensures (Extra Q) (detect_errors world stats input diff) (λ _. Extra Q)
  unfolding detect_errors
  detect_errors-Extra input diff =
      Ensures-if _ _
        (not (is_empty (errors diff.fst_trace)) && not (is_empty (errors diff.snd_trace))) _ _
        (Ensures-bind _ (λ _. Extra Q) _ _ _ (report-Extra (accident input diff))
          λ _. Ensures-pure _ _ _ (λ s p. p))
        (Ensures-pure _ _ _ (λ s p. p))

  on_outcome-Extra :
      (compared : DiffCompleted C → Step (State W C X Msg) (Unit {0})) (input : Workload)
      (o : DiffOutcome C)
      → ((diff : DiffCompleted C) → Ensures (Extra Q) (compared diff) (λ _. Extra Q))
      → Ensures (Extra Q) (on_outcome world stats compared input o) (λ _. Extra Q)
  unfolding on_outcome
  on_outcome-Extra compared input (diff_completed diff) h =
      Ensures-bind _ (λ _. Extra Q) _ _ _ (detect_errors-Extra input diff)
        λ accident_found. Ensures-if _ _ accident_found _ _ (Ensures-pure _ _ _ (λ s p. p)) (
          Ensures-bind _ (λ _. Extra Q) _ _ _ (do_objective-Extra input diff)
            λ difference_found.
              Ensures-if _ _ difference_found _ _ (Ensures-pure _ _ _ (λ s p. p)) (h diff))
  on_outcome-Extra compared input (first_panicked fs_name) h = report_crash-Extra _
  on_outcome-Extra compared input (second_panicked fs_name) h = report_crash-Extra _
  on_outcome-Extra compared input (first_timed_out fs_name timeout) h = report_crash-Extra _
  on_outcome-Extra compared input (second_timed_out fs_name timeout) h = report_crash-Extra _

  pub fuzz_input-Extra :
      (compared : Workload → DiffCompleted C → Step (State W C X Msg) (Unit {0})) (input : Workload)
      → ((diff : DiffCompleted C) → Ensures (Extra Q) (compared input diff) (λ _. Extra Q))
      → Ensures (Extra Q) (fuzz_input world stats compared input) (λ _. Extra Q)
  unfolding fuzz_input
  fuzz_input-Extra compared input h =
      Ensures-bind _ (λ _. Extra Q) _ _ _ (on_world-Extra Q (world.compile_test input))
        λ _.
          Ensures-bind _ (λ _. Extra Q) _ _ _ (on_world-Extra Q world.run_harness)
            λ o. on_outcome-Extra (compared input) input o h

  pub run-Extra :
      (count : ℕ) (fuzz_one : Step (State W C X Msg) (Unit {0}))
      → Ensures (Extra Q) fuzz_one (λ _. Extra Q)
      → Ensures (Extra Q) (run world stats fuzz_one count) (λ _. Extra Q)
  unfolding run runs count_execution
  run-Extra zero fuzz_one h = Ensures-pure _ _ _ (λ s p. p)
  run-Extra (suc count) fuzz_one h =
      Ensures-bind _ (λ _. Extra Q) _ _ _
        (Ensures-bind _ (λ _. Extra Q) _ _ _ h
          λ _.
            Ensures-bind _ (λ _. Extra Q) _ _ _
              (Ensures-modify _ _ _ (λ s p. record { holds = p.holds })) λ _. send_stats-Extra true)
        λ _. run-Extra count fuzz_one h
