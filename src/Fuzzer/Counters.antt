-- ===== src/Fuzzer/Counters.antt =====
-- fuzzer.rs: the counters of a fuzzer and its reports.
use Prim.Native.Nat.{◌%◌}
use diffuzzer.Prelude.{
  ℕ, zero, suc, ◌+◌, ◌≡◌, refl, ap, Bool, true, false, not, ◌&&◌, ◌||◌, List, [], ◌∷◌, ◌++◌, arith,
  add64, u64_mod, subst, is_empty,
}
use diffuzzer.Operation.{Workload}
use diffuzzer.Trace.{errors}
use diffuzzer.Outcome.{
  DiffCompleted, DiffOutcome, diff_completed, first_timed_out, second_timed_out, first_panicked,
  second_panicked, any_interesting,
}
use diffuzzer.Fallible.{
  Step, ◌>>=◌, pure, modify, Ensures, Ensures-bind, Ensures-pure, Ensures-ask, Ensures-modify,
  Ensures-if,
}
use diffuzzer.Fuzzer.{
  Report, accident, difference, fs_panicked, fs_timed_out, World, State, on_world, add_report,
  count_crash, count_execution, send_stats, report, report_crash, do_objective, detect_errors,
  on_outcome, fuzz_input, runs, run,
}

-- 1 for a crash, 0 for an accident
abbrev pub crash : {C : Type 0} → Report C → ℕ
crash (accident input diff) = 0
crash (difference input diff) = 1
crash (fs_panicked input fs_name) = 1
crash (fs_timed_out input fs_name timeout) = 1

abbrev pub crashes_in : {C : Type 0} → List (Report C) → ℕ
crashes_in [] = 0
crashes_in (r ∷ rs) = crash r + crashes_in rs

crashes_in-append :
    {C : Type 0} (rs ts : List (Report C)) → crashes_in (rs ++ ts) ≡ crashes_in rs + crashes_in ts
crashes_in-append [] ts = omega arith
crashes_in-append (r ∷ rs) ts = omega (arith, crashes_in-append rs ts)

module _ {W C X Msg : Type 0} where
  -- With `k` crashes that are reported but not yet counted, and `n` executions.
  pub record Counts (k n : ℕ) (s : State W C X Msg) : Type 0 where
    pub crashes : (s.crashes + k) % u64_mod ≡ crashes_in s.reports % u64_mod
    pub executions : s.executions ≡ n % u64_mod

  pub on_world-Counts :
      {A : Type 0} (k n : ℕ) (m : Step W A) → Ensures (Counts k n) (on_world m) (λ _. Counts k n)
  unfolding on_world
  on_world-Counts k n m = record {
    at = λ s s' a p e.
        subst (Counts k n) (ap (λ q. q.1) e)
          (record { crashes = p.crashes; executions = p.executions });
  }

module _ {W C X Msg : Type 0} (world : World W C) (stats : State W C X Msg → Msg) where
  pub send_stats-Counts :
      (n : ℕ) (lazy : Bool) → Ensures (Counts 0 n) (send_stats world stats lazy) (λ _. Counts 0 n)
  unfolding send_stats
  send_stats-Counts n lazy =
      Ensures-bind _ (λ _. Counts 0 n) _ _ _ (Ensures-ask _ _)
        λ elapsed.
          Ensures-if _ _ (not lazy || elapsed) _ _
            (Ensures-bind _ (λ _. Counts 0 n) _ _ _ (on_world-Counts 0 n world.send)
              λ _.
                Ensures-modify _ _ _
                  (λ s p. record { crashes = p.crashes; executions = p.executions }))
            (Ensures-pure _ _ _ (λ s p. p))

  report-Counts :
      (n : ℕ) (r : Report C) → Ensures (Counts 0 n) (report world stats r) (λ _. Counts (crash r) n)
  unfolding report add_report
  report-Counts n r =
      Ensures-bind _ (λ _. Counts 0 n) _ _ _ (on_world-Counts 0 n (world.save r))
        λ _. Ensures-modify _ _ _ λ s p. record {
          crashes = omega (arith, p.crashes, crashes_in-append s.reports (r ∷ []));
          executions = p.executions;
        }

  count_crash-Counts :
      (n : ℕ)
      → Ensures
          (Counts 1 n)
          (modify (count_crash {W = W} {C = C} {X = X} {Msg = Msg}))
          (λ _. Counts 0 n)
  unfolding count_crash add64
  count_crash-Counts n =
      Ensures-modify _ _ _
        λ s p. record { crashes = omega (arith, p.crashes); executions = p.executions }

  -- A crash: saved, counted, and told.
  crash-Counts :
      {A : Type 0} (n : ℕ) (r : Report C) (a : A)
      → crash r ≡ 1
      → Ensures
          (Counts 0 n)
          (report world stats r >>= λ _.
            modify count_crash >>= λ _. send_stats world stats false >>= λ _. pure a)
          (λ _. Counts 0 n)
  crash-Counts n r a e =
      Ensures-bind _ (λ _. Counts 1 n) _ _ _
        (subst (λ k. Ensures (Counts 0 n) (report world stats r) (λ _. Counts k n)) e
          (report-Counts n r))
        λ _.
          Ensures-bind _ (λ _. Counts 0 n) _ _ _ (count_crash-Counts n)
            λ _.
              Ensures-bind _ (λ _. Counts 0 n) _ _ _ (send_stats-Counts n false)
                λ _. Ensures-pure _ _ _ (λ s p. p)

  report_crash-Counts :
      (n : ℕ) (r : Report C)
      → crash r ≡ 1
      → Ensures (Counts 0 n) (report_crash world stats r) (λ _. Counts 0 n)
  unfolding report_crash
  report_crash-Counts n r e =
      Ensures-bind _ (λ _. Counts 1 n) _ _ _
        (subst (λ k. Ensures (Counts 0 n) (report world stats r) (λ _. Counts k n)) e
          (report-Counts n r))
        λ _.
          Ensures-bind _ (λ _. Counts 0 n) _ _ _ (count_crash-Counts n)
            λ _. send_stats-Counts n false

  do_objective-Counts :
      (n : ℕ) (input : Workload) (diff : DiffCompleted C)
      → Ensures (Counts 0 n) (do_objective world stats input diff) (λ _. Counts 0 n)
  unfolding do_objective
  do_objective-Counts n input diff =
      Ensures-if _ _ (any_interesting diff) _ _ (crash-Counts n (difference input diff) true refl)
        (Ensures-pure _ _ _ (λ s p. p))

  detect_errors-Counts :
      (n : ℕ) (input : Workload) (diff : DiffCompleted C)
      → Ensures (Counts 0 n) (detect_errors world stats input diff) (λ _. Counts 0 n)
  unfolding detect_errors
  detect_errors-Counts n input diff =
      Ensures-if _ _
        (not (is_empty (errors diff.fst_trace)) && not (is_empty (errors diff.snd_trace))) _ _
        (Ensures-bind _ (λ _. Counts 0 n) _ _ _ (report-Counts n (accident input diff))
          λ _. Ensures-pure _ _ _ (λ s p. p))
        (Ensures-pure _ _ _ (λ s p. p))

  on_outcome-Counts :
      (n : ℕ) (compared : DiffCompleted C → Step (State W C X Msg) (Unit {0})) (input : Workload)
      (o : DiffOutcome C)
      → ((diff : DiffCompleted C) → Ensures (Counts 0 n) (compared diff) (λ _. Counts 0 n))
      → Ensures (Counts 0 n) (on_outcome world stats compared input o) (λ _. Counts 0 n)
  unfolding on_outcome
  on_outcome-Counts n compared input (diff_completed diff) h =
      Ensures-bind _ (λ _. Counts 0 n) _ _ _ (detect_errors-Counts n input diff)
        λ accident_found. Ensures-if _ _ accident_found _ _ (Ensures-pure _ _ _ (λ s p. p)) (
          Ensures-bind _ (λ _. Counts 0 n) _ _ _ (do_objective-Counts n input diff)
            λ difference_found.
              Ensures-if _ _ difference_found _ _ (Ensures-pure _ _ _ (λ s p. p)) (h diff))
  on_outcome-Counts n compared input (first_panicked fs_name) h =
      report_crash-Counts n (fs_panicked input fs_name) refl
  on_outcome-Counts n compared input (second_panicked fs_name) h =
      report_crash-Counts n (fs_panicked input fs_name) refl
  on_outcome-Counts n compared input (first_timed_out fs_name timeout) h =
      report_crash-Counts n (fs_timed_out input fs_name timeout) refl
  on_outcome-Counts n compared input (second_timed_out fs_name timeout) h =
      report_crash-Counts n (fs_timed_out input fs_name timeout) refl

  pub fuzz_input-Counts :
      (n : ℕ) (compared : Workload → DiffCompleted C → Step (State W C X Msg) (Unit {0}))
      (input : Workload)
      → ((diff : DiffCompleted C) → Ensures (Counts 0 n) (compared input diff) (λ _. Counts 0 n))
      → Ensures (Counts 0 n) (fuzz_input world stats compared input) (λ _. Counts 0 n)
  unfolding fuzz_input
  fuzz_input-Counts n compared input h =
      Ensures-bind _ (λ _. Counts 0 n) _ _ _ (on_world-Counts 0 n (world.compile_test input))
        λ _.
          Ensures-bind _ (λ _. Counts 0 n) _ _ _ (on_world-Counts 0 n world.run_harness)
            λ o. on_outcome-Counts n (compared input) input o h

  runs-Counts :
      (n : ℕ) (fuzz_one : Step (State W C X Msg) (Unit {0}))
      → Ensures (Counts 0 n) fuzz_one (λ _. Counts 0 n)
      → Ensures (Counts 0 n) (runs world stats fuzz_one) (λ _. Counts 0 (suc n))
  unfolding runs count_execution add64
  runs-Counts n fuzz_one h =
      Ensures-bind _ (λ _. Counts 0 n) _ _ _ h
        λ _.
          Ensures-bind _ (λ _. Counts 0 (suc n)) _ _ _
            (Ensures-modify _ _ _
              λ s p. record { crashes = p.crashes; executions = omega (arith, p.executions) })
            λ _. send_stats-Counts (suc n) true

  pub run-Counts :
      (n count : ℕ) (fuzz_one : Step (State W C X Msg) (Unit {0}))
      → ((n : ℕ) → Ensures (Counts 0 n) fuzz_one (λ _. Counts 0 n))
      → Ensures (Counts 0 n) (run world stats fuzz_one count) (λ _. Counts 0 (n + count))
  unfolding run
  run-Counts n zero fuzz_one h =
      let sum : n ≡ n + 0 = omega arith in
      Ensures-pure _ _ _ (λ s p. subst (λ k. Counts 0 k s) sum p)
  run-Counts n (suc count) fuzz_one h =
      let sum : suc n + count ≡ n + suc count = omega arith in
      Ensures-bind _ (λ _. Counts 0 (suc n)) _ _ _ (runs-Counts n fuzz_one (h n))
        λ _.
          subst (λ k. Ensures (Counts 0 (suc n)) (run world stats fuzz_one count) (λ _. Counts 0 k))
            sum (run-Counts (suc n) count fuzz_one h)
