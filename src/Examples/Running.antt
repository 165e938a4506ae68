-- ===== src/Examples/Running.antt =====
-- The harness, the events of the virtual machine and the fuzzers.
use diffuzzer.Prelude.{
  ℕ, suc, ◌+◌, ◌≡◌, ◌↔◌, refl, true, false, Option, some, [], ◌∷◌, ◌++◌, codes, arith, length, sort,
  All, ltb, add64,
}
use diffuzzer.PathName.{
  split, rfind, join, segments, is_valid, is_root, text_eq, parts, ends_with_slash,
}
use diffuzzer.Text.{digits}
use diffuzzer.Operation.{Operation, Workload, kind_of, push, uniform, same_kind}
use diffuzzer.Node.Children
use diffuzzer.Fs.State
use diffuzzer.Fs.Resolve
use diffuzzer.Fs.Ops
use diffuzzer.Fs.Replay.{step, replay}
use diffuzzer.Fs.Alive
use diffuzzer.Generator
use diffuzzer.Generator.{append_one, generate_new}
use diffuzzer.Generator.Draws
use diffuzzer.Generator.Weights.{Weighted}
use diffuzzer.Outcome.{
  Outcome, completed, DiffCompleted, diff_completed, first_panicked, any_interesting,
  dash_interesting, trace_interesting,
}
use diffuzzer.Trace.{errors}
use diffuzzer.Coverage
use diffuzzer.Coverage.{Seed, CoverageMap}
use diffuzzer.Fallible
use diffuzzer.Harness
use diffuzzer.Harness.{Call, Environment, output, run}
use diffuzzer.Harness.Calls.{calls_of, run-calls_of}
use diffuzzer.Supervisor.{Channel, had_panic_event, reset, waiting, ok}
use diffuzzer.Supervisor.Events.{Ends, had_panic_event-Ends, reset-had_panic_event}
use diffuzzer.Fuzzer
use diffuzzer.Fuzzer.{World, State as FuzzerState, fs_panicked}
use diffuzzer.Fuzzer.Counters.{Counts}
use diffuzzer.Blackbox
use diffuzzer.Blackbox.{run_blackbox}
use diffuzzer.Blackbox.Stats.{BlackBoxStats, no_coverage, kcov}
use diffuzzer.Mutator
use diffuzzer.Mutator.Kind
use diffuzzer.Mutator.Kind.{MutationKind}
use diffuzzer.Greybox.Mutate
use diffuzzer.Greybox.Mutate.{Settings}
use diffuzzer.Greybox.Fuzz
use diffuzzer.Greybox.Fuzz.{Grey, Fuzzing, new_grey, all_weighted, run_greybox}
use diffuzzer.Greybox.Totals.{run_greybox-Counts}
use diffuzzer.Greybox.Corpus.{Short, run_greybox-Short}
use diffuzzer.Greybox.Initial.{all_weighted_iff}
use diffuzzer.Examples.Generating.{least, least-RandomLaws}

-- All goes well and the test prints `0`.
abbrev quiet : Environment
quiet = record {
  succeeds = λ h. true;
  executed = λ h. output (codes "0") [];
  had_panic = λ h. false;
  is_utf8 = λ text. true;
}

abbrev printed : Outcome Harness.Completed
printed = completed (record { stdout = codes "0"; stderr = [] })

quiet-run : run quiet false 1 [] ≡ (some printed, calls_of false 1 printed)
unfolding run Harness.finish Harness.call Harness.call_quietly Harness.each Harness.each_quietly
    Harness.exec_in_dir Harness.ask_panic_event Harness.from_utf8 Fallible.◌>>=◌ Fallible.pure
quiet-run = refl

run-calls_of_example : calls_of false 1 printed ≡ [] ++ calls_of false 1 printed
run-calls_of_example = run-calls_of quiet false 1 [] (calls_of false 1 printed) printed quiet-run

-- One message waits and two come in before the next poll.
abbrev three_events : Channel
three_events = record { pending = 1; arrivals = 2 ∷ []; connected = true }

had_panic_event-Ends_example :
    Ends (ltb 0 (waiting 1 (2 ∷ []))) three_events (had_panic_event three_events)
had_panic_event-Ends_example = had_panic_event-Ends three_events

reset-had_panic_event_example :
    ((reset three_events).0 ≡ ok tt)
    × ((had_panic_event (record (reset three_events).1 {
      pending = (reset three_events).1.pending + 2;
      arrivals = [];
    })).0
        ≡ ok (ltb 0 2))
reset-had_panic_event_example = reset-had_panic_event three_events 2 refl

-- The first file system panics on each test.
abbrev panicking : World ℕ ℕ
panicking = record {
  compile_test = λ w n. (some tt, n);
  run_harness = λ n. (some (first_panicked (codes "a")), suc n);
  save = λ r n. (some tt, n);
  heartbeat_elapsed = λ n. false;
  send = λ n. (some tt, n);
}

abbrev fresh : FuzzerState ℕ ℕ ℕ BlackBoxStats
fresh = record { world = 0; executions = 0; crashes = 0; reports = []; sent = []; extra = 0 }

abbrev one_file : Workload
one_file = Operation.create (codes "/0") Generator.mode ∷ []

abbrev after_one : FuzzerState ℕ ℕ ℕ BlackBoxStats
after_one = record {
  world = 1;
  executions = 1;
  crashes = 1;
  reports = fs_panicked one_file (codes "a") ∷ [];
  sent = record { crashes = 1; executions = 0 } ∷ [];
  extra = 2;
}

ran_blackbox : run_blackbox panicking least 2 5 3 1 uniform 1 fresh ≡ (some tt, after_one)
unfolding run_blackbox Blackbox.fuzz_one Blackbox.make_input Blackbox.stats generate_new Fuzzer.run
    Fuzzer.runs Fuzzer.fuzz_input Fuzzer.on_outcome Fuzzer.report_crash Fuzzer.report
    Fuzzer.send_stats Fuzzer.on_world Fuzzer.add_report Fuzzer.count_crash Fuzzer.count_execution
    add64 Fallible.◌>>=◌ Fallible.pure Fallible.ask Fallible.modify digits join uniform same_kind
    kind_of sort Alive.alive Alive.follow_times Alive.alive_follow_once Alive.drain Alive.visit
    Alive.visit_children Alive.followed Alive.entry_le Alive.text_le Generator.append_times
    append_one Generator.apply_kind Generator.new_path_in Generator.applicable Generator.drop_if
    Generator.drop_kind Generator.targets_of Generator.closed_files_of Generator.open_files_of
    Draws.choose Draws.choose_weighted Draws.name Draws.run Draws.ask Draws.pure Draws.◌>>=◌ replay
    step Ops.create Ops.mkdir Ops.push_dir Ops.push_file Ops.parent_of Ops.name_exists State.file
    State.raise State.◌>>=◌ split rfind Resolve.as_dir Resolve.resolve_dir Resolve.resolve_node
    Resolve.resolve_node_rec is_valid ends_with_slash is_root text_eq Resolve.walk Resolve.enter
    segments parts Resolve.follow State.dir State.dir_mut State.modify State.pure State.query
    State.record_op Children.contains_key Children.get Children.insert push
ran_blackbox = refl

-- Two runs with the same empty trace, and no other output.
abbrev nothing_found : DiffCompleted ℕ
nothing_found = record {
  dash_diff = [];
  trace_diff = [];
  fst_outcome = 0;
  snd_outcome = 0;
  fst_trace = [];
  snd_trace = [];
}

abbrev agreeing : World ℕ ℕ
agreeing = record {
  compile_test = λ w n. (some tt, n);
  run_harness = λ n. (some (diff_completed nothing_found), suc n);
  save = λ r n. (some tt, n);
  heartbeat_elapsed = λ n. true;
  send = λ n. (some tt, n);
}

-- Each run covers one new address.
abbrev covered : ℕ → ℕ → Option CoverageMap
covered n c = some ((n, 1) ∷ [])

abbrev settings : Settings
settings = record {
  operation_weights = uniform;
  mutation_weights = (MutationKind.insert, 1) ∷ (MutationKind.remove, 1) ∷ [];
  max_length = 1;
  max_mutations = 1;
}

abbrev started : Fuzzing ℕ ℕ ℕ
started = record {
  world = 0;
  executions = 0;
  crashes = 0;
  reports = [];
  sent = [];
  extra = new_grey 0 [] kcov no_coverage;
}

abbrev ended : Fuzzing ℕ ℕ ℕ
ended =
    (run_greybox agreeing (λ w d n. (some tt, n)) covered covered true least 2 5 3 4 settings 1
      started).1

ran_greybox :
    run_greybox agreeing
      (λ w d n. (some tt, n))
      covered
      covered
      true
      least
      2
      5
      3
      4
      settings
      1
      started
    ≡ (some tt, ended)
unfolding run_greybox Fuzz.fuzz_one Fuzz.pick_input Fuzz.compared Fuzz.fst_opinion Fuzz.snd_opinion
    Fuzz.opinion_by Fuzz.add_to_corpus Fuzz.stats new_grey Coverage.choose Coverage.reset_index
    Coverage.opinion Coverage.count_keys Coverage.keys Coverage.get Coverage.insert Coverage.get_or
    Coverage.opinion_of Coverage.is_interesting Coverage.coverage Coverage.new_seed Fuzzer.run
    Fuzzer.runs Fuzzer.fuzz_input Fuzzer.on_outcome Fuzzer.detect_errors Fuzzer.do_objective
    Fuzzer.report Fuzzer.send_stats Fuzzer.on_world Fuzzer.count_execution errors any_interesting
    dash_interesting trace_interesting Mutate.mutate Mutate.mutate_loop Mutate.mutate_once
    Mutate.applicable Mutate.drop_if Kind.same_kind Mutator.insert Mutator.gen_name
    Mutator.unused_name Mutator.is_used Mutator.used_names Mutator.names_of add64 Fallible.◌>>=◌
    Fallible.pure Fallible.ask Fallible.modify digits join uniform same_kind kind_of sort
    Alive.alive Alive.follow_times Alive.alive_follow_once Alive.drain Alive.visit
    Alive.visit_children Alive.followed Alive.entry_le Alive.text_le Generator.append_times
    append_one Generator.apply_kind Generator.new_path_in Generator.applicable Generator.drop_if
    Generator.drop_kind Generator.targets_of Generator.closed_files_of Generator.open_files_of
    Draws.choose Draws.choose_weighted Draws.name Draws.run Draws.ask Draws.pure Draws.◌>>=◌ replay
    step Ops.create Ops.mkdir Ops.push_dir Ops.push_file Ops.parent_of Ops.name_exists State.file
    State.raise State.◌>>=◌ split rfind Resolve.as_dir Resolve.resolve_dir Resolve.resolve_node
    Resolve.resolve_node_rec is_valid ends_with_slash is_root text_eq Resolve.walk Resolve.enter
    segments parts Resolve.follow State.dir State.dir_mut State.modify State.pure State.query
    State.record_op Children.contains_key Children.get Children.insert push
ran_greybox = refl

run_greybox-Counts_example : Counts 0 (0 + 1) ended
run_greybox-Counts_example =
    run_greybox-Counts agreeing (λ w d n. (some tt, n)) covered covered true least 2 5 3 4 settings
      0 1 started ended (record { crashes = refl; executions = omega arith }) ran_greybox

started-Short : Short 1 started.extra
unfolding new_grey Coverage.new_seed
started-Short = record { initial = tt; seeds = (omega arith, tt); some_seed = omega arith }

run_greybox-Short_example : Short 1 ended.extra
run_greybox-Short_example =
    run_greybox-Short agreeing (λ w d n. (some tt, n)) covered covered true 1 least least-RandomLaws
      2 5 3 4 settings 1 started ended (omega arith) started-Short ran_greybox

-- The run found a new seed.
two_seeds : length ended.extra.corpus ≡ 2
unfolding run_greybox Fuzz.fuzz_one Fuzz.pick_input Fuzz.compared Fuzz.fst_opinion Fuzz.snd_opinion
    Fuzz.opinion_by Fuzz.add_to_corpus Fuzz.stats new_grey Coverage.choose Coverage.reset_index
    Coverage.opinion Coverage.count_keys Coverage.keys Coverage.get Coverage.insert Coverage.get_or
    Coverage.opinion_of Coverage.is_interesting Coverage.coverage Coverage.new_seed Fuzzer.run
    Fuzzer.runs Fuzzer.fuzz_input Fuzzer.on_outcome Fuzzer.detect_errors Fuzzer.do_objective
    Fuzzer.report Fuzzer.send_stats Fuzzer.on_world Fuzzer.count_execution errors any_interesting
    dash_interesting trace_interesting Mutate.mutate Mutate.mutate_loop Mutate.mutate_once
    Mutate.applicable Mutate.drop_if Kind.same_kind Mutator.insert Mutator.gen_name
    Mutator.unused_name Mutator.is_used Mutator.used_names Mutator.names_of add64 Fallible.◌>>=◌
    Fallible.pure Fallible.ask Fallible.modify digits join uniform same_kind kind_of sort
    Alive.alive Alive.follow_times Alive.alive_follow_once Alive.drain Alive.visit
    Alive.visit_children Alive.followed Alive.entry_le Alive.text_le Generator.append_times
    append_one Generator.apply_kind Generator.new_path_in Generator.applicable Generator.drop_if
    Generator.drop_kind Generator.targets_of Generator.closed_files_of Generator.open_files_of
    Draws.choose Draws.choose_weighted Draws.name Draws.run Draws.ask Draws.pure Draws.◌>>=◌ replay
    step Ops.create Ops.mkdir Ops.push_dir Ops.push_file Ops.parent_of Ops.name_exists State.file
    State.raise State.◌>>=◌ split rfind Resolve.as_dir Resolve.resolve_dir Resolve.resolve_node
    Resolve.resolve_node_rec is_valid ends_with_slash is_root text_eq Resolve.walk Resolve.enter
    segments parts Resolve.follow State.dir State.dir_mut State.modify State.pure State.query
    State.record_op Children.contains_key Children.get Children.insert push
two_seeds = refl

all_weighted_iff_example :
    (all_weighted uniform one_file ≡ true) ↔ All (λ op. Weighted uniform (kind_of op)) one_file
all_weighted_iff_example = all_weighted_iff uniform one_file
