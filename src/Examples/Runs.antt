-- ===== src/Examples/Runs.antt =====
-- One test on two file systems, with the calls of both harnesses.
use diffuzzer.Prelude.{◌≡◌, refl, true, false, [], codes}
use diffuzzer.Outcome.{DiffOutcome, second_panicked}
use diffuzzer.Fallible
use diffuzzer.Harness
use diffuzzer.Harness.{Environment, output, timed_out_after}
use diffuzzer.Runner
use diffuzzer.Runner.{Result}
use diffuzzer.Runner.Events
use diffuzzer.Runner.Events.{Machine, Ran, run_both, events_of}
use diffuzzer.Runner.Order.{run_harness-Ran}

-- The test prints `0`.
abbrev fine : Environment
fine = record {
  succeeds = λ h. true;
  executed = λ h. output (codes "0") [];
  had_panic = λ h. false;
  is_utf8 = λ text. true;
}

-- The system does not answer, since it panicked.
abbrev broken : Environment
broken = record fine { executed = λ h. timed_out_after; had_panic = λ h. true }

abbrev machine : Machine
machine = record {
  fst_env = λ w. fine;
  snd_env = λ w. broken;
  loads = λ w. true;
  compare = λ w c c'. Result.err;
  fst_fs_name = codes "ext4";
  snd_fs_name = codes "xfs";
  timeout = 10;
  keep_fs = false;
  fst_observers = 1;
  snd_observers = 2;
}

abbrev xfs_panicked : DiffOutcome Harness.Completed
xfs_panicked = second_panicked (codes "xfs")

ran_second : run_both machine [] ≡ (Result.ok xfs_panicked, events_of machine xfs_panicked)
unfolding Runner.run_harness Runner.first Runner.second Runner.after_snapshot Events.harness_on
    Events.snapshot Harness.run Harness.finish Harness.call Harness.call_quietly Harness.each
    Harness.each_quietly Harness.exec_in_dir Harness.ask_panic_event Harness.from_utf8
    Fallible.◌>>=◌ Fallible.pure
ran_second = refl

run_harness-Ran_example : Ran machine [] (events_of machine xfs_panicked) xfs_panicked
run_harness-Ran_example =
    run_harness-Ran machine [] (events_of machine xfs_panicked) xfs_panicked ran_second
