-- ===== src/Outcome.antt =====
-- diffuzzer/src/fuzzing/outcome.rs: how a run of a test on two file systems ended. The output of a
-- run (`Completed`) is a parameter `C`.
use diffuzzer.Prelude.{ℕ, Bool, not, ◌||◌, List, is_empty}
use diffuzzer.Dash.{FileDiff}
use diffuzzer.Trace.{Trace, TraceDiff}

module _ (C : Type 0) where
  pub data Outcome : Type 0 where
    completed : C → Outcome
    timed_out panicked : Outcome

  pub record DiffCompleted : Type 0 where
    pub dash_diff : List FileDiff
    pub trace_diff : List TraceDiff
    pub fst_outcome : C
    pub snd_outcome : C
    pub fst_trace : Trace
    pub snd_trace : Trace

  pub data DiffOutcome : Type 0 where
    diff_completed : DiffCompleted → DiffOutcome
    first_timed_out second_timed_out : List ℕ → ℕ → DiffOutcome
    first_panicked second_panicked : List ℕ → DiffOutcome

module _ {C : Type 0} where
  unfoldable pub dash_interesting : DiffCompleted C → Bool
  dash_interesting d = not (is_empty d.dash_diff)

  unfoldable pub trace_interesting : DiffCompleted C → Bool
  trace_interesting d = not (is_empty d.trace_diff)

  unfoldable pub any_interesting : DiffCompleted C → Bool
  any_interesting d = dash_interesting d || trace_interesting d
