-- ===== src/Runner.antt =====
-- diffuzzer/src/fuzzing/runner.rs and objective/dash.rs: one test on two file systems, and the
-- comparison of what they did. What the runner calls outside of itself is a parameter: `W` is the
-- state of the machine, `fst_harness` and `snd_harness` run the test on it, `load_snapshot` puts it
-- back. `none` is an error.
pub mod Interesting
pub mod Events
pub mod Order
use diffuzzer.Prelude.{
  ℕ, Bool, true, false, not, Option, none, some, List, [], ◌∷◌, if◌then◌else◌, ◌==◌, length, ◌+◌,
}
use diffuzzer.Dash
use diffuzzer.Dash.{FileInfo, FileDiff, HasherOptions, Written}
use diffuzzer.Trace
use diffuzzer.Trace.{Trace, try_parse, Parsed}
use diffuzzer.Outcome.{
  Outcome, completed, timed_out, panicked, DiffCompleted, DiffOutcome, diff_completed,
  first_timed_out, second_timed_out, first_panicked, second_panicked,
}

-- What a `DashObserver` has seen: the hash, the files and the paths inside to skip.
pub record DashObserver : Type 0 where
  pub hash : ℕ
  pub fs_state : List FileInfo
  pub fs_internal : List ℕ → Bool

-- `HasherOptions::default()`
abbrev pub default_options : HasherOptions
default_options = record { size = false; file_nlink = false; dir_nlink = false; mode = false }

unfoldable pub is_interesting : Bool → DashObserver → DashObserver → Bool
is_interesting enabled fst snd = if enabled then not (fst.hash == snd.hash) else false

-- `DashObjective::diff`; the fuel is enough for its loop.
unfoldable pub dash_diff :
    (List Written → ℕ) → DashObserver → DashObserver → Dash.Outcome (List FileDiff)
dash_diff finish fst snd =
    Dash.get_diff finish default_options fst.fs_state snd.fs_state fst.fs_internal snd.fs_internal
      (length fst.fs_state + length snd.fs_state)

-- An answer, an error, a panic, or no fuel left.
pub data Result {ℓ} (A : Type ℓ) : Type ℓ where
  ok : A → Result A
  err panic no_fuel : Result A

abbrev pub of_parsed : {A : Type 0} → Parsed A → Result A
of_parsed (Parsed.ok a) = ok a
of_parsed (Parsed.err e) = err

abbrev pub of_outcome : {A : Type 0} → Dash.Outcome A → Result A
of_outcome (Dash.Outcome.done a) = ok a
of_outcome Dash.Outcome.panic = panic
of_outcome Dash.Outcome.no_fuel = no_fuel

infixl 5 ◌>>=◌
unfoldable pub ◌>>=◌ : {A B : Type 0} → Result A → (A → Result B) → Result B
ok a >>= f = f a
err >>= f = err
panic >>= f = panic
no_fuel >>= f = no_fuel

-- `parse_trace`, of what the trace file holds, if it can be read.
unfoldable pub parse_trace : Option (List ℕ) → Result Trace
parse_trace none = err
parse_trace (some text) = of_parsed (try_parse text)

-- `Runner::diff`
unfoldable pub diff :
    {C : Type 0}
    → (C → Option (List ℕ))
    → (List Written → ℕ)
    → Bool
    → DashObserver
    → DashObserver
    → C
    → C
    → Result (DiffCompleted C)
diff trace_file finish enabled fst_dash snd_dash fst_outcome snd_outcome = do
  fst_trace ← parse_trace (trace_file fst_outcome)
  snd_trace ← parse_trace (trace_file snd_outcome)
  files ←
      if is_interesting enabled fst_dash snd_dash
      then of_outcome (dash_diff finish fst_dash snd_dash)
      else ok []
  ok record {
    dash_diff = files;
    trace_diff = Trace.diff fst_trace snd_trace;
    fst_outcome = fst_outcome;
    snd_outcome = snd_outcome;
    fst_trace = fst_trace;
    snd_trace = snd_trace;
  }

abbrev pub of_diff : {C : Type 0} → Result (DiffCompleted C) → Result (DiffOutcome C)
of_diff (ok d) = ok (diff_completed d)
of_diff err = err
of_diff panic = panic
of_diff no_fuel = no_fuel

module _ {W C : Type 0} (fst_harness snd_harness : W → Option (Outcome C) × W)
    (load_snapshot : W → Bool × W) (compare : W → C → C → Result (DiffCompleted C))
    (fst_fs_name snd_fs_name : List ℕ) (timeout : ℕ) where
  -- `load_snapshot` and then the answer, unless it fails.
  unfoldable pub after_snapshot : DiffOutcome C → W → Result (DiffOutcome C) × W
  after_snapshot o w = let (loaded, w') = load_snapshot w in (if loaded then ok o else err, w')

  unfoldable pub second : C → Option (Outcome C) × W → Result (DiffOutcome C) × W
  second c (none, w) = (err, w)
  second c (some panicked, w) = after_snapshot (second_panicked snd_fs_name) w
  second c (some timed_out, w) = (ok (second_timed_out snd_fs_name timeout), w)
  second c (some (completed c'), w) = (of_diff (compare w c c'), w)

  unfoldable pub first : Option (Outcome C) × W → Result (DiffOutcome C) × W
  first (none, w) = (err, w)
  first (some panicked, w) = after_snapshot (first_panicked fst_fs_name) w
  first (some timed_out, w) = (ok (first_timed_out fst_fs_name timeout), w)
  first (some (completed c), w) = second c (snd_harness w)

  unfoldable pub run_harness : W → Result (DiffOutcome C) × W
  run_harness w = first (fst_harness w)
