-- ===== src/Runner/Events.antt =====
-- `run_harness` of runner.rs with the harness of harness.rs on both sides: the machine under it, and
-- what happens on the way to an outcome.
use diffuzzer.Prelude.{ℕ, ◌≡◌, Bool, Option, some, List, [], ◌∷◌, ◌++◌, map}
use diffuzzer.Outcome.{
  Outcome, completed, timed_out, panicked, DiffCompleted, DiffOutcome, diff_completed,
  first_timed_out, second_timed_out, first_panicked, second_panicked,
}
use diffuzzer.Harness
use diffuzzer.Harness.{Call, Environment, Completed}
use diffuzzer.Harness.Calls.{calls_of}
use diffuzzer.Runner.{Result, ok, run_harness}

-- A call for the first or the second file system, or the supervisor puts the machine back.
pub data Event : Type 0 where
  on_first on_second : Call → Event
  load_snapshot : Event

-- The comparison and the names that a runner has, and the machine under it: the environments of the
-- two harnesses, which depend on what happened before, and whether a snapshot can be loaded.
pub record Machine : Type 0 where
  pub fst_env : List Event → Environment
  pub snd_env : List Event → Environment
  pub loads : List Event → Bool
  pub compare : List Event → Completed → Completed → Result (DiffCompleted Completed)
  pub fst_fs_name : List ℕ
  pub snd_fs_name : List ℕ
  pub timeout : ℕ
  pub keep_fs : Bool
  pub fst_observers : ℕ
  pub snd_observers : ℕ

unfoldable pub harness_on :
    (Call → Event)
    → (List Event → Environment)
    → Bool
    → ℕ
    → List Event
    → Option (Outcome Completed) × List Event
harness_on side env keep_fs n w =
    let (r, h) = Harness.run (env w) keep_fs n [] in (r, w ++ map side h)

unfoldable pub snapshot : (List Event → Bool) → List Event → Bool × List Event
snapshot loads w = let w' = w ++ (load_snapshot ∷ []) in (loads w', w')

module _ (m : Machine) where
  abbrev pub fst_harness : List Event → Option (Outcome Completed) × List Event
  fst_harness = harness_on on_first m.fst_env m.keep_fs m.fst_observers

  abbrev pub snd_harness : List Event → Option (Outcome Completed) × List Event
  snd_harness = harness_on on_second m.snd_env m.keep_fs m.snd_observers

  abbrev pub run_both : List Event → Result (DiffOutcome Completed) × List Event
  run_both =
      run_harness fst_harness snd_harness (snapshot m.loads) m.compare m.fst_fs_name m.snd_fs_name
        m.timeout

  abbrev pub fst_events : Outcome Completed → List Event
  fst_events o = map on_first (calls_of m.keep_fs m.fst_observers o)

  abbrev pub snd_events : Outcome Completed → List Event
  snd_events o = map on_second (calls_of m.keep_fs m.snd_observers o)

  -- The calls of a completed run do not depend on what the test printed.
  abbrev pub done : Outcome Completed
  done = completed (record { stdout = []; stderr = [] })

  -- What happens on the way to an outcome.
  abbrev pub events_of : DiffOutcome Completed → List Event
  events_of (first_panicked name) = fst_events panicked ++ (load_snapshot ∷ [])
  events_of (first_timed_out name t) = fst_events timed_out
  events_of (second_panicked name) =
      fst_events done ++ (snd_events panicked ++ (load_snapshot ∷ []))
  events_of (second_timed_out name t) = fst_events done ++ snd_events timed_out
  events_of (diff_completed d) = fst_events done ++ snd_events done

  -- An outcome carries the name of the file system that it is about and the configured timeout, and a
  -- comparison is that of what the two runs returned.
  abbrev pub Explained : List Event → List Event → DiffOutcome Completed → Type 0
  Explained w w' (first_panicked name) = name ≡ m.fst_fs_name
  Explained w w' (first_timed_out name t) = (name ≡ m.fst_fs_name) × (t ≡ m.timeout)
  Explained w w' (second_panicked name) = name ≡ m.snd_fs_name
  Explained w w' (second_timed_out name t) = (name ≡ m.snd_fs_name) × (t ≡ m.timeout)
  Explained w w' (diff_completed d) =
      (between : List Event) × (c : Completed) × (c' : Completed) × (fst_harness w
        ≡ (some (completed c), between))
      × (snd_harness between ≡ (some (completed c'), w'))
      × (m.compare w' c c' ≡ ok d)

  pub record Ran (w w' : List Event) (o : DiffOutcome Completed) : Type 0 where
    pub events : w' ≡ w ++ events_of o
    pub explained : Explained w w' o
