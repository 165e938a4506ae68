-- ===== src/Reducer.antt =====
-- diffuzzer/src/fuzzing/reducer.rs: shrinking of a test by removal of its operations, from the last
-- to the first, as long as the same difference is seen.
pub mod Sound
pub mod Same
use diffuzzer.Prelude.{
  ℕ, ◌-◌, Bool, true, false, not, ◌&&◌, Option, none, some, List, [], ◌∷◌, ◌++◌, if◌then◌else◌,
  ◌==◌, length,
}
use diffuzzer.PathName.{text_eq}
use diffuzzer.Dash.{FileInfo, FileDiff, file_is_different, only_one_exists}
use diffuzzer.Trace.{TraceDiff, row_is_different, different_length, ignore_index_equal}
use diffuzzer.Operation.{Workload}
use diffuzzer.Fs.State.{Result, ok, err, panic, overflow}
use diffuzzer.Mutator.{remove}
use diffuzzer.Outcome.{
  DiffCompleted, DiffOutcome, diff_completed, first_timed_out, second_timed_out, first_panicked,
  second_panicked, any_interesting,
}

unfoldable pub bool_eq : Bool → Bool → Bool
bool_eq true b = b
bool_eq false b = not b

-- The derived `==` of `FileInfo`, `FileDiff` and lists of them.
unfoldable pub info_eq : FileInfo → FileInfo → Bool
info_eq a b =
    text_eq a.abs_path b.abs_path
    && text_eq a.rel_path b.rel_path
    && (a.gid == b.gid)
    && (a.uid == b.uid)
    && (a.size == b.size)
    && (a.nlink == b.nlink)
    && (a.mode == b.mode)
    && bool_eq a.is_dir b.is_dir

unfoldable pub file_diff_eq : FileDiff → FileDiff → Bool
file_diff_eq (file_is_different a b) (file_is_different c d) = info_eq a c && info_eq b d
file_diff_eq (only_one_exists a) (only_one_exists b) = info_eq a b
file_diff_eq (file_is_different a b) (only_one_exists c) = false
file_diff_eq (only_one_exists a) (file_is_different c d) = false

unfoldable pub dash_eq : List FileDiff → List FileDiff → Bool
dash_eq [] [] = true
dash_eq [] (d ∷ ds) = false
dash_eq (d ∷ ds) [] = false
dash_eq (d ∷ ds) (e ∷ es) = file_diff_eq d e && dash_eq ds es

-- One turn of the loop of `same_diff`.
unfoldable pub same_row : TraceDiff → TraceDiff → Bool
same_row different_length different_length = true
same_row (row_is_different a b) (row_is_different c d) =
    ignore_index_equal a c && ignore_index_equal b d
same_row different_length (row_is_different c d) = false
same_row (row_is_different a b) different_length = false

unfoldable pub same_rows : List TraceDiff → List TraceDiff → Bool
same_rows [] es = true
same_rows (d ∷ ds) [] = false
same_rows (d ∷ ds) (e ∷ es) = let rest = same_rows ds es in if same_row d e then rest else false

unfoldable pub same_diff : {C : Type 0} → DiffCompleted C → DiffCompleted C → Bool
same_diff old new =
    if length old.trace_diff == length new.trace_diff
    then (if same_rows old.trace_diff new.trace_diff
        then dash_eq old.dash_diff new.dash_diff
        else false)
    else false

-- What is saved: a reduced test, or a variation with another outcome, by the index removed.
pub data Report : Type 0 where
  reduced : Workload → Report
  variation crash : ℕ → Workload → Report

pub record Progress : Type 0 where
  pub bugcase : Workload
  pub reports : List Report

abbrev pub note : Report → Progress → Progress
note r p = record p { reports = p.reports ++ (r ∷ []) }

-- The reduction ends, or an external step fails, or the abstract file system panics or runs out of
-- fuel.
pub data Reduction : Type 0 where
  finished : Progress → Reduction
  failed panicked no_fuel : Reduction

abbrev pub and_then : Reduction → (Progress → Reduction) → Reduction
and_then (finished p) k = k p
and_then failed k = failed
and_then panicked k = panicked
and_then no_fuel k = no_fuel

-- The runner is a function of the test: compilation and the run, where `none` is a failure of these.
-- `saves` says which reports can be saved.
module _ {C : Type 0} (run_harness : Workload → Option (DiffOutcome C)) (saves : Report → Bool)
    (original : DiffCompleted C) where
  -- `report_diff` or `report_crash`, whose failure ends the reduction.
  unfoldable pub save : Report → Progress → Reduction
  save r p = if saves r then finished (note r p) else failed

  -- The `match` on the outcome of the reduced test.
  unfoldable pub judge : ℕ → Workload → Option (DiffOutcome C) → Progress → Reduction
  judge index candidate none p = failed
  judge index candidate (some (diff_completed next)) p =
      if any_interesting next
      then (if same_diff original next
          then save (reduced candidate) (record p { bugcase = candidate })
          else save (variation index candidate) p)
      else finished p
  judge index candidate (some (first_panicked name)) p = save (crash index candidate) p
  judge index candidate (some (second_panicked name)) p = save (crash index candidate) p
  judge index candidate (some (first_timed_out name t)) p = save (crash index candidate) p
  judge index candidate (some (second_timed_out name t)) p = save (crash index candidate) p

  unfoldable pub try_remove : ℕ → Result (Option Workload) → Progress → Reduction
  try_remove index (ok (some candidate)) p = judge index candidate (run_harness candidate) p
  try_remove index (ok none) p = finished p
  try_remove index (err e) p = finished p
  try_remove index panic p = panicked
  try_remove index overflow p = no_fuel

  -- The loop, from an index down to 0.
  unfoldable pub reduce_from : ℕ → ℕ → Progress → Reduction
  reduce_from fuel ℕ.zero p = try_remove 0 (remove fuel p.bugcase 0) p
  reduce_from fuel (ℕ.suc i) p =
      and_then (try_remove (ℕ.suc i) (remove fuel p.bugcase (ℕ.suc i)) p) (reduce_from fuel i)

  -- On a test with no operation, `len() - 1` is out of range, and so is the removal.
  unfoldable pub reduce_by_diff : ℕ → Workload → Reduction
  reduce_by_diff fuel [] = panicked
  reduce_by_diff fuel (op ∷ ops) =
      reduce_from fuel (length ops) (record { bugcase = op ∷ ops; reports = [] })
