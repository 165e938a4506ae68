-- ===== src/Save.antt =====
-- diffuzzer/src/save.rs, compile.rs, the reports of fuzzing/runner.rs and their reasons in
-- fuzzing/fuzzer.rs: what is written when a test is compiled and when a report is saved. Joining paths,
-- lower case, the JSON of a workload and the hash that names it are library functions, which are
-- parameters, and so is how a file is shown. Each effect is added to a history, and the environment says from the history so far
-- whether the last one succeeds.
pub mod Saved
use diffuzzer.Prelude.{ℕ, Bool, true, Option, none, some, List, [], ◌∷◌, ◌++◌, codes, if◌then◌else◌}
use diffuzzer.Text.{to_string}
use diffuzzer.Operation.{Workload}
use diffuzzer.Encode.{encode_c}
use diffuzzer.Trace.{errors}
use diffuzzer.Dash.{FileInfo}
use diffuzzer.Outcome.{DiffCompleted, trace_interesting, dash_interesting}
use diffuzzer.Fallible.{Step, ◌>>=◌, ◌>>◌, pure, fail}
use diffuzzer.Fuzzer.{Report, accident, difference, fs_panicked, fs_timed_out}
use diffuzzer.Markdown.{Markdown, heading}
use diffuzzer.Markdown.Reason.{new_reason, add_trace_rows, add_trace_diff, add_dash_diff}

-- `LocalPath` and `RemotePath`
abbrev pub FilePath : Type 0
FilePath = List ℕ

-- Effects on the host, among them the messages to the broker, and, for `make`, `write_remote` and `copy_from_remote`, on the guest.
pub data Effect : Type 0 where
  create_dir_all make : FilePath → Effect
  write write_remote : FilePath → List ℕ → Effect
  copy copy_from_remote : FilePath → FilePath → Effect
  info : List ℕ → Effect

abbrev pub History : Type 0
History = List Effect

-- `Completed`
pub record Completed : Type 0 where
  pub dir : FilePath
  pub stdout : List ℕ
  pub stderr : List ℕ

pub record Library : Type 0 where
  pub join : FilePath → FilePath → FilePath
  pub to_lowercase : List ℕ → List ℕ
  pub to_json : Workload → Option (List ℕ)
  pub show_file : FileInfo → List ℕ
  pub generate_name : Workload → List ℕ
  pub succeeds : History → Bool

abbrev pub trace_filename : FilePath
trace_filename = codes "trace.csv"

abbrev pub test_source_filename : FilePath
test_source_filename = codes "test.c"

abbrev pub test_exe_filename : FilePath
test_exe_filename = codes "test.out"

abbrev pub test_file_name : FilePath
test_file_name = codes "test.json"

module _ (lib : Library) where
  unfoldable pub effect : Effect → Step History (Unit {0})
  effect e h = let h' = h ++ (e ∷ []) in (if lib.succeeds h' then some tt else none, h')

  -- `Workload::compile`
  unfoldable pub compile : Workload → FilePath → Step History FilePath
  compile input dir = do
    effect (write_remote (lib.join dir test_source_filename) (encode_c input))
    effect (make dir)
    pure (lib.join dir test_exe_filename)

  unfoldable pub copy_binary : FilePath → Option FilePath → Step History (Unit {0})
  copy_binary output_dir none = pure tt
  copy_binary output_dir (some binary_path) =
      effect (copy_from_remote binary_path (lib.join output_dir test_exe_filename))

  unfoldable pub write_json : FilePath → Option (List ℕ) → Step History (Unit {0})
  write_json output_dir none = fail
  write_json output_dir (some json) = effect (write (lib.join output_dir test_file_name) json)

  unfoldable pub save_testcase : FilePath → Option FilePath → Workload → Step History (Unit {0})
  save_testcase output_dir binary_path input = do
    effect (write (lib.join output_dir test_source_filename) (encode_c input))
    copy_binary output_dir binary_path
    write_json output_dir (lib.to_json input)

  unfoldable pub save_completed : FilePath → List ℕ → Completed → Step History (Unit {0})
  save_completed output_dir name outcome = do
    let fs_name = lib.to_lowercase name
    effect (
        copy (lib.join outcome.dir trace_filename)
          (lib.join output_dir (fs_name ++ (codes "." ++ trace_filename))))
    effect (write (lib.join output_dir (fs_name ++ codes ".stdout.txt")) outcome.stdout)
    effect (write (lib.join output_dir (fs_name ++ codes ".stderr.txt")) outcome.stderr)

  unfoldable pub save_reason : FilePath → Markdown → Step History (Unit {0})
  save_reason output_dir reason = effect (write (lib.join output_dir (codes "reason.md")) reason)

  -- `Runner::report_diff`
  unfoldable pub report_diff :
      List ℕ
      → List ℕ
      → Workload
      → FilePath
      → FilePath
      → FilePath
      → DiffCompleted Completed
      → Markdown
      → Step History (Unit {0})
  report_diff fst_fs_name snd_fs_name input dir_name binary_path crash_dir diff reason = do
    let dir = lib.join crash_dir dir_name
    effect (create_dir_all dir)
    save_testcase dir (some binary_path) input
    save_completed dir fst_fs_name diff.fst_outcome
    save_completed dir snd_fs_name diff.snd_outcome
    save_reason dir reason
    effect (info (codes "diff saved at '" ++ (dir ++ codes "'")))

  -- `Runner::report_crash`
  unfoldable pub report_crash : Workload → FilePath → FilePath → Markdown → Step History (Unit {0})
  report_crash input dir_name crash_dir reason = do
    let dir = lib.join crash_dir dir_name
    effect (create_dir_all dir)
    save_testcase dir none input
    save_reason dir reason
    effect (info (codes "crash saved at '" ++ (dir ++ codes "'")))

  unfoldable pub trace_part : DiffCompleted Completed → Markdown → Markdown
  trace_part diff md =
      if trace_interesting diff
      then add_trace_diff (heading md (codes "Trace Difference Found")) diff.trace_diff
      else md

  unfoldable pub dash_part : DiffCompleted Completed → Markdown → Markdown
  dash_part diff md =
      if dash_interesting diff
      then add_dash_diff lib.show_file (heading md (codes "Dash Difference Found")) diff.dash_diff
      else md

  -- The reason that is saved with a report.
  unfoldable pub reason_of : Report Completed → Markdown
  reason_of (accident input diff) =
      add_trace_rows
        (add_trace_rows
          (heading new_reason (codes "Both traces contain errors, potential bug in model"))
          (errors diff.fst_trace))
        (errors diff.snd_trace)
  reason_of (difference input diff) = dash_part diff (trace_part diff new_reason)
  reason_of (fs_panicked input fs_name) =
      heading new_reason (codes "Filesystem '" ++ (fs_name ++ codes "' panicked"))
  reason_of (fs_timed_out input fs_name timeout) = heading new_reason (
      codes "Filesystem '"
      ++ (fs_name ++ (codes "' timed out after " ++ (to_string timeout ++ codes "s"))))

  -- How a fuzzer saves a report: an accident in a directory of its own, all else with the crashes.
  unfoldable pub save_report :
      List ℕ → List ℕ → FilePath → FilePath → FilePath → Report Completed → Step History (Unit {0})
  save_report fst_fs_name snd_fs_name binary_path accidents_path crashes_path r = by_kind r
    where
      by_kind : Report Completed → Step History (Unit {0})
      by_kind (accident input diff) =
          report_diff fst_fs_name snd_fs_name input (lib.generate_name input) binary_path
            accidents_path diff (reason_of r)
      by_kind (difference input diff) =
          report_diff fst_fs_name snd_fs_name input (lib.generate_name input) binary_path
            crashes_path diff (reason_of r)
      by_kind (fs_panicked input fs_name) =
          report_crash input (lib.generate_name input) crashes_path (reason_of r)
      by_kind (fs_timed_out input fs_name timeout) =
          report_crash input (lib.generate_name input) crashes_path (reason_of r)
