-- ===== src/Save/Saved.antt =====
-- save.rs and runner.rs: what a report that is saved consists of.
use diffuzzer.Prelude.{ℕ, ◌≡◌, refl, ap, Option, none, some, List, [], ◌∷◌, ◌++◌, codes, sym, ◌∙◌}
use diffuzzer.Operation.{Workload}
use diffuzzer.Encode.{encode_c}
use diffuzzer.Outcome.{DiffCompleted}
use diffuzzer.Fallible.Adds.{Adds, Adds-pure, Adds-fail, Adds-then}
use diffuzzer.Markdown.{Markdown}
use diffuzzer.Save.{
  FilePath, Effect, create_dir_all, write, copy, copy_from_remote, info, History, Completed,
  Library, trace_filename, test_source_filename, test_exe_filename, test_file_name, effect,
  copy_binary, write_json, save_testcase, save_completed, save_reason, report_diff,
}

module _ (lib : Library) (dir : FilePath) where
  abbrev pub binary_files : Option FilePath → History
  binary_files none = []
  binary_files (some binary_path) =
      copy_from_remote binary_path (lib.join dir test_exe_filename) ∷ []

  abbrev pub json_files : Option (List ℕ) → History
  json_files none = []
  json_files (some json) = write (lib.join dir test_file_name) json ∷ []

  -- The source, the executable if there is one, and the workload.
  abbrev pub testcase_files : Option FilePath → Workload → History
  testcase_files binary_path input =
      (write (lib.join dir test_source_filename) (encode_c input) ∷ [])
      ++ (binary_files binary_path ++ json_files (lib.to_json input))

  -- The trace and what was printed.
  abbrev pub completed_files : List ℕ → Completed → History
  completed_files name outcome =
      (copy (lib.join outcome.dir trace_filename)
          (lib.join dir (lib.to_lowercase name ++ (codes "." ++ trace_filename)))
        ∷ [])
      ++ ((write (lib.join dir (lib.to_lowercase name ++ codes ".stdout.txt")) outcome.stdout ∷ [])
          ++ (write (lib.join dir (lib.to_lowercase name ++ codes ".stderr.txt")) outcome.stderr
              ∷ []))

  abbrev pub reason_files : Markdown → History
  reason_files reason = write (lib.join dir (codes "reason.md")) reason ∷ []

  Adds-effect : (e : Effect) → Adds (λ _ d. d ≡ e ∷ []) (effect lib e)
  unfolding effect
  Adds-effect e = record { at = λ h h' u q. (e ∷ [], sym (ap (λ q. q.1) q), refl) }

  Adds-copy_binary :
      (binary_path : Option FilePath)
      → Adds (λ _ d. d ≡ binary_files binary_path) (copy_binary lib dir binary_path)
  unfolding copy_binary
  Adds-copy_binary none = Adds-pure _ tt refl
  Adds-copy_binary (some binary_path) = Adds-effect _

  Adds-write_json :
      (json : Option (List ℕ)) → Adds (λ _ d. d ≡ json_files json) (write_json lib dir json)
  unfolding write_json
  Adds-write_json none = Adds-fail _
  Adds-write_json (some json) = Adds-effect _

  Adds-save_testcase :
      (binary_path : Option FilePath) (input : Workload)
      → Adds (λ _ d. d ≡ testcase_files binary_path input) (save_testcase lib dir binary_path input)
  unfolding save_testcase
  Adds-save_testcase binary_path input =
      Adds-then _ _ _ _ _ (Adds-effect _) (λ _. refl)
        (Adds-then _ _ _ _ _ (Adds-copy_binary binary_path) (λ _. refl) (Adds-write_json _))

  Adds-save_completed :
      (name : List ℕ) (outcome : Completed)
      → Adds (λ _ d. d ≡ completed_files name outcome) (save_completed lib dir name outcome)
  unfolding save_completed
  Adds-save_completed name outcome =
      Adds-then _ _ _ _ _ (Adds-effect _) (λ _. refl)
        (Adds-then _ _ _ _ _ (Adds-effect _) (λ _. refl) (Adds-effect _))

  Adds-save_reason :
      (reason : Markdown) → Adds (λ _ d. d ≡ reason_files reason) (save_reason lib dir reason)
  unfolding save_reason
  Adds-save_reason reason = Adds-effect _

-- All that the report of a difference consists of, in the order it is written.
abbrev pub difference_files :
    Library
    → List ℕ
    → List ℕ
    → Workload
    → FilePath
    → FilePath
    → DiffCompleted Completed
    → Markdown
    → History
difference_files lib fst_name snd_name input dir binary_path diff reason =
    (create_dir_all dir ∷ [])
    ++ (testcase_files lib dir (some binary_path) input
        ++ (completed_files lib dir fst_name diff.fst_outcome
            ++ (completed_files lib dir snd_name diff.snd_outcome
                ++ (reason_files lib dir reason
                    ++ (info (codes "diff saved at '" ++ (dir ++ codes "'")) ∷ [])))))

-- A report of a difference that returns has written, in order and in the directory of the report: the
-- source and the executable of the test and its workload, the trace and the output of both file systems
-- under their names, and the reason; then it has told the broker, and nothing else.
pub report_diff-difference_files :
    (lib : Library) (fst_name snd_name : List ℕ) (input : Workload)
    (dir_name binary_path crash_dir : FilePath) (diff : DiffCompleted Completed) (reason : Markdown)
    (h h' : History)
    → report_diff lib fst_name snd_name input dir_name binary_path crash_dir diff reason h
      ≡ (some tt, h')
    → h'
      ≡ h
        ++ difference_files lib fst_name snd_name input
            (lib.join crash_dir dir_name)
            binary_path
            diff
            reason
unfolding report_diff
report_diff-difference_files lib fst_name snd_name input dir_name binary_path crash_dir diff reason
      h h' e =
    let dir = lib.join crash_dir dir_name in
    let (d, grown, k) =
      (Adds-then
          (λ _ d. d ≡ difference_files lib fst_name snd_name input dir binary_path diff reason) _ _
          _ _ (Adds-effect lib dir _) (λ _. refl)
          (Adds-then _ _ _ _ _ (Adds-save_testcase lib dir (some binary_path) input) (λ _. refl)
            (Adds-then _ _ _ _ _ (Adds-save_completed lib dir fst_name diff.fst_outcome) (λ _. refl)
              (Adds-then _ _ _ _ _ (Adds-save_completed lib dir snd_name diff.snd_outcome)
                (λ _. refl)
                (Adds-then _ _ _ _ _ (Adds-save_reason lib dir reason) (λ _. refl)
                  (Adds-effect lib dir _)))))).at
        h h' tt e in
    grown ∙ ap (◌++◌ h) k
