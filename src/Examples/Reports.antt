-- ===== src/Examples/Reports.antt =====
-- The texts of reports, on the tests of the source.
use diffuzzer.Prelude.{ℕ, some, true, List, ◌≡◌, refl, [], ◌∷◌, ◌++◌, codes, drop}
use diffuzzer.Outcome.{DiffCompleted}
use diffuzzer.Fallible
use diffuzzer.Fuzzer.{accident}
use diffuzzer.Save
use diffuzzer.Save.{Completed, History, Library}
use diffuzzer.Save.Saved.{difference_files, report_diff-difference_files}
use diffuzzer.Markdown
use diffuzzer.Markdown.{
  newline, language_of, replace_fence, replace_char, underlined, heading, codeblock, utf8_length,
  repeat,
}
use diffuzzer.Markdown.Fences.{before_fence, before_fence-codeblock}

-- `test_heading`: a heading of two lines becomes one line.
shown_heading :
    heading
      (Markdown.new (codes "some" ++ (newline ∷ codes "title")))
      (codes "some" ++ (newline ∷ codes "heading"))
    ≡ codes "some title"
      ++ (newline ∷ codes "=========="
          ++ (newline ∷ newline ∷ codes "some heading"
              ++ (newline ∷ codes "------------" ++ (newline ∷ newline ∷ []))))
unfolding heading Markdown.new underlined replace_char utf8_length repeat
shown_heading = refl

before_fence-codeblock_example :
    before_fence (drop 3 (codeblock [] (language_of (codes "python````")) (codes "````")))
    ≡ language_of (codes "python````") ++ (newline ∷ replace_fence (codes "````") ++ (newline ∷ []))
before_fence-codeblock_example = before_fence-codeblock (codes "python````") (codes "````")

abbrev plain : Library
plain = record {
  join = λ p q. p ++ (codes "/" ++ q);
  to_lowercase = λ s. s;
  to_json = λ input. some (codes "{}");
  show_file = λ f. f.rel_path;
  generate_name = λ input. codes "x";
  succeeds = λ h. true;
}

abbrev printed : List ℕ → Completed
printed text = record { dir = codes "/tmp"; stdout = text; stderr = [] }

abbrev two_runs : DiffCompleted Completed
two_runs = record {
  dash_diff = [];
  trace_diff = [];
  fst_outcome = printed (codes "0");
  snd_outcome = printed (codes "1");
  fst_trace = [];
  snd_trace = [];
}

abbrev all_files : History
all_files =
    difference_files plain (codes "ext4") (codes "xfs") [] (codes "/out/x") (codes "/b") two_runs []

saved :
    Save.report_diff plain
      (codes "ext4")
      (codes "xfs")
      []
      (codes "x")
      (codes "/b")
      (codes "/out")
      two_runs
      []
      []
    ≡ (some tt, all_files)
unfolding Save.report_diff Save.effect Save.copy_binary Save.write_json Save.save_testcase
    Save.save_completed Save.save_reason Fallible.◌>>=◌
saved = refl

-- The fuzzer saves an accident with its reason and in the directory of accidents.
accident_saved :
    (Save.save_report plain
      (codes "ext4")
      (codes "xfs")
      (codes "/b")
      (codes "/out")
      (codes "/c")
      (accident [] two_runs)
      []).1
    ≡ difference_files plain
        (codes "ext4")
        (codes "xfs")
        []
        (codes "/out/x")
        (codes "/b")
        two_runs
        (Save.reason_of plain (accident [] two_runs))
unfolding Save.save_report Save.report_diff Save.effect Save.copy_binary Save.write_json
    Save.save_testcase Save.save_completed Save.save_reason Fallible.◌>>=◌
accident_saved = refl

report_diff-difference_files_example : all_files ≡ [] ++ all_files
report_diff-difference_files_example =
    report_diff-difference_files plain (codes "ext4") (codes "xfs") [] (codes "x") (codes "/b")
      (codes "/out") two_runs [] [] all_files saved
