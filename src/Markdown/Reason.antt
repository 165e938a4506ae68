-- ===== src/Markdown/Reason.antt =====
-- diffuzzer/src/reason.rs: the report of a difference. How a file is shown is a parameter: it is the
-- derived text of a structure.
use diffuzzer.Prelude.{List, [], ◌∷◌, ◌++◌, ℕ, codes}
use diffuzzer.Text.{trim}
use diffuzzer.Trace.{TraceRow, TraceDiff, row_is_different, different_length}
use diffuzzer.Dash.{FileInfo, FileDiff, file_is_different, only_one_exists}
use diffuzzer.Markdown
use diffuzzer.Markdown.{Markdown, newline, paragraph, codeblock, language_of}

unfoldable pub new_reason : Markdown
new_reason = Markdown.new (codes "Reason")

-- `Trace::header`
unfoldable pub header : List ℕ
header = codes "Index,Command,ReturnCode,Errno,Extra"

unfoldable pub sources : List TraceRow → List ℕ
sources [] = []
sources (row ∷ rows) = row.source ++ (newline ∷ sources rows)

unfoldable pub add_trace_rows : Markdown → List TraceRow → Markdown
add_trace_rows md rows =
    codeblock md (language_of (codes "csv")) (trim (header ++ (newline ∷ sources rows)))

unfoldable pub add_trace_diff : Markdown → List TraceDiff → Markdown
add_trace_diff md [] = md
add_trace_diff md (row_is_different fst snd ∷ diffs) =
    add_trace_diff
      (codeblock md (language_of (codes "csv"))
        (header ++ (newline ∷ fst.source ++ (newline ∷ snd.source))))
      diffs
add_trace_diff md (different_length ∷ diffs) =
    add_trace_diff (paragraph md (codes "Traces have different lengths")) diffs

unfoldable pub add_dash_diff : (FileInfo → List ℕ) → Markdown → List FileDiff → Markdown
add_dash_diff show_file md [] = md
add_dash_diff show_file md (file_is_different fst snd ∷ diffs) =
    add_dash_diff show_file
      (codeblock (paragraph md (codes "File with different hash:")) (language_of (codes "json"))
        (show_file fst ++ (newline ∷ show_file snd)))
      diffs
add_dash_diff show_file md (only_one_exists f ∷ diffs) =
    add_dash_diff show_file
      (codeblock (paragraph md (codes "File exists only in one FS:")) (language_of (codes "json"))
        (show_file f))
      diffs
