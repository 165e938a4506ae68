-- ===== src/Examples/Fuzzing.antt =====
-- Traces, trees, coverage, runs and reductions.
use diffuzzer.Prelude.{
  ℕ, ◌+◌, ◌<◌, ◌≡◌, ◌↔◌, refl, Bool, true, false, some, List, [], ◌∷◌, map, codes, length, arith,
  u64_mod, drop, take, ◌==◌,
}
use diffuzzer.Text.{
  pos, negsuc, trim_end, split_at, trim, trim_start, is_whitespace, parse_unsigned, parse_i32,
  parse_digits,
}
use diffuzzer.Trace.{
  Trace, TraceRow, try_parse, parse_rows, parse_columns, parse_errno, Parsed, diff,
  row_is_different, int_eq, errno_eq, ignore_index_equal, row_eq, diff_rows, TraceError,
  invalid_column_number, invalid_errno,
}
use diffuzzer.Trace.Rows.{until_blank, try_parse-sources}
use diffuzzer.Trace.Differences.{diff_iff}
use diffuzzer.Dash.{FileInfo, Written, HasherOptions, get_diff, done}
use diffuzzer.Dash.Difference.{Returns, get_diff-Returns, get_diff-same}
use diffuzzer.Outcome.{DiffCompleted}
use diffuzzer.Runner
use diffuzzer.Runner.{DashObserver, Result}
use diffuzzer.Runner.Interesting.{Compared, diff-Compared}
use diffuzzer.Coverage.{Seed, CoverageMap, get, get_or, opinion, is_interesting, keys, new_seed}
use diffuzzer.Coverage.Counts.{count, any_new, occurs, Distinct, opinion-new, opinion-count}
use diffuzzer.Coverage.Queue.{chosen, rounds, workloads, choose-rounds}
use diffuzzer.Lcov.{lcov_map, parse_from}
use diffuzzer.Lcov.Executed.{Counted, lcov_map-Counted}
use diffuzzer.Encode.Declared.{Declared}
use diffuzzer.Operation.{Operation}

-- A trace of two operations.
abbrev trace_text : List ℕ
trace_text =
    codes
      "Index,Command,ReturnCode,Errno,Extra\n    1,    Foo,        42,Success(0),a=1\n    2,    Bar,        -1,Error(42),b=2\n"

abbrev foo_row : TraceRow
foo_row = record {
  index = 1;
  command = codes "Foo";
  return_code = pos 42;
  errno = record { name = codes "Success"; code = pos 0 };
  extra = codes "a=1";
  source = codes "    1,    Foo,        42,Success(0),a=1";
}

abbrev bar_row : TraceRow
bar_row = record {
  index = 2;
  command = codes "Bar";
  return_code = negsuc 0;
  errno = record { name = codes "Error"; code = pos 42 };
  extra = codes "b=2";
  source = codes "    2,    Bar,        -1,Error(42),b=2";
}

trace_parses : try_parse trace_text ≡ Parsed.ok (foo_row ∷ bar_row ∷ [])
unfolding try_parse parse_rows parse_columns parse_errno trim trim_start trim_end is_whitespace
    split_at parse_unsigned parse_i32 parse_digits diffuzzer.Trace.◌>>=◌
trace_parses = refl

try_parse-sources_example :
    map TraceRow.source (foo_row ∷ bar_row ∷ [])
    ≡ map trim_end (until_blank (drop 1 (split_at (λ c. c == b'\n') trace_text)))
try_parse-sources_example = try_parse-sources trace_text (foo_row ∷ bar_row ∷ []) trace_parses

diff_iff_example : (diff (foo_row ∷ []) (bar_row ∷ []) ≡ []) ↔ ((foo_row ∷ []) ≡ (bar_row ∷ []))
diff_iff_example = diff_iff (foo_row ∷ []) (bar_row ∷ [])

-- A tree with its root and one file.
abbrev root_info : FileInfo
root_info = record {
  abs_path = codes "/mnt/a";
  rel_path = [];
  gid = 0;
  uid = 0;
  size = 4096;
  nlink = 2;
  mode = 493;
  is_dir = true;
}

abbrev file_info : FileInfo
file_info = record {
  abs_path = codes "/mnt/a/x";
  rel_path = codes "x";
  gid = 0;
  uid = 0;
  size = 7;
  nlink = 1;
  mode = 420;
  is_dir = false;
}

abbrev tree : List FileInfo
tree = root_info ∷ file_info ∷ []

abbrev no_hash : List Written → ℕ
no_hash ws = length ws

abbrev skip_none : List ℕ → Bool
skip_none path = false

abbrev options : HasherOptions
options = record { size = true; file_nlink = false; dir_nlink = true; mode = true }

get_diff-Returns_example :
    Returns (get_diff no_hash options tree (root_info ∷ []) skip_none skip_none 3)
get_diff-Returns_example =
    get_diff-Returns no_hash options tree (root_info ∷ []) skip_none skip_none refl refl

get_diff-same_example : get_diff no_hash options tree tree skip_none skip_none 4 ≡ done []
get_diff-same_example = get_diff-same no_hash options tree skip_none refl (λ path. refl)

abbrev observer : DashObserver
observer = record { hash = 5; fs_state = tree; fs_internal = skip_none }

abbrev foo_only : List ℕ
foo_only = codes "Index,Command,ReturnCode,Errno,Extra\n"

-- Two runs with an empty trace each.
abbrev no_difference : DiffCompleted ℕ
no_difference = record {
  dash_diff = [];
  trace_diff = [];
  fst_outcome = 0;
  snd_outcome = 1;
  fst_trace = [];
  snd_trace = [];
}

runs_alike :
    Runner.diff {C = ℕ} (λ c. some foo_only) no_hash true observer observer 0 1
    ≡ Result.ok no_difference
unfolding Runner.diff Runner.parse_trace Runner.◌>>=◌ Runner.is_interesting try_parse parse_rows
    split_at trim trim_start trim_end is_whitespace diff diff_rows
runs_alike = refl

diff-Compared_example :
    Compared (λ c. some foo_only) no_hash true observer observer 0 1 no_difference
diff-Compared_example =
    diff-Compared (λ c. some foo_only) no_hash true observer observer 0 1 no_difference runs_alike

-- Three addresses, one of them new.
abbrev seen : CoverageMap
seen = (10, 3) ∷ (20, 1) ∷ []

abbrev fresh : CoverageMap
fresh = (20, 5) ∷ (30, 1) ∷ []

none_small : (a : ℕ) → count a [] + length (keys fresh) < u64_mod
unfolding get get_or keys
none_small a = omega arith

fresh-Distinct : Distinct (keys fresh)
unfolding keys
fresh-Distinct = ((λ e. cc, tt), (tt, tt))

opinion-new_example : is_interesting (opinion fresh seen).0 ≡ any_new (keys fresh) seen
opinion-new_example = opinion-new fresh seen fresh-Distinct

opinion-count_example : count 30 (opinion fresh []).1 ≡ count 30 [] + occurs 30 (keys fresh)
opinion-count_example = opinion-count 30 fresh [] none_small

abbrev two_inputs : List Seed
two_inputs = new_seed [] [] [] ∷ new_seed (Operation.close 1 ∷ []) [] [] ∷ []

choose-rounds_example : chosen 3 0 two_inputs ≡ take 3 (rounds 2 (workloads two_inputs))
choose-rounds_example = choose-rounds 3 2 two_inputs (omega arith)

abbrev report : List (List ℕ)
report = codes "SF:/src/a.c" ∷ codes "DA:1,2" ∷ codes "DA:2,0" ∷ codes "end_of_record" ∷ []

lcov_map-Counted_example : Counted (lcov_map length (parse_from report))
lcov_map-Counted_example = lcov_map-Counted length report
