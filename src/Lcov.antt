-- ===== src/Lcov.antt =====
-- diffuzzer/src/fuzzing/greybox/feedback/lcov.rs: the coverage of a run from an LCov report. The
-- hash of a file name (`DefaultHasher`) is a parameter. A map of the files is a list of entries.
pub mod Executed
use Prim.Native.Nat.{◌/◌, ◌%◌, ◌^◌, bit_xor}
use diffuzzer.Prelude.{
  ℕ, zero, suc, ◌+◌, ◌*◌, Bool, true, false, Option, none, some, List, [], ◌∷◌, ◌++◌, codes, ltb,
  ◌==◌, if◌then◌else◌, add64,
}
use diffuzzer.PathName.{text_eq}
use diffuzzer.Text.{trim, split_at, IntResult, parse_unsigned}
use diffuzzer.Coverage
use diffuzzer.Coverage.{CoverageMap}

-- `LCovTraceOneFile`: executed lines with their counts
abbrev pub LCovTraceOneFile : Type 0
LCovTraceOneFile = CoverageMap

abbrev pub LCovTrace : Type 0
LCovTrace = List (List ℕ × LCovTraceOneFile)

pub data LCovLine : Type 0 where
  source_file_name : List ℕ → LCovLine
  line_execution_count : ℕ → ℕ → LCovLine
  end_of_record : LCovLine

-- `str::split_once`
abbrev pub before : ℕ → Option (List ℕ × List ℕ) → Option (List ℕ × List ℕ)
before c none = none
before c (some (s, t)) = some (c ∷ s, t)

unfoldable pub split_once : ℕ → List ℕ → Option (List ℕ × List ℕ)
split_once b [] = none
split_once b (c ∷ s) = let rest = split_once b s in if c == b then some ([], s) else before c rest

-- A `DA` line, from its parts: a line that was not executed counts for nothing.
abbrev pub executed : IntResult ℕ → IntResult ℕ → Option LCovLine
executed (IntResult.ok line) (IntResult.ok count) =
    if ltb 0 count then some (line_execution_count line count) else none
executed (IntResult.ok line) (IntResult.err e) = none
executed (IntResult.err e) r = none

unfoldable pub parse_count : List (List ℕ) → Option LCovLine
parse_count [] = none
parse_count (s ∷ []) = none
parse_count (s ∷ t ∷ ts) =
    executed (parse_unsigned 4294967295 s) (parse_unsigned 18446744073709551615 t)

unfoldable pub parse_tagged : Option (List ℕ × List ℕ) → Option LCovLine
parse_tagged none = none
parse_tagged (some (tag, text)) =
    if text_eq tag (codes "SF")
    then some (source_file_name text)
    else if text_eq tag (codes "DA")
    then parse_count (split_at (λ c. c == b',') text)
    else none

unfoldable pub parse_line : List ℕ → Option LCovLine
parse_line line =
    let s = trim line in
    if text_eq s (codes "end_of_record")
    then some end_of_record
    else parse_tagged (split_once b':' s)

-- `LCovTrace::add_file`: `HashMap::insert`
unfoldable pub add_file : List ℕ → LCovTraceOneFile → LCovTrace → LCovTrace
add_file name file [] = (name, file) ∷ []
add_file name file ((n, f) ∷ fs) =
    let rest = add_file name file fs in if text_eq n name then (n, file) ∷ fs else (n, f) ∷ rest

unfoldable pub add_line : ℕ → ℕ → LCovTraceOneFile → LCovTraceOneFile
add_line line count trace = Coverage.insert line count trace

-- The variables of the loop in `parse_from`.
pub record Parsing : Type 0 where
  pub lcov : LCovTrace
  pub current_file : Option (List ℕ)
  pub trace : LCovTraceOneFile

abbrev pub close_record : Option (List ℕ) → Parsing → Parsing
close_record none p = p
close_record (some file) p = record {
  lcov = add_file file p.trace p.lcov;
  current_file = none;
  trace = [];
}

-- Only the first file name of a record is kept.
abbrev pub open_record : List ℕ → Option (List ℕ) → Option (List ℕ)
open_record next_file none = some next_file
open_record next_file (some file) = some file

-- The body of the loop, on a parsed line.
unfoldable pub parse_step : Option LCovLine → Parsing → Parsing
parse_step none p = p
parse_step (some (source_file_name next_file)) p = record p {
  current_file = open_record next_file p.current_file;
}
parse_step (some (line_execution_count line count)) p = record p {
  trace = add_line line count p.trace;
}
parse_step (some end_of_record) p = close_record p.current_file p

unfoldable pub parse_lines : List (List ℕ) → Parsing → Parsing
parse_lines [] p = p
parse_lines (line ∷ lines) p = parse_lines lines (parse_step (parse_line line) p)

unfoldable pub parse_from : List (List ℕ) → LCovTrace
parse_from lines =
    let p = parse_lines lines (record { lcov = []; current_file = none; trace = [] }) in p.lcov

module _ (hash : List ℕ → ℕ) where
  -- The halves of the 64-bit hash of the name, combined and moved to the upper half.
  unfoldable pub short_file_hash : List ℕ → ℕ
  short_file_hash file = bit_xor (hash file / 2 ^ 32 % 2 ^ 32) (hash file % 2 ^ 32) * 2 ^ 32

  unfoldable pub map_file : ℕ → LCovTraceOneFile → CoverageMap → CoverageMap
  map_file h [] m = m
  map_file h ((line, count) ∷ trace) m = map_file h trace (Coverage.insert (add64 h line) count m)

  unfoldable pub map_files : LCovTrace → CoverageMap → CoverageMap
  map_files [] m = m
  map_files ((file, trace) ∷ files) m = map_files files (map_file (short_file_hash file) trace m)

  -- `LCovTrace::map`
  unfoldable pub lcov_map : LCovTrace → CoverageMap
  lcov_map files = map_files files []
