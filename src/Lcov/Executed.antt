-- ===== src/Lcov/Executed.antt =====
-- The counts of feedback/lcov.rs.
use diffuzzer.Prelude.{
  ℕ, zero, suc, ◌<◌, ◌≡◌, true, Option, none, some, List, [], ◌∷◌, ltb, ◌==◌, arith, All,
  Bool-cases, inl, inr, codes,
}
use diffuzzer.PathName.{text_eq}
use diffuzzer.Text.{trim, split_at, IntResult, parse_unsigned}
use diffuzzer.Coverage
use diffuzzer.Coverage.{CoverageMap}
use diffuzzer.Lcov.{
  LCovTraceOneFile, LCovTrace, LCovLine, source_file_name, line_execution_count, end_of_record,
  split_once, executed, parse_count, parse_tagged, parse_line, add_file, add_line, Parsing,
  parse_step, parse_lines, parse_from, map_file, map_files, lcov_map, short_file_hash,
}

-- Every count is at least one.
abbrev pub Counted : CoverageMap → Type 0
Counted = All (λ (e : ℕ × ℕ). 0 < e.1)

abbrev pub AllCounted : LCovTrace → Type 0
AllCounted = All (λ (f : List ℕ × LCovTraceOneFile). Counted f.1)

insert-Counted : (k n : ℕ) (m : CoverageMap) → 0 < n → Counted m → Counted (Coverage.insert k n m)
unfolding Coverage.insert
insert-Counted k n [] h c = (h, tt)
insert-Counted k n ((a, i) ∷ m) h c = elim (Bool-cases (a == k)) [
  | inl e ↦ rw e (h, c.1)
  | inr e ↦ rw e (c.0, insert-Counted k n m h c.1)
]

add_file-AllCounted :
    (name : List ℕ) (file : LCovTraceOneFile) (fs : LCovTrace)
    → Counted file
    → AllCounted fs
    → AllCounted (add_file name file fs)
unfolding add_file
add_file-AllCounted name file [] h c = (h, tt)
add_file-AllCounted name file ((n, f) ∷ fs) h c = elim (Bool-cases (text_eq n name)) [
  | inl e ↦ rw e (h, c.1)
  | inr e ↦ rw e (c.0, add_file-AllCounted name file fs h c.1)
]

-- A line that counts something counts at least one.
abbrev Positive : Option LCovLine → Type 0
Positive none = Unit
Positive (some (source_file_name f)) = Unit
Positive (some (line_execution_count line count)) = 0 < count
Positive (some end_of_record) = Unit

executed-Positive : (a b : IntResult ℕ) → Positive (executed a b)
executed-Positive (IntResult.ok line) (IntResult.ok zero) = tt
executed-Positive (IntResult.ok line) (IntResult.ok (suc n)) =
    let e : ltb 0 (suc n) ≡ true = ground arith in let lt : 0 < suc n = omega arith in rw e lt
executed-Positive (IntResult.ok line) (IntResult.err e) = tt
executed-Positive (IntResult.err e) r = tt

parse_count-Positive : (ts : List (List ℕ)) → Positive (parse_count ts)
unfolding parse_count
parse_count-Positive [] = tt
parse_count-Positive (s ∷ []) = tt
parse_count-Positive (s ∷ t ∷ ts) =
    executed-Positive (parse_unsigned 4294967295 s) (parse_unsigned 18446744073709551615 t)

parse_tagged-Positive : (o : Option (List ℕ × List ℕ)) → Positive (parse_tagged o)
unfolding parse_tagged
parse_tagged-Positive none = tt
parse_tagged-Positive (some (tag, rest)) = elim (Bool-cases (text_eq tag (codes "SF"))) [
  | inl e ↦ rw e tt
  | inr e ↦ rw e (elim (Bool-cases (text_eq tag (codes "DA"))) [
    | inl f ↦ rw f (parse_count-Positive (split_at (λ c. c == b',') rest))
    | inr f ↦ rw f tt
  ])
]

parse_line-Positive : (line : List ℕ) → Positive (parse_line line)
unfolding parse_line
parse_line-Positive line = elim (Bool-cases (text_eq (trim line) (codes "end_of_record"))) [
  | inl e ↦ rw e tt
  | inr e ↦ rw e (parse_tagged-Positive (split_once b':' (trim line)))
]

-- The state of the parser has executed lines only.
abbrev Executed : Parsing → Type 0
Executed p = AllCounted p.lcov × Counted p.trace

parse_step-Executed :
    (o : Option LCovLine) (p : Parsing) → Positive o → Executed p → Executed (parse_step o p)
unfolding parse_step add_line
parse_step-Executed none p h e = e
parse_step-Executed (some (source_file_name f)) p h e = e
parse_step-Executed (some (line_execution_count line count)) p h e =
    (e.0, insert-Counted line count p.trace h e.1)
parse_step-Executed (some end_of_record) p h e = closed p.current_file
  where
    closed : (o : Option (List ℕ)) → Executed (diffuzzer.Lcov.close_record o p)
    closed none = e
    closed (some file) = (add_file-AllCounted file p.trace p.lcov e.1 e.0, tt)

parse_lines-Executed :
    (lines : List (List ℕ)) (p : Parsing) → Executed p → Executed (parse_lines lines p)
unfolding parse_lines
parse_lines-Executed [] p e = e
parse_lines-Executed (line ∷ lines) p e =
    parse_lines-Executed lines _ (parse_step-Executed _ p (parse_line-Positive line) e)

parse_from-AllCounted : (lines : List (List ℕ)) → AllCounted (parse_from lines)
unfolding parse_from
parse_from-AllCounted lines = (parse_lines-Executed lines _ (tt, tt)).0

map_file-Counted :
    (hash : List ℕ → ℕ) (h : ℕ) (trace : LCovTraceOneFile) (m : CoverageMap)
    → Counted trace
    → Counted m
    → Counted (map_file hash h trace m)
unfolding map_file
map_file-Counted hash h [] m ct cm = cm
map_file-Counted hash h ((line, count) ∷ trace) m ct cm =
    map_file-Counted hash h trace _ ct.1 (insert-Counted _ count m ct.0 cm)

map_files-Counted :
    (hash : List ℕ → ℕ) (files : LCovTrace) (m : CoverageMap)
    → AllCounted files
    → Counted m
    → Counted (map_files hash files m)
unfolding map_files
map_files-Counted hash [] m cf cm = cm
map_files-Counted hash ((file, trace) ∷ files) m cf cm =
    map_files-Counted hash files _ cf.1
      (map_file-Counted hash (short_file_hash hash file) trace m cf.0 cm)

-- Whatever the lines of a report are, the coverage map that is read from it has a count of at least
-- one for each of its addresses.
pub lcov_map-Counted :
    (hash : List ℕ → ℕ) (lines : List (List ℕ)) → Counted (lcov_map hash (parse_from lines))
unfolding lcov_map
lcov_map-Counted hash lines =
    map_files-Counted hash (parse_from lines) [] (parse_from-AllCounted lines) tt
