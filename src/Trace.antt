-- ===== src/Trace.antt =====
-- diffuzzer/src/abstract_fs/trace.rs and diffuzzer/src/fuzzing/objective/trace.rs: the results of the
-- operations of a test as text, and how two of them differ.
pub mod Rows
pub mod Differences
use diffuzzer.Prelude.{
  ℕ, Bool, true, false, not, ◌&&◌, List, [], ◌∷◌, ◌++◌, map, if◌then◌else◌, ◌==◌, leb, length,
  is_empty, drop, retain,
}
use diffuzzer.PathName.{text_eq}
use diffuzzer.Text.{
  ℤ, pos, negsuc, IntErrorKind, IntResult, trim, trim_end, split_at, parse_unsigned, parse_i32,
}

pub record Errno : Type 0 where
  pub name : List ℕ
  pub code : ℤ

pub record TraceRow : Type 0 where
  pub index : ℕ
  pub command : List ℕ
  pub return_code : ℤ
  pub errno : Errno
  pub extra : List ℕ
  pub source : List ℕ

abbrev pub Trace : Type 0
Trace = List TraceRow

pub data TraceDiff : Type 0 where
  row_is_different : TraceRow → TraceRow → TraceDiff
  different_length : TraceDiff

pub data TraceError : Type 0 where
  empty invalid_column_number : TraceError
  int_parse : IntErrorKind → TraceError
  invalid_errno : List ℕ → TraceError

pub data Parsed (A : Type 0) : Type 0 where
  ok : A → Parsed A
  err : TraceError → Parsed A

infixl 5 ◌>>=◌
unfoldable pub ◌>>=◌ : {A B : Type 0} → Parsed A → (A → Parsed B) → Parsed B
Parsed.ok a >>= f = f a
Parsed.err e >>= f = Parsed.err e

-- The `?` on a parsed integer.
abbrev pub of_int : {A : Type 0} → IntResult A → Parsed A
of_int (IntResult.ok a) = Parsed.ok a
of_int (IntResult.err e) = Parsed.err (int_parse e)

-- The errno column, `name(code)`; there is always a first part.
unfoldable pub parse_errno : List ℕ → List (List ℕ) → Parsed Errno
parse_errno s [] = Parsed.err (invalid_errno s)
parse_errno s (name ∷ []) = Parsed.err (invalid_errno s)
parse_errno s (name ∷ code ∷ rest) = do
  n ← of_int (parse_i32 code)
  Parsed.ok (record { name = name; code = n })

abbrev pub is_bracket : ℕ → Bool
is_bracket c = if c == b'(' then true else c == b')'

-- One line, from its columns.
unfoldable pub parse_columns : List ℕ → List (List ℕ) → Parsed TraceRow
parse_columns line (c0 ∷ c1 ∷ c2 ∷ c3 ∷ c4 ∷ []) = do
  index ← of_int (parse_unsigned 4294967295 (trim c0))
  return_code ← of_int (parse_i32 (trim c2))
  errno ← parse_errno (trim c3) (split_at is_bracket (trim c3))
  Parsed.ok record {
    index = index;
    command = trim c1;
    return_code = return_code;
    errno = errno;
    extra = trim c4;
    source = trim_end line;
  }
parse_columns line _ = Parsed.err invalid_column_number

-- The loop over the lines after the header, until a blank one.
unfoldable pub parse_rows : List (List ℕ) → Parsed Trace
parse_rows [] = Parsed.ok []
parse_rows (line ∷ lines) =
    let rest = parse_rows lines in
    if is_empty (trim line) then Parsed.ok [] else do
      row ← parse_columns line (split_at (λ c. c == b',') line)
      rows ← rest
      Parsed.ok (row ∷ rows)

unfoldable pub try_parse : List ℕ → Parsed Trace
try_parse trace =
    let lines = split_at (λ c. c == b'\n') trace in
    if leb (length lines) 1 then Parsed.err empty else parse_rows (drop 1 lines)

unfoldable pub int_eq : ℤ → ℤ → Bool
int_eq (pos m) (pos n) = m == n
int_eq (negsuc m) (negsuc n) = m == n
int_eq (pos m) (negsuc n) = false
int_eq (negsuc m) (pos n) = false

unfoldable pub errno_eq : Errno → Errno → Bool
errno_eq a b = text_eq a.name b.name && int_eq a.code b.code

unfoldable pub ignore_index_equal : TraceRow → TraceRow → Bool
ignore_index_equal a b =
    text_eq a.command b.command
    && int_eq a.return_code b.return_code
    && text_eq a.extra b.extra
    && errno_eq a.errno b.errno

-- The derived `==`, which also compares the index and the text of the row.
unfoldable pub row_eq : TraceRow → TraceRow → Bool
row_eq a b = (a.index == b.index) && ignore_index_equal a b && text_eq a.source b.source

unfoldable pub errors : Trace → List TraceRow
errors = retain (λ row. not (int_eq row.errno.code (pos 0)))

-- The loop of `TraceObjective::diff`, on rows of the same number.
unfoldable pub diff_rows : Trace → Trace → List TraceDiff
diff_rows (a ∷ xs) (b ∷ ys) =
    let rest = diff_rows xs ys in if row_eq a b then rest else row_is_different a b ∷ rest
diff_rows [] ys = []
diff_rows (a ∷ xs) [] = []

unfoldable pub diff : Trace → Trace → List TraceDiff
diff fst_trace snd_trace =
    if length fst_trace == length snd_trace
    then diff_rows fst_trace snd_trace
    else different_length ∷ []
